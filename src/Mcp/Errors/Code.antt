-- ===== src/Mcp/Errors/Code.antt =====
-- internal/mcp/mcperr/mcperr.go: the error codes that the model compares or gives out.
use orbitproxy_go.Prelude.{Text, codes}

abbrev pub command_not_found : Text
command_not_found = codes "command_not_found"

abbrev pub command_not_executable : Text
command_not_executable = codes "command_not_executable"

abbrev pub package_not_installed : Text
package_not_installed = codes "package_not_installed"

abbrev pub env_file_missing : Text
env_file_missing = codes "env_file_missing"

abbrev pub spawn_failed : Text
spawn_failed = codes "spawn_failed"

abbrev pub handshake_timeout : Text
handshake_timeout = codes "handshake_timeout"

abbrev pub handshake_rejected : Text
handshake_rejected = codes "handshake_rejected"

abbrev pub exited_on_start : Text
exited_on_start = codes "exited_on_start"

abbrev pub exited_after_handshake : Text
exited_after_handshake = codes "exited_after_handshake"

abbrev pub exited_at_runtime : Text
exited_at_runtime = codes "exited_at_runtime"

abbrev pub protocol_error : Text
protocol_error = codes "protocol_error"

abbrev pub tools_list_rejected : Text
tools_list_rejected = codes "tools_list_rejected"

abbrev pub timeout : Text
timeout = codes "timeout"

abbrev pub concurrency_limit : Text
concurrency_limit = codes "concurrency_limit"

abbrev pub internal : Text
internal = codes "internal"
