-- ===== src/Wire/Message.antt =====
-- wire/message.go: the interface Message, with the MsgType methods of the structs, and the zero message
-- of a type (codec.go).
mod Structs
unfoldable pub use Structs.*
use orbitproxy_go.Prelude.{ℕ, ℤ, pos, Text, Bool, false, Option, none, List, [], ◌≡◌, refl}
use orbitproxy_go.Wire.Types.{MessageType}

-- The implementations of the interface Message; a value and a pointer to it are one here.
pub data Message : Type 0 where
  client_hello : ClientHello → Message
  server_hello : ServerHello → Message
  start_work_conn : StartWorkConn → Message
  new_endpoint : NewEndpoint → Message
  close_endpoint : CloseEndpoint → Message
  endpoint_health : EndpointHealth → Message
  discover_tools : DiscoverTools → Message
  discover_tools_result : DiscoverToolsResult → Message
  exec_preflight : ExecPreflight → Message
  exec_preflight_result : ExecPreflightResult → Message
  preflight : Preflight → Message
  preflight_result : PreflightResult → Message
  endpoint_diagnostic : EndpointDiagnostic → Message
  disconnect : Disconnect → Message
  stop : Stop → Message
  restart : Restart → Message
  update : Update → Message
  lifecycle_result : LifecycleResult → Message
  data_hello : DataHello → Message
  data_hello_ack : Message

-- The methods MsgType. It is the key by which the source tells the struct types apart too.
unfoldable pub msg_type : Message → MessageType
msg_type (client_hello m) = MessageType.client_hello
msg_type (server_hello m) = MessageType.server_hello
msg_type (start_work_conn m) = MessageType.start_work_conn
msg_type (new_endpoint m) = MessageType.new_endpoint
msg_type (close_endpoint m) = MessageType.close_endpoint
msg_type (endpoint_health m) = MessageType.endpoint_health
msg_type (discover_tools m) = MessageType.discover_tools
msg_type (discover_tools_result m) = MessageType.discover_tools_result
msg_type (exec_preflight m) = MessageType.exec_preflight
msg_type (exec_preflight_result m) = MessageType.exec_preflight_result
msg_type (preflight m) = MessageType.preflight
msg_type (preflight_result m) = MessageType.preflight_result
msg_type (endpoint_diagnostic m) = MessageType.endpoint_diagnostic
msg_type (disconnect m) = MessageType.disconnect
msg_type (stop m) = MessageType.stop
msg_type (restart m) = MessageType.restart
msg_type (update m) = MessageType.update
msg_type (lifecycle_result m) = MessageType.lifecycle_result
msg_type (data_hello m) = MessageType.data_hello
msg_type data_hello_ack = MessageType.data_hello_ack

-- reflect.New of a message's struct: every field has its zero value.
unfoldable pub zero_message : MessageType → Message
zero_message MessageType.client_hello = client_hello (record {
  machine_key = [];
  soft_version = [];
  timestamp = pos 0;
  nonce = [];
  auth_signature = [];
})
zero_message MessageType.server_hello =
    server_hello (record { edge_id = []; session_id = []; data_sessions = pos 0 })
zero_message MessageType.start_work_conn =
    start_work_conn (record { endpoint_id = []; route_version = []; source_addr = []; error = [] })
zero_message MessageType.new_endpoint = new_endpoint (record {
  endpoint_id = [];
  category = [];
  protocol = [];
  local_service_payload = [];
  health_enabled = false;
  health_interval_seconds = pos 0;
  health_timeout_seconds = pos 0;
  health_max_failed = pos 0;
  proxies = [];
  discover_tools = none;
  error = [];
})
zero_message MessageType.close_endpoint = close_endpoint (record { endpoint_id = [] })
zero_message MessageType.endpoint_health =
    endpoint_health
      (record { endpoint_id = []; healthy = false; reason = []; error_code = []; ts = pos 0 })
zero_message MessageType.discover_tools =
    discover_tools (record { request_id = []; endpoint_id = []; timeout_seconds = pos 0 })
zero_message MessageType.discover_tools_result = discover_tools_result (record {
  request_id = [];
  endpoint_id = [];
  status = [];
  error_code = [];
  error_message = [];
  truncated = false;
  server_name = [];
  server_version = [];
  tools = [];
})
zero_message MessageType.exec_preflight =
    exec_preflight
      (record { request_id = []; endpoint_id = []; command = []; args = []; work_dir = [] })
zero_message MessageType.exec_preflight_result = exec_preflight_result (record {
  request_id = [];
  endpoint_id = [];
  status = [];
  error_code = [];
  error_message = [];
  command_found = false;
  command_executable = false;
  workdir_exists = false;
  resolved_path = [];
})
zero_message MessageType.preflight =
    preflight
      (record { request_id = []; endpoint_id = []; timeout_seconds = pos 0; skip_protocol = false })
zero_message MessageType.preflight_result = preflight_result (record {
  request_id = [];
  endpoint_id = [];
  status = [];
  error_code = [];
  error_message = [];
  truncated = false;
  server_name = [];
  server_version = [];
  resolved_path = [];
  tools = [];
  extra = [];
})
zero_message MessageType.endpoint_diagnostic = endpoint_diagnostic (record {
  endpoint_id = [];
  level = [];
  error_code = [];
  message = [];
  stderr_tail = [];
  occurred_count = pos 0;
})
zero_message MessageType.disconnect = disconnect (record { reason = []; reason_text = [] })
zero_message MessageType.stop = stop (record { request_id = []; reason = []; reason_text = [] })
zero_message MessageType.restart = restart (record { request_id = [] })
zero_message MessageType.update =
    update (record { request_id = []; download_url = []; version = []; artifact = [] })
zero_message MessageType.lifecycle_result =
    lifecycle_result
      (record { request_id = []; status = []; error_code = []; error_message = []; version = [] })
zero_message MessageType.data_hello = data_hello (record {
  session_id = [];
  machine_key = [];
  index = pos 0;
  timestamp = pos 0;
  nonce = [];
  auth_signature = [];
})
zero_message MessageType.data_hello_ack = data_hello_ack

pub msg_type-zero_message : (t : MessageType) → msg_type (zero_message t) ≡ t
unfolding msg_type zero_message
msg_type-zero_message MessageType.client_hello = refl
msg_type-zero_message _ = refl
