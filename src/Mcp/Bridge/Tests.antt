-- ===== src/Mcp/Bridge/Tests.antt =====
-- Runs of the handler.
use orbitproxy_go.Prelude.{
  pos, ◌≡◌, refl, true, false, Text, text_eq, codes, contains, has_prefix, [], none, some,
  if◌then◌else◌, trim_space,
}
use orbitproxy_go.Mcp.Errors.Code
use orbitproxy_go.Mcp.Errors.{Report, spawn, typed, tail, error_text, done, failed}
use orbitproxy_go.Mcp.JsonRpc.{Message}
use orbitproxy_go.Mcp.JsonRpc.Pending.{new_pending_map}
use orbitproxy_go.Mcp.Session.{
  Session, call_begin, is_alive, process_exit_error, by_exit, call_wakes,
}
use orbitproxy_go.Mcp.Bridge.{
  Codec, error_body, answers, body, handle_work_conn, call_failed, pool_failed,
}
use orbitproxy_go.Mcp.Bridge.Answers.{AnsweredOnce, message_of, handle_work_conn-AnsweredOnce}
use orbitproxy_go.Mcp.Bridge.Verdicts.{verdict, refused, call_failed-verdict, call_failed-refused}
use orbitproxy_go.Mcp.Bridge.Limits.{pool_failed-by_stderr}

-- A session that is ready, whose child has exited with code 1.
abbrev lost : Session
lost = record {
  pending = new_pending_map;
  is_closed = false;
  has_exited = true;
  exit_code = some (pos 1);
  stderr_tail = codes "panic";
  stdout_tail = [];
  stdout_noise = [];
  handshake_done = true;
  request_timeout = 5;
  last_activity = 0;
  server_name = [];
  server_version = [];
  init_result = [];
}

abbrev ping : Message
ping = record {
  json_rpc = codes "\"2.0\"";
  id = codes "1";
  method = codes "\"ping\"";
  params = [];
  result = [];
  error = [];
}

-- A codec that knows one message.
abbrev codec : Codec
codec = record {
  unmarshal = λ t. if text_eq t (codes "{ping}") then some ping else none;
  unmarshal_string = λ t. if text_eq t (codes "\"ping\"") then some (codes "ping") else none;
  marshal = λ m. some (codes "{}");
  server_result = λ name version. name;
  untyped = record { parse = λ t. none; print = λ v. [] };
}

abbrev waiting : Text
waiting = codes "subprocess exited while waiting for response"

handle_work_conn-AnsweredOnce_example :
    AnsweredOnce codec (codes "e1") (message_of codec (body (codes "{ping}"))) (
      handle_work_conn codec
        (codes "e1")
        (body (codes "{ping}"))
        (done lost)
        none
        (failed (process_exit_error lost waiting)))
handle_work_conn-AnsweredOnce_example =
    handle_work_conn-AnsweredOnce codec (codes "e1") (body (codes "{ping}")) (done lost) none
      (failed (process_exit_error lost waiting))

call_failed-verdict_example :
    call_failed (codes "e1") (process_exit_error lost waiting)
    ≡ verdict (codes "e1") lost by_exit (process_exit_error lost waiting)
unfolding call_wakes
call_failed-verdict_example = call_failed-verdict (codes "e1") 2 by_exit lost refl tt refl

call_failed-refused_test :
    call_failed (codes "e1") (process_exit_error lost (codes "subprocess already exited"))
    ≡ refused (codes "e1") lost (process_exit_error lost (codes "subprocess already exited"))
unfolding call_begin is_alive
call_failed-refused_test = call_failed-refused (codes "e1") ping 0 none lost refl refl

-- A child that a remote limit has ended.
abbrev throttled : Report
throttled = record {
  stage = spawn;
  code = Code.exited_on_start;
  message = codes "initialize";
  exit_code = some (pos 1);
  stderr_tail = codes "API rate limit reached";
  stdout_tail = [];
}

throttled_tail : contains (tail throttled.stderr_tail) (codes "limit reached") ≡ true
unfolding tail trim_space contains has_prefix
throttled_tail = refl

pool_failed-by_stderr_example :
    pool_failed (typed throttled)
    ≡ answers 503 (error_body Code.concurrency_limit (error_text throttled))
pool_failed-by_stderr_example = pool_failed-by_stderr throttled (pos 1) refl throttled_tail
