-- ===== src/Mcp/Bridge.antt =====
-- internal/mcp/mcpstdio/bridge.go: one HTTP request of a work connection against the session of its
-- endpoint. What the handler does is the list of its steps. net/http and encoding/json are parameters,
-- and so is what the pool and Call give; SendNotification is that of Session.
pub mod Answers
pub mod Verdicts
pub mod Limits
mod Tests
use orbitproxy_go.Prelude.{
  ℕ, ◌*◌, ◌==◌, Bool, true, false, ◌&&◌, ◌||◌, Text, text_eq, codes, contains, List, [], ◌∷◌, ◌++◌,
  Option, none, some, String, length, take, ltb, if◌then◌else◌,
}
use orbitproxy_go.Mcp.Errors.Code
use orbitproxy_go.Mcp.Errors.{
  Err, deadline_exceeded, canceled, broken_pipe, closed_pipe, timed_out, other, typed, caused,
  wrapped, text_of, is_deadline_exceeded, code_of, is_process_exit, Outcome, done, failed,
}
use orbitproxy_go.Mcp.JsonRpc.{Message, is_request, is_notification}
use orbitproxy_go.Mcp.Schema.Body.{JsonText, sanitize_body}
use orbitproxy_go.Mcp.Session.{Session, send_notification}

-- encoding/json: a Message, a string, a Message as bytes, the result that stands for a handshake
-- without one, and untyped values.
pub record Codec : Type 0 where
  pub unmarshal : Text → Option Message
  pub unmarshal_string : Text → Option Text
  pub marshal : Message → Option Text
  pub server_result : (name version : Text) → Text
  pub untyped : JsonText

-- The body of an answer: `{}`, that of writeHTTPError, a JSON-RPC result, and bytes.
pub data Body : Type 0 where
  empty_object : Body
  error_body : (code message : Text) → Body
  result_body : (id result : Text) → Body
  bytes : Text → Body

pub data Step : Type 0 where
  asks_pool : Text → Step
  calls notifies : Message → Step
  invalidates : Text → Step
  answers : ℕ → Body → Step

-- http.ReadRequest, and reading the body that follows.
pub data Reading : Type 0 where
  no_request no_body : Reading
  body : Text → Reading

-- 2<<20
abbrev pub max_body : ℕ
max_body = 2 * 1_048_576

unfoldable pub derive_session_key : Text → Text
derive_session_key endpoint_id = endpoint_id

unfoldable pub method_string : Codec → Message → Text
method_string codec m =
    if length m.method == 0
    then []
    else elim (codec.unmarshal_string m.method) [ none ↦ [] | some s ↦ s ]

unfoldable pub is_limit_error : Err → Bool
is_limit_error err = contains (text_of err) (codes "limit reached")

-- errors.As to a net.Error that has timed out: that of a context's deadline is one too.
unfoldable pub is_net_timeout : Err → Bool
is_net_timeout deadline_exceeded = true
is_net_timeout (timed_out s) = true
is_net_timeout (caused e c) = is_net_timeout c
is_net_timeout (wrapped s e) = is_net_timeout e
is_net_timeout _ = false

unfoldable pub is_timeout_error : Err → Bool
is_timeout_error err =
    if is_deadline_exceeded err || text_eq (code_of err) Code.timeout
    then true
    else is_net_timeout err

-- errors.Is of EPIPE or of io.ErrClosedPipe.
unfoldable pub is_pipe_error : Err → Bool
is_pipe_error broken_pipe = true
is_pipe_error closed_pipe = true
is_pipe_error (caused e c) = is_pipe_error c
is_pipe_error (wrapped s e) = is_pipe_error e
is_pipe_error _ = false

unfoldable pub is_dead_session_error : Err → Bool
is_dead_session_error err = if is_process_exit err then true else is_pipe_error err

unfoldable pub is_exited_on_start_error : Err → Bool
is_exited_on_start_error err =
    text_eq (code_of err) Code.exited_on_start || text_eq (code_of err) Code.exited_after_handshake

-- GetOrCreate has failed.
unfoldable pub pool_failed : Err → Step
pool_failed err =
    if is_limit_error err
    then answers 503 (error_body Code.concurrency_limit (text_of err))
    else if is_exited_on_start_error err
    then answers 502 (error_body Code.exited_on_start (text_of err))
    else answers 502 (error_body Code.spawn_failed (text_of err))

abbrev pub or_text : Text → Text → Text
or_text s default = if text_eq s [] then default else s

-- writeSynthesizedInitialize
unfoldable pub synthesized_initialize : Codec → Message → Session → Step
synthesized_initialize codec req s =
    let result =
      if length s.init_result == 0
      then codec.server_result (or_text s.server_name (codes "orbitproxy-exec"))
          (or_text s.server_version (codes "1.0.0"))
      else s.init_result in
    answers 200 (result_body req.id result)

-- SendNotification has returned.
unfoldable pub notified : Text → Option Err → List Step
notified key none = answers 202 empty_object ∷ []
notified key (some err) =
    let answer = answers 502 (error_body Code.exited_at_runtime (text_of err)) ∷ [] in
    if is_dead_session_error err then invalidates key ∷ answer else answer

-- Call has failed.
unfoldable pub call_failed : Text → Err → List Step
call_failed key err =
    let status = if is_timeout_error err then 504 else 502 in
    if is_dead_session_error err
    then invalidates key ∷ answers status (error_body Code.exited_at_runtime (text_of err)) ∷ []
    else answers status (error_body Code.internal (text_of err)) ∷ []

-- Call has returned.
unfoldable pub called : Codec → Text → Outcome Message → List Step
called codec key (failed err) = call_failed key err
called codec key (done resp) = elim (codec.marshal resp) [
  | none ↦ answers 500 (error_body Code.internal (codes "failed to marshal response")) ∷ []
  | some resp_body ↦ answers 200 (bytes (sanitize_body codec.untyped resp_body)) ∷ []
]

-- The handler, once it has a session. `write_error` is what a write to the child fails with, and
-- `result` is what Call gives.
unfoldable pub serve_message :
    Codec → Text → Message → Session → Option Text → Outcome Message → List Step
serve_message codec key m s write_error result =
    let method = method_string codec m in
    if text_eq method (codes "initialize") && is_request m
    then synthesized_initialize codec m s ∷ []
    else if text_eq method (codes "notifications/initialized") && is_notification m
    then answers 202 empty_object ∷ []
    else if is_notification m
    then notifies m ∷ notified key (send_notification write_error s)
    else calls m ∷ called codec key result

-- GetOrCreate has returned.
unfoldable pub after_pool :
    Codec → Text → Message → Outcome Session → Option Text → Outcome Message → List Step
after_pool codec key m (failed err) write_error result = pool_failed err ∷ []
after_pool codec key m (done s) write_error result = serve_message codec key m s write_error result

abbrev pub bad_request : String → List Step
bad_request message = answers 400 (error_body Code.internal (codes message)) ∷ []

-- HandleWorkConn, where GetOrCreate gives `got`.
unfoldable pub handle_work_conn :
    Codec → Text → Reading → Outcome Session → Option Text → Outcome Message → List Step
handle_work_conn codec endpoint_id no_request got write_error result =
    bad_request "failed to read HTTP request"
handle_work_conn codec endpoint_id no_body got write_error result =
    bad_request "failed to read request body"
handle_work_conn codec endpoint_id (body sent) got write_error result =
    let key = derive_session_key endpoint_id in
    let read = take max_body sent in
    if length read == 0 then bad_request "empty request body" else elim (codec.unmarshal read) [
      | none ↦ bad_request "invalid JSON-RPC message"
      | some m ↦ asks_pool key ∷ after_pool codec key m got write_error result
    ]
