-- ===== src/Mcp/Discover.antt =====
-- internal/mcp/discover/client.go: ListToolsViaTransport. A Transport is the function from a request to
-- what Send gives; a request has its id in it, so a transport may answer each one differently. The
-- decoding of the answers by encoding/json is a parameter.
pub mod Pages
pub mod Ends
pub mod Local
mod Tests
use orbitproxy_go.Prelude.{
  ℕ, zero, suc, ◌+◌, Bool, true, false, not, ◌||◌, Text, text_eq, codes, List, [], ◌∷◌, ◌++◌,
  Option, none, some, ℤ, length, take, ltb, leb, has_prefix, if◌then◌else◌,
}
use orbitproxy_go.Mcp.Schema.Body.{JsonText, sanitize_body}
use orbitproxy_go.Mcp.Errors.Code
use orbitproxy_go.Mcp.Errors.{
  Stage, handshake, protocol, Report, Err, deadline_exceeded, canceled, broken_pipe, closed_pipe,
  timed_out, other, typed, caused, wrapped, new_report, wrap, text_of, is_deadline_exceeded,
  format_number, Outcome, done, failed,
}

abbrev pub max_tools : ℕ
max_tools = 100

pub record Tool : Type 0 where
  pub name : Text
  pub description : Text
  pub input_schema : Text

pub record ServerInfo : Type 0 where
  pub name : Text
  pub version : Text

pub record ListResult : Type 0 where
  pub tools : List Tool
  pub truncated : Bool
  pub server : ServerInfo

pub data Request : Type 0 where
  initialize initialized : Request
  tools_list : ℕ → Text → Request

abbrev pub Transport : Type 0
Transport = Request → Outcome Text

-- The structs into which the answers are decoded.
pub record ToolsEnvelope : Type 0 where
  pub tools : List Tool
  pub next_cursor : Text
  pub error : Option (ℤ × Text)

pub record InitEnvelope : Type 0 where
  pub server : ServerInfo
  pub error : Option Text

pub record Json : Type 0 where
  pub text : JsonText
  pub decode_init : Text → Option InitEnvelope
  pub decode_tools : Text → Option ToolsEnvelope

unfoldable pub truncate : Text → ℕ → Text
truncate s n = if leb (length s) n then s else take n s

-- `step: ` before the message, if it does not stand there already.
unfoldable pub with_step : Text → Report → Report
with_step step e =
    if not (has_prefix e.message (step ++ codes ": "))
    then record e { message = step ++ codes ": " ++ e.message }
    else e

-- The Error of the chain with the step in its message; it is what the source returns then.
unfoldable pub with_step_in : Text → Err → Option Err
with_step_in step (typed e) = some (typed (with_step step e))
with_step_in step (caused e c) = some (caused (with_step step e) c)
with_step_in step (wrapped s e) = with_step_in step e
with_step_in step _ = none

unfoldable pub transport_error : Stage → Text → Err → Err
transport_error stage step err = elim (with_step_in step err) [
  | some e ↦ e
  | none ↦
      if is_deadline_exceeded err
      then wrap stage Code.timeout (step ++ codes ": " ++ text_of err) err
      else wrap stage Code.protocol_error (step ++ codes ": " ++ text_of err) err
]

-- The error of json.Unmarshal, which only the Cause shows.
abbrev decode_error : Err
decode_error = other (codes "json")

-- The loop over the decoded tools: one without a name is left out.
unfoldable pub named_tools : List Tool → List Tool
named_tools [] = []
named_tools (t ∷ ts) = let rest = named_tools ts in if text_eq t.name [] then rest else t ∷ rest

-- The loop over a page: what is appended, and whether it stops at the limit.
unfoldable pub add_tools : List Tool → List Tool → List Tool × Bool
add_tools tools [] = (tools, false)
add_tools tools (t ∷ page) =
    let more = add_tools (tools ++ t ∷ []) page in
    if leb max_tools (length tools) then (tools, true) else more

-- The end of a round: `rest` are the rounds that follow if it does not leave the loop.
unfoldable pub after_page :
    Bool
    → List Tool
    → Text
    → Text
    → List Tool × Bool
    → (List Tool → Bool → Option (Outcome (List Tool × Bool)))
    → Option (Outcome (List Tool × Bool))
after_page truncated page cursor next (tools, stopped) rest =
    if leb max_tools (length tools)
    then some (
        done (
          tools,
          if not (text_eq next []) || ltb max_tools (length page)
              then true
              else stopped || truncated,
        ))
    else if text_eq next [] || text_eq next cursor
    then some (done (tools, stopped || truncated))
    else rest tools (stopped || truncated)

-- The Result that ListToolsViaTransport returns.
unfoldable pub with_server : ServerInfo → Outcome (List Tool × Bool) → Outcome ListResult
with_server info (failed e) = failed e
with_server info (done (tools, truncated)) =
    done (record { tools = tools; truncated = truncated; server = info })

module _ (json : Json) (transport : Transport) where
  -- What is done with the answer to tools/list.
  unfoldable pub decode_page : Text → Outcome (List Tool × Text)
  decode_page resp = elim (json.decode_tools resp) [
    | none ↦ failed (
        wrap protocol Code.protocol_error
          (codes "tools/list: response is not JSON-RPC: " ++ truncate resp 200) decode_error)
    | some envelope ↦ elim envelope.error [
      | some (code, message) ↦ failed (
          typed (
            new_report protocol Code.tools_list_rejected
              (codes "tools/list rejected (" ++ format_number code ++ codes "): " ++ message)))
      | none ↦ done (named_tools envelope.tools, envelope.next_cursor)
    ]
  ]

  unfoldable pub list_tools_page : ℕ → Text → Outcome (List Tool × Text)
  list_tools_page id cursor = elim (transport (tools_list id cursor)) [
    | failed e ↦ failed (transport_error protocol (codes "tools/list") e)
    | done resp ↦ decode_page (sanitize_body json.text resp)
  ]

  -- The loop over the pages, with fuel; `none` when it runs out.
  unfoldable pub list_pages : ℕ → List Tool → Bool → Text → ℕ → Option (Outcome (List Tool × Bool))
  list_pages zero tools truncated cursor req_id = none
  list_pages (suc n) tools truncated cursor req_id = elim (list_tools_page req_id cursor) [
    | failed e ↦ some (failed e)
    | done (page, next) ↦
        after_page truncated page cursor next (add_tools tools page)
          (λ tools' truncated'. list_pages n tools' truncated' next (req_id + 1))
  ]

  unfoldable pub notify_initialized : ServerInfo → Outcome ServerInfo
  notify_initialized info = elim (transport initialized) [
    | failed e ↦ failed (transport_error handshake (codes "initialized notify") e)
    | done resp ↦ done info
  ]

  unfoldable pub shake_hands : Outcome ServerInfo
  shake_hands = elim (transport initialize) [
    | failed e ↦ failed (transport_error handshake (codes "initialize") e)
    | done resp ↦ elim (json.decode_init resp) [
      | none ↦ failed (
          wrap handshake Code.protocol_error
            (codes "initialize: response is not JSON-RPC: " ++ truncate resp 200) decode_error)
      | some envelope ↦ elim envelope.error [
        | some message ↦ failed (
            typed (
              new_report handshake Code.handshake_rejected
                (codes "initialize rejected: " ++ message)))
        | none ↦ notify_initialized envelope.server
      ]
    ]
  ]

  unfoldable pub server_of : Option ServerInfo → Outcome ServerInfo
  server_of (some info) = done info
  server_of none = shake_hands

  -- `ready` is the ServerInfo of a Transport that is Handshaked.
  unfoldable pub list_tools_via_transport : ℕ → Option ServerInfo → Option (Outcome ListResult)
  list_tools_via_transport n ready = elim (server_of ready) [
    | failed e ↦ some (failed e)
    | done info ↦ elim (list_pages n [] false [] 2) [
      | none ↦ none
      | some found ↦ some (with_server info found)
    ]
  ]
