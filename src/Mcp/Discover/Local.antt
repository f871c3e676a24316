-- ===== src/Mcp/Discover/Local.antt =====
-- internal/mcp/discover/client.go: the payload of an endpoint, from which a listing is started, and the
-- data of an event stream. json.Unmarshal is a parameter, and so are the two transports.
use orbitproxy_go.Prelude.{
  ℕ, ℤ, pos, negsuc, non_positive, pos_part, ◌*◌, Text, text_eq, codes, has_prefix, trim_space,
  drop, List, [], ◌∷◌, Option, none, some, if◌then◌else◌,
}
use orbitproxy_go.Prelude.Paths.{split}
use orbitproxy_go.Mcp.Errors.Code
use orbitproxy_go.Mcp.Errors.{
  protocol, Err, other, wrapped, typed, new_report, Outcome, done, failed,
}
use orbitproxy_go.Mcp.SpawnConfig.{SpawnConfig}
use orbitproxy_go.Mcp.Payload.{ExecPayload, parse_exec_payload}
use orbitproxy_go.Mcp.Discover.{ServerInfo, ListResult, Transport, Json, list_tools_via_transport}

-- The lines `data:` of an event stream.
unfoldable pub data_lines : List Text → List Text
data_lines [] = []
data_lines (line ∷ lines) =
    let rest = data_lines lines in
    if has_prefix line (codes "data:") then trim_space (drop 5 line) ∷ rest else rest

abbrev last_of : Text → List Text → Text
last_of line [] = line
last_of line (next ∷ lines) = last_of next lines

abbrev last_data : List Text → Outcome Text
last_data [] = failed (typed (new_report protocol Code.protocol_error (codes "empty sse data")))
last_data (line ∷ lines) = done (last_of line lines)

unfoldable pub extract_sse_data : Text → Outcome Text
unfolding data_lines
extract_sse_data raw = last_data (data_lines (split b'\n' raw))

-- The fields of a payload that are strings, and else empty.
pub record LocalPayload : Type 0 where
  pub local_addr : Text
  pub local_path : Text
  pub transport : Text

abbrev no_address : Err
no_address = other (codes "localAddr is required")

-- ParseLocalPayload; `unmarshal` gives the text of its error.
unfoldable pub parse_local_payload : (List ℕ → Outcome LocalPayload) → List ℕ → Outcome LocalPayload
parse_local_payload unmarshal raw = elim (unmarshal raw) [
  | failed e ↦ failed (wrapped (codes "decode local payload: ") e)
  | done p ↦ if text_eq p.local_addr [] then failed no_address else done p
]

-- NewHTTPTransport for an address, a path and a timeout, and NewStdioTransport, which has shaken hands.
pub record Transports : Type 0 where
  pub http : (addr path : Text) → ℕ → Transport
  pub stdio : SpawnConfig → Outcome (Transport × ServerInfo)

abbrev slash_first : Text → Text
slash_first path = if has_prefix path (codes "/") then path else b'/' ∷ path

-- ListTools, whose timeout is a number of nanoseconds; `none` is the end of the fuel.
unfoldable pub list_tools : Json → Transports → ℕ → Text → Text → ℤ → Option (Outcome ListResult)
unfolding list_tools_via_transport
list_tools json ts fuel addr given timeout =
    let path = slash_first (if text_eq given [] then codes "/mcp" else given) in
    let limit = if non_positive timeout then 30 * 1_000_000_000 else pos_part timeout in
    if text_eq addr []
    then some (failed no_address)
    else list_tools_via_transport json (ts.http addr path limit) fuel none

unfoldable pub list_tools_via_stdio :
    Json → Transports → ℕ → SpawnConfig → Option (Outcome ListResult)
unfolding list_tools_via_transport
list_tools_via_stdio json ts fuel cfg = elim (ts.stdio cfg) [
  | failed e ↦ some (failed e)
  | done (transport, server) ↦ list_tools_via_transport json transport fuel (some server)
]

abbrev in_seconds : ℤ → ℤ
in_seconds (pos n) = pos (n * 1_000_000_000)
in_seconds (negsuc n) = negsuc n

-- ListToolsFromPayload; a timeout that is not positive stands for the default, whatever it is.
unfoldable pub list_tools_from_payload :
    Json
    → Transports
    → (List ℕ → Option ExecPayload)
    → (List ℕ → Outcome LocalPayload)
    → ℕ
    → List ℕ
    → ℤ
    → Option (Outcome ListResult)
unfolding list_tools list_tools_via_stdio parse_local_payload parse_exec_payload
list_tools_from_payload json ts exec_of local_of fuel raw timeout_seconds =
    elim (parse_exec_payload exec_of raw) [
      | some cfg ↦ list_tools_via_stdio json ts fuel cfg
      | none ↦ elim (parse_local_payload local_of raw) [
        | failed e ↦ some (failed e)
        | done p ↦ list_tools json ts fuel p.local_addr p.local_path (in_seconds timeout_seconds)
      ]
    ]
