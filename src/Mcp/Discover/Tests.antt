-- ===== src/Mcp/Discover/Tests.antt =====
-- A server with two pages of tools, and one whose cursors alternate.
use orbitproxy_go.Prelude.{
  ℕ, ◌≤◌, ◌≡◌, refl, inl, inr, false, Text, text_eq, codes, [], ◌∷◌, none, some, length, arith,
  if◌then◌else◌, Bool-cases,
}
use orbitproxy_go.Mcp.Errors.{Outcome, done}
use orbitproxy_go.Mcp.Schema.Body.{sanitize_body}
use orbitproxy_go.Mcp.Discover.{
  Tool, ServerInfo, ListResult, initialize, initialized, tools_list, Transport, ToolsEnvelope, Json,
  named_tools, decode_page, list_tools_page, list_pages, add_tools, after_page, server_of,
  with_server, list_tools_via_transport, max_tools, shake_hands, notify_initialized,
}
use orbitproxy_go.Mcp.Discover.Pages.{FromPages, list_tools_via_transport-FromPages}
use orbitproxy_go.Mcp.Discover.Ends.{GivesTools, list_tools_via_transport-total, list_pages_endless}

abbrev tool : Text → Tool
tool name = record { name = name; description = []; input_schema = [] }

abbrev first_page : ToolsEnvelope
first_page = record {
  tools = tool (codes "a") ∷ tool [] ∷ tool (codes "b") ∷ [];
  next_cursor = codes "c";
  error = none;
}

abbrev second_page : ToolsEnvelope
second_page = record { tools = tool (codes "d") ∷ []; next_cursor = []; error = none }

abbrev info : ServerInfo
info = record { name = codes "s"; version = codes "1" }

abbrev json : Json
json = record {
  text = record { parse = λ s. none; print = λ v. [] };
  decode_init = λ s. some (record { server = info; error = none });
  decode_tools = λ s. some (if text_eq s [] then first_page else second_page);
}

-- The answer to a page is its cursor.
abbrev transport : Transport
transport initialize = done []
transport initialized = done []
transport (tools_list id cursor) = done cursor

abbrev found : ListResult
found = record {
  tools = tool (codes "a") ∷ tool (codes "b") ∷ tool (codes "d") ∷ [];
  truncated = false;
  server = info;
}

found_run : list_tools_via_transport json transport 101 none ≡ some (done found)
unfolding list_tools_via_transport server_of shake_hands notify_initialized list_pages
    list_tools_page sanitize_body decode_page named_tools add_tools after_page with_server text_eq
found_run = refl

list_tools_via_transport-FromPages_example :
    FromPages json transport [] 2 [] (found.tools, found.truncated)
    × (length found.tools ≤ max_tools)
list_tools_via_transport-FromPages_example =
    list_tools_via_transport-FromPages json transport 101 none found found_run

transport-GivesTools : GivesTools json transport
unfolding list_tools_page sanitize_body decode_page named_tools text_eq
transport-GivesTools id cursor next page h = elim (Bool-cases (text_eq cursor [])) [
  | inl start ↦ ground (arith, start, h)
  | inr later ↦ ground (arith, later, h)
]

list_tools_via_transport-total_example :
    (o : Outcome ListResult) × (list_tools_via_transport json transport 101 none ≡ some o)
list_tools_via_transport-total_example =
    list_tools_via_transport-total json transport 101 none transport-GivesTools (omega arith)

-- No tools, and the cursors a and b in turn.
abbrev alternating : Json
alternating = record json {
  decode_tools = λ s. some (record {
    tools = [];
    next_cursor = if text_eq s (codes "a") then codes "b" else codes "a";
    error = none;
  });
}

at_a : (i : ℕ) → list_tools_page alternating transport i (codes "a") ≡ done ([], codes "b")
unfolding list_tools_page sanitize_body decode_page named_tools text_eq
at_a i = refl

at_b : (i : ℕ) → list_tools_page alternating transport i (codes "b") ≡ done ([], codes "a")
unfolding list_tools_page sanitize_body decode_page named_tools text_eq
at_b i = refl

differ :
    (text_eq (codes "a") [] ≡ false)
    × (text_eq (codes "b") [] ≡ false)
    × (text_eq (codes "a") (codes "b") ≡ false)
    × (text_eq (codes "b") (codes "a") ≡ false)
unfolding text_eq
differ = (refl, refl, refl, refl)

list_pages_endless_test : list_pages alternating transport 50 [] false (codes "a") 2 ≡ none
list_pages_endless_test =
    list_pages_endless alternating transport 50 2 (codes "a") (codes "b") differ.0 differ.1 differ.2
      differ.3 at_a at_b
