-- ===== src/Mcp/Schema/Body.antt =====
-- internal/mcp/toolschema/sanitize.go: SanitizeToolsListJSON on a text. json.Unmarshal into untyped
-- values and json.Marshal of them are parameters; the fuel is the nesting of the value.
use orbitproxy_go.Prelude.{suc, Text, Option, none, some, if◌then◌else◌}
use orbitproxy_go.Mcp.Schema.{Value, sanitize_tools_list_json}
use orbitproxy_go.Mcp.Schema.Clean.{depth}

pub record JsonText : Type 0 where
  pub parse : Text → Option Value
  pub print : Value → Text

unfoldable pub sanitize_body : JsonText → Text → Text
unfolding sanitize_tools_list_json depth
sanitize_body json body = elim (json.parse body) [
  | none ↦ body
  | some v ↦
      let (v', changed) = sanitize_tools_list_json (suc (depth v)) v in
      if changed then json.print v' else body
]
