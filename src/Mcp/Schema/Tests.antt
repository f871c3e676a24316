-- ===== src/Mcp/Schema/Tests.antt =====
-- Runs of the schema sanitizer on a list with one tool.
use orbitproxy_go.Prelude.{◌≤◌, ◌<◌, ◌≡◌, refl, true, false, text_eq, codes, some, arith}
use orbitproxy_go.Mcp.Schema.{
  Value, null, obj, Items, nil, cons, Fields, end, field, json_schema_any, is_void, sanitize_object,
  sanitize_element, sanitize_map, sanitize_properties, sanitize_schema_keyword, see, keep_field,
  at_key, schema_keys, call_each, sanitize_json_schema, sanitize_input_schema,
  sanitize_tool_input_schema, sanitize_tools, sanitize_tools_list_json, sanitize_result,
}
use orbitproxy_go.Mcp.Schema.Each.{map_fields, see_all, call_each-map_fields}
use orbitproxy_go.Mcp.Schema.Clean.{depth_fields, depth_items}
use orbitproxy_go.Mcp.Schema.Tools.{CleanTools, sanitize_tools-CleanTools}
use orbitproxy_go.Mcp.Schema.Same.{sanitize_tools_list_json-same}
use orbitproxy_go.Mcp.Schema.Residue.{only_properties, one_property, sanitize_json_schema_residue}
use orbitproxy_go.Mcp.Schema.Enough.{sanitize_json_schema_enough}

-- { "properties": { "a": ⟨v⟩ }, "items": ⟨w⟩ }
abbrev schema : Value → Value → Fields
schema v w =
    field (codes "properties") (obj (field (codes "a") v end)) (field (codes "items") w end)

abbrev tools : Value → Value → Items
tools v w = cons (obj (field (codes "inputSchema") (obj (schema v w)) end)) nil

sanitize_one :
    sanitize_tools 2 (tools null (obj end)) ≡ some (tools json_schema_any json_schema_any, true)
unfolding sanitize_tools sanitize_tool_input_schema sanitize_input_schema at_key keep_field text_eq
    is_void sanitize_object sanitize_json_schema call_each see sanitize_properties sanitize_map
    sanitize_element sanitize_schema_keyword
sanitize_one = refl

shallow : depth_items (tools null (obj end)) ≤ 3
unfolding depth_items
shallow = omega arith

sanitize_tools-CleanTools_example : CleanTools 4 (tools json_schema_any json_schema_any)
sanitize_tools-CleanTools_example =
    sanitize_tools-CleanTools 2 4 (tools null (obj end)) {changed = true} shallow sanitize_one

deep_enough : depth_fields (schema null null) < 2
unfolding depth_fields
deep_enough = omega arith

sanitize_json_schema_enough_example :
    sanitize_json_schema 2 (schema null null) ≡ sanitize_json_schema 9 (schema null null)
sanitize_json_schema_enough_example =
    sanitize_json_schema_enough 2 9 (schema null null) deep_enough (deeper)
  where
    deeper : depth_fields (schema null null) < 9
    deeper = omega (arith, deep_enough)

-- A body without tools.
abbrev no_tools : Value
no_tools = obj (field (codes "result") (obj end) end)

no_tools-false : (sanitize_tools_list_json 5 no_tools).1 ≡ false
unfolding sanitize_tools_list_json sanitize_result at_key keep_field text_eq
no_tools-false = refl

sanitize_tools_list_json-same_test : (sanitize_tools_list_json 5 no_tools).0 ≡ no_tools
sanitize_tools_list_json-same_test = sanitize_tools_list_json-same 5 no_tools no_tools-false

null-is_void : is_void null ≡ true
unfolding is_void
null-is_void = refl

sanitize_json_schema_residue_example :
    (sanitize_json_schema 2 (one_property (codes "a") (obj (only_properties null)))
      ≡ (one_property (codes "a") (obj end), true))
    × (sanitize_json_schema 2 (one_property (codes "a") (obj end))
        ≡ (one_property (codes "a") json_schema_any, true))
sanitize_json_schema_residue_example = sanitize_json_schema_residue 0 (codes "a") null null-is_void

call_each-map_fields_test :
    call_each (sanitize_json_schema 1) schema_keys (schema null null)
    ≡ map_fields (see_all (sanitize_json_schema 1) schema_keys) (schema null null)
call_each-map_fields_test =
    call_each-map_fields (sanitize_json_schema 1) schema_keys (schema null null)
