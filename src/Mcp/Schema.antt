-- ===== src/Mcp/Schema.antt =====
-- internal/mcp/toolschema/sanitize.go: cleaning the JSON schemas of a tools/list answer. A JSON object
-- is the list of its fields, of which each key has one; json.Unmarshal and json.Marshal go between the
-- text and these values. A function that changes a Go map in place gives the new fields, and with them
-- its result, whether something changed.
pub mod Each
pub mod Clean
pub mod Cleaned
pub mod Sanitized
pub mod Tools
pub mod Same
pub mod Residue
pub mod Enough
pub mod Body
mod Tests
use orbitproxy_go.Prelude.{
  ℕ, zero, suc, Bool, true, false, ◌||◌, Text, text_eq, codes, List, [], ◌∷◌, Option, none, some,
  if◌then◌else◌,
}

mutual
  pub data Value : Type 0 where
    null : Value
    bool : Bool → Value
    num : ℕ → Value
    str : Text → Value
    arr : Items → Value
    obj : Fields → Value

  pub data Items : Type 0 where
    nil : Items
    cons : Value → Items → Items

  pub data Fields : Type 0 where
    end : Fields
    field : Text → Value → Fields → Fields

abbrev pub any_types : Items
any_types = cons (str (codes "object")) (
    cons (str (codes "string")) (
      cons (str (codes "number")) (
        cons (str (codes "boolean")) (cons (str (codes "array")) (cons (str (codes "null")) nil)))))

abbrev pub json_schema_any : Value
json_schema_any = obj (field (codes "type") (arr any_types) end)

unfoldable pub is_empty_object : Value → Bool
is_empty_object (obj end) = true
is_empty_object _ = false

-- value == nil || isEmptyObject(value)
unfoldable pub is_void : Value → Bool
is_void null = true
is_void (obj end) = true
is_void _ = false

-- What stands for the recursive call of sanitizeJSONSchema.
abbrev pub Sanitizer : Type 0
Sanitizer = Fields → Fields × Bool

-- The value of a field after a function has seen it, where `none` stands for `delete`.
abbrev pub Seen : Type 0
Seen = Option Value × Bool

-- `if child, ok := value.(map[string]any); ok { … }`
unfoldable pub sanitize_object : Sanitizer → Value → Value × Bool
sanitize_object rec (obj fs) = let (fs', changed) = rec fs in (obj fs', changed)
sanitize_object rec v = (v, false)

-- The body of the loops over properties, slices and maps.
unfoldable pub sanitize_element : Sanitizer → Value → Value × Bool
sanitize_element rec v = if is_void v then (json_schema_any, true) else sanitize_object rec v

unfoldable pub sanitize_schema_slice : Sanitizer → Items → Items × Bool
sanitize_schema_slice rec nil = (nil, false)
sanitize_schema_slice rec (cons v vs) =
    let (v', changed) = sanitize_element rec v in
    let (vs', more) = sanitize_schema_slice rec vs in (cons v' vs', changed || more)

-- The loop over a map of schemas.
unfoldable pub sanitize_map : Sanitizer → Fields → Fields × Bool
sanitize_map rec end = (end, false)
sanitize_map rec (field k v fs) =
    let (v', changed) = sanitize_element rec v in
    let (fs', more) = sanitize_map rec fs in (field k v' fs', changed || more)

-- The functions sanitizeProperties, sanitizeAdditionalProperties, sanitizeSchemaKeyword,
-- sanitizeSchemaSliceKeyword and sanitizeSchemaMapKeyword, at a value that is there.
pub data Kind : Type 0 where
  properties additional_properties keyword slice_keyword map_keyword : Kind

unfoldable pub sanitize_properties : Sanitizer → Value → Seen
sanitize_properties rec null = (none, true)
sanitize_properties rec (obj end) = (none, true)
sanitize_properties rec (obj fs) =
    let (fs', changed) = sanitize_map rec fs in (some (obj fs'), changed)
sanitize_properties rec v = (some v, false)

unfoldable pub sanitize_additional_properties : Sanitizer → Value → Seen
sanitize_additional_properties rec v =
    if is_void v
    then (some (bool true), true)
    else let (v', changed) = sanitize_object rec v in (some v', changed)

-- The two type switches of sanitizeSchemaKeyword.
unfoldable pub sanitize_object_or_slice : Sanitizer → Value → Value × Bool
sanitize_object_or_slice rec (obj fs) = sanitize_object rec (obj fs)
sanitize_object_or_slice rec (arr vs) =
    let (vs', changed) = sanitize_schema_slice rec vs in (arr vs', changed)
sanitize_object_or_slice rec v = (v, false)

unfoldable pub sanitize_schema_keyword : Sanitizer → Value → Seen
sanitize_schema_keyword rec v =
    if is_void v
    then (some json_schema_any, true)
    else let (v', changed) = sanitize_object_or_slice rec v in (some v', changed)

unfoldable pub sanitize_schema_slice_keyword : Sanitizer → Value → Seen
sanitize_schema_slice_keyword rec (arr vs) =
    let (vs', changed) = sanitize_schema_slice rec vs in (some (arr vs'), changed)
sanitize_schema_slice_keyword rec v = (some v, false)

unfoldable pub sanitize_schema_map_keyword : Sanitizer → Value → Seen
sanitize_schema_map_keyword rec (obj fs) =
    let (fs', changed) = sanitize_map rec fs in (some (obj fs'), changed)
sanitize_schema_map_keyword rec v = (some v, false)

unfoldable pub see : Kind → Sanitizer → Value → Seen
see properties rec v = sanitize_properties rec v
see additional_properties rec v = sanitize_additional_properties rec v
see keyword rec v = sanitize_schema_keyword rec v
see slice_keyword rec v = sanitize_schema_slice_keyword rec v
see map_keyword rec v = sanitize_schema_map_keyword rec v

-- `value, exists := schema[key]`, and writing it back: the field of the key is seen, if it is there.
unfoldable pub keep_field : Text → Seen → Fields × Bool → Fields × Bool
keep_field k (none, changed) (fs, more) = (fs, changed || more)
keep_field k (some v, changed) (fs, more) = (field k v fs, changed || more)

unfoldable pub at_key : Text → (Value → Seen) → Fields → Fields × Bool
at_key key f end = (end, false)
at_key key f (field k v fs) =
    keep_field k (if text_eq k key then f v else (some v, false)) (at_key key f fs)

-- The calls in sanitizeJSONSchema, in order.
abbrev pub schema_keys : List (Text × Kind)
schema_keys =
    (codes "properties", properties)
    ∷ (codes "additionalProperties", additional_properties)
    ∷ (codes "items", keyword)
    ∷ (codes "not", keyword)
    ∷ (codes "anyOf", slice_keyword)
    ∷ (codes "oneOf", slice_keyword)
    ∷ (codes "allOf", slice_keyword)
    ∷ (codes "prefixItems", slice_keyword)
    ∷ (codes "$defs", map_keyword)
    ∷ (codes "definitions", map_keyword)
    ∷ (codes "patternProperties", map_keyword)
    ∷ []

unfoldable pub call_each : Sanitizer → List (Text × Kind) → Fields → Fields × Bool
call_each rec [] fs = (fs, false)
call_each rec ((key, kind) ∷ keys) fs =
    let (fs', changed) = at_key key (see kind rec) fs in
    let (fs'', more) = call_each rec keys fs' in (fs'', changed || more)

-- The nesting that is left is fuel; without fuel nothing is done.
unfoldable pub sanitize_json_schema : ℕ → Fields → Fields × Bool
sanitize_json_schema zero fs = (fs, false)
sanitize_json_schema (suc n) fs = call_each (sanitize_json_schema n) schema_keys fs

-- The value `inputSchema` of a tool.
unfoldable pub sanitize_input_schema : ℕ → Value → Seen
sanitize_input_schema n v =
    if is_void v
    then (some (obj (field (codes "type") (str (codes "object")) end)), true)
    else let (v', changed) = sanitize_object (sanitize_json_schema n) v in (some v', changed)

unfoldable pub sanitize_tool_input_schema : ℕ → Fields → Fields × Bool
sanitize_tool_input_schema n = at_key (codes "inputSchema") (sanitize_input_schema n)

-- The loop over the tools. A null is decoded into a nil map, which has no inputSchema, and is written
-- as null again; an element that is no object fails json.Unmarshal.
unfoldable pub sanitize_tools : ℕ → Items → Option (Items × Bool)
sanitize_tools n nil = some (nil, false)
sanitize_tools n (cons null vs) = elim (sanitize_tools n vs) [
  | none ↦ none
  | some (vs', more) ↦ some (cons null vs', more)
]
sanitize_tools n (cons (obj tool) vs) = elim (sanitize_tools n vs) [
  | none ↦ none
  | some (vs', more) ↦
      let (tool', changed) = sanitize_tool_input_schema n tool in
      some (cons (obj tool') vs', changed || more)
]
sanitize_tools n (cons _ vs) = none

-- `tools`, `result` and `root`; any other shape, and a list in which nothing changes, is left alone.
unfoldable pub sanitize_tools_value : ℕ → Value → Seen
sanitize_tools_value n (arr vs) = elim (sanitize_tools n vs) [
  | none ↦ (some (arr vs), false)
  | some (vs', changed) ↦ (some (arr vs'), changed)
]
sanitize_tools_value n v = (some v, false)

unfoldable pub sanitize_result : ℕ → Value → Seen
sanitize_result n (obj fs) =
    let (fs', changed) = at_key (codes "tools") (sanitize_tools_value n) fs in
    (some (obj fs'), changed)
sanitize_result n v = (some v, false)

-- SanitizeToolsListJSON: the body and whether it changed.
unfoldable pub sanitize_tools_list_json : ℕ → Value → Value × Bool
sanitize_tools_list_json n (obj fs) =
    let (fs', changed) = at_key (codes "result") (sanitize_result n) fs in (obj fs', changed)
sanitize_tools_list_json n v = (v, false)
