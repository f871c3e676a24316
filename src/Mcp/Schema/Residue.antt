-- ===== src/Mcp/Schema/Residue.antt =====
-- internal/mcp/toolschema/sanitize.go: deleting `properties` can leave the empty object that the
-- package exists to replace.
use orbitproxy_go.Prelude.{ℕ, suc, ◌≡◌, refl, true, Text, text_eq, codes}
use orbitproxy_go.Mcp.Schema.{
  Value, null, bool, num, str, arr, obj, Fields, end, field, json_schema_any, is_void,
  sanitize_object, sanitize_element, sanitize_map, sanitize_properties, see, keep_field, at_key,
  call_each, sanitize_json_schema,
}

-- A schema that has nothing but the field `properties`.
abbrev pub only_properties : Value → Fields
only_properties v = field (codes "properties") v end

-- An object with one property, named `k`.
abbrev pub one_property : Text → Value → Fields
one_property k v = only_properties (obj (field k v end))

-- A property whose schema has nothing but a `properties` that is null or empty is left with an empty
-- object as its schema, and the run says that it has cleaned; a second run replaces that object, so a
-- run is not idempotent and one run does not give the form that the package asks for.
pub sanitize_json_schema_residue :
    (n : ℕ) (k : Text) (v : Value)
    → is_void v ≡ true
    → (sanitize_json_schema (suc (suc n)) (one_property k (obj (only_properties v)))
        ≡ (one_property k (obj end), true))
      × (sanitize_json_schema (suc (suc n)) (one_property k (obj end))
          ≡ (one_property k json_schema_any, true))
unfolding sanitize_json_schema call_each at_key see keep_field text_eq sanitize_properties
    sanitize_map sanitize_element sanitize_object is_void
sanitize_json_schema_residue n k null h = (refl, refl)
sanitize_json_schema_residue n k (obj end) h = (refl, refl)
sanitize_json_schema_residue n k (obj (field j v fs)) h = absurd (cc h)
sanitize_json_schema_residue n k (arr vs) h = absurd (cc h)
sanitize_json_schema_residue n k (bool b) h = absurd (cc h)
sanitize_json_schema_residue n k (num x) h = absurd (cc h)
sanitize_json_schema_residue n k (str s) h = absurd (cc h)
