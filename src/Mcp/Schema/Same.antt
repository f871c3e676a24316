-- ===== src/Mcp/Schema/Same.antt =====
-- internal/mcp/toolschema/sanitize.go: the result `false` says that nothing was changed.
use orbitproxy_go.Prelude.{
  ℕ, zero, suc, ◌≡◌, refl, ap, ◌∙◌, inl, inr, Bool, true, false, ◌||◌, Text, text_eq, codes, List,
  [], ◌∷◌, none, some, arith, if◌then◌else◌, Option-cases,
}
use orbitproxy_go.Mcp.Schema.{
  Value, null, bool, num, str, arr, obj, Items, nil, cons, Fields, end, field, Sanitizer, Seen,
  sanitize_object, sanitize_element, sanitize_schema_slice, sanitize_map, Kind, properties,
  additional_properties, keyword, slice_keyword, map_keyword, sanitize_properties,
  sanitize_additional_properties, sanitize_object_or_slice, sanitize_schema_keyword,
  sanitize_schema_slice_keyword, sanitize_schema_map_keyword, see, keep_field, at_key, schema_keys,
  call_each, sanitize_json_schema, sanitize_input_schema, sanitize_tool_input_schema,
  sanitize_tools, sanitize_tools_value, sanitize_result, sanitize_tools_list_json,
}

-- A result that reports no change is the argument.
abbrev Same {ℓ} : {A : Type ℓ} → A → A × Bool → Type ℓ
Same a r = r.1 ≡ false → r.0 ≡ a

abbrev SameSeen : Value → Seen → Type 0
SameSeen v s = s.1 ≡ false → s.0 ≡ some v

or_false : (a b : Bool) → (a || b) ≡ false → (a ≡ false) × (b ≡ false)
or_false true b h = absurd (cc h)
or_false false b h = (refl, h)

keep_field-Same :
    (k : Text) (v : Value) (fs : Fields) (s : Seen) (r : Fields × Bool)
    → SameSeen v s
    → Same fs r
    → Same (field k v fs) (keep_field k s r)
unfolding keep_field
keep_field-Same k v fs (none, c) (gs, m) seen rest h = absurd (cc (seen (or_false c m h).0))
keep_field-Same k v fs (some w, c) (gs, m) seen rest h =
    let (first, more) = or_false c m h in cc (seen first, rest more)

see_or_keep-Same :
    (b : Bool) (v : Value) (s : Seen) → SameSeen v s → SameSeen v (if b then s else (some v, false))
see_or_keep-Same true v s h = h
see_or_keep-Same false v s h = λ e. refl

at_key-Same :
    (key : Text) (f : Value → Seen)
    → ((v : Value) → SameSeen v (f v))
    → (fs : Fields) → Same fs (at_key key f fs)
unfolding at_key
at_key-Same key f same end = λ h. refl
at_key-Same key f same (field k v fs) =
    keep_field-Same k v fs (if text_eq k key then f v else (some v, false)) (at_key key f fs)
      (see_or_keep-Same (text_eq k key) v (f v) (same v)) (at_key-Same key f same fs)

module _ (rec : Sanitizer) (same : (fs : Fields) → Same fs (rec fs)) where
  sanitize_object-Same : (v : Value) → Same v (sanitize_object rec v)
  unfolding sanitize_object
  sanitize_object-Same (obj fs) = λ h. ap obj (same fs h)
  sanitize_object-Same null = λ h. refl
  sanitize_object-Same (arr vs) = λ h. refl
  sanitize_object-Same (bool b) = λ h. refl
  sanitize_object-Same (num n) = λ h. refl
  sanitize_object-Same (str s) = λ h. refl

  sanitize_element-Same : (v : Value) → Same v (sanitize_element rec v)
  unfolding sanitize_element
  sanitize_element-Same v = ground (arith, sanitize_object-Same v)

  sanitize_schema_slice-Same : (vs : Items) → Same vs (sanitize_schema_slice rec vs)
  unfolding sanitize_schema_slice
  sanitize_schema_slice-Same nil = λ h. refl
  sanitize_schema_slice-Same (cons v vs) = λ h.
      let (first, more) = or_false (sanitize_element rec v).1 (sanitize_schema_slice rec vs).1 h in
      cc (sanitize_element-Same v first, sanitize_schema_slice-Same vs more)

  sanitize_map-Same : (fs : Fields) → Same fs (sanitize_map rec fs)
  unfolding sanitize_map
  sanitize_map-Same end = λ h. refl
  sanitize_map-Same (field k v fs) = λ h.
      let (first, more) = or_false (sanitize_element rec v).1 (sanitize_map rec fs).1 h in
      cc (sanitize_element-Same v first, sanitize_map-Same fs more)

  sanitize_object_or_slice-Same : (v : Value) → Same v (sanitize_object_or_slice rec v)
  unfolding sanitize_object_or_slice
  sanitize_object_or_slice-Same (obj fs) = sanitize_object-Same (obj fs)
  sanitize_object_or_slice-Same (arr vs) = λ h. ap arr (sanitize_schema_slice-Same vs h)
  sanitize_object_or_slice-Same null = λ h. refl
  sanitize_object_or_slice-Same (bool b) = λ h. refl
  sanitize_object_or_slice-Same (num n) = λ h. refl
  sanitize_object_or_slice-Same (str s) = λ h. refl

  see_properties-Same : (v : Value) → SameSeen v (sanitize_properties rec v)
  unfolding sanitize_properties
  see_properties-Same null = λ h. absurd (cc h)
  see_properties-Same (obj end) = λ h. absurd (cc h)
  see_properties-Same (obj (field k v fs)) =
      λ h. ap (λ x. some (obj x)) (sanitize_map-Same (field k v fs) h)
  see_properties-Same (arr vs) = λ h. refl
  see_properties-Same (bool b) = λ h. refl
  see_properties-Same (num n) = λ h. refl
  see_properties-Same (str s) = λ h. refl

  see_slice-Same : (v : Value) → SameSeen v (sanitize_schema_slice_keyword rec v)
  unfolding sanitize_schema_slice_keyword
  see_slice-Same (arr vs) = λ h. ap (λ x. some (arr x)) (sanitize_schema_slice-Same vs h)
  see_slice-Same null = λ h. refl
  see_slice-Same (obj fs) = λ h. refl
  see_slice-Same (bool b) = λ h. refl
  see_slice-Same (num n) = λ h. refl
  see_slice-Same (str s) = λ h. refl

  see_map-Same : (v : Value) → SameSeen v (sanitize_schema_map_keyword rec v)
  unfolding sanitize_schema_map_keyword
  see_map-Same (obj fs) = λ h. ap (λ x. some (obj x)) (sanitize_map-Same fs h)
  see_map-Same null = λ h. refl
  see_map-Same (arr vs) = λ h. refl
  see_map-Same (bool b) = λ h. refl
  see_map-Same (num n) = λ h. refl
  see_map-Same (str s) = λ h. refl

  see-Same : (kind : Kind) (v : Value) → SameSeen v (see kind rec v)
  unfolding see sanitize_additional_properties sanitize_schema_keyword
  see-Same properties v = see_properties-Same v
  see-Same additional_properties v = ground (arith, sanitize_object-Same v)
  see-Same keyword v = ground (arith, sanitize_object_or_slice-Same v)
  see-Same slice_keyword v = see_slice-Same v
  see-Same map_keyword v = see_map-Same v

  call_each-Same : (keys : List (Text × Kind)) (fs : Fields) → Same fs (call_each rec keys fs)
  unfolding call_each
  call_each-Same [] fs = λ h. refl
  call_each-Same ((key, kind) ∷ keys) fs = λ h.
      let gs : Fields × Bool = at_key key (see kind rec) fs in
      let (first, more) = or_false gs.1 (call_each rec keys gs.0).1 h in
      call_each-Same keys gs.0 more ∙ at_key-Same key (see kind rec) (see-Same kind) fs first

sanitize_json_schema-Same : (n : ℕ) (fs : Fields) → Same fs (sanitize_json_schema n fs)
unfolding sanitize_json_schema
sanitize_json_schema-Same zero fs = λ h. refl
sanitize_json_schema-Same (suc n) fs =
    call_each-Same (sanitize_json_schema n) (sanitize_json_schema-Same n) schema_keys fs

sanitize_input_schema-Same : (n : ℕ) (v : Value) → SameSeen v (sanitize_input_schema n v)
unfolding sanitize_input_schema
sanitize_input_schema-Same n v =
    ground (arith, sanitize_object-Same (sanitize_json_schema n) (sanitize_json_schema-Same n) v)

sanitize_tools-Same :
    (n : ℕ) (vs : Items) {r : Items × Bool} → sanitize_tools n vs ≡ some r → Same vs r
unfolding sanitize_tools sanitize_tool_input_schema
sanitize_tools-Same n nil h = λ c. cc h
sanitize_tools-Same n (cons null vs) h = elim (Option-cases (sanitize_tools n vs)) [
  | inl bad ↦ absurd (ground (arith, bad))
  | inr ((ws, more), e) ↦ λ c. ground (arith, e, sanitize_tools-Same n vs e)
]
sanitize_tools-Same n (cons (obj tool) vs) {r} h = elim (Option-cases (sanitize_tools n vs)) [
  | inl bad ↦ absurd (ground (arith, bad))
  | inr ((ws, more), e) ↦ λ c.
      let seen : Fields × Bool = at_key (codes "inputSchema") (sanitize_input_schema n) tool in
      let is_r : (cons (obj seen.0) ws, seen.1 || more) ≡ r = ground (arith, e) in
      let (first, rest) = or_false seen.1 more (ap (λ (x : Items × Bool). x.1) is_r ∙ c) in
      let one : seen.0 ≡ tool =
        at_key-Same (codes "inputSchema") (sanitize_input_schema n) (sanitize_input_schema-Same n)
          tool first in
      let others : ws ≡ vs = sanitize_tools-Same n vs e rest in cc (is_r, one, others)
]
sanitize_tools-Same n (cons (arr ws) vs) h = cc
sanitize_tools-Same n (cons (bool b) vs) h = cc
sanitize_tools-Same n (cons (num x) vs) h = cc
sanitize_tools-Same n (cons (str s) vs) h = cc

sanitize_tools_value-Same : (n : ℕ) (v : Value) → SameSeen v (sanitize_tools_value n v)
unfolding sanitize_tools_value
sanitize_tools_value-Same n (arr vs) = elim (Option-cases (sanitize_tools n vs)) [
  | inl bad ↦ rw (bad, sanitize_tools_value) (λ h. refl)
  | inr ((ws, changed), e) ↦
      rw (e, sanitize_tools_value) (λ h. ap (λ x. some (arr x)) (sanitize_tools-Same n vs e h))
]
sanitize_tools_value-Same n null = λ h. refl
sanitize_tools_value-Same n (obj fs) = λ h. refl
sanitize_tools_value-Same n (bool b) = λ h. refl
sanitize_tools_value-Same n (num x) = λ h. refl
sanitize_tools_value-Same n (str s) = λ h. refl

sanitize_result-Same : (n : ℕ) (v : Value) → SameSeen v (sanitize_result n v)
unfolding sanitize_result
sanitize_result-Same n (obj fs) = λ h.
    ap (λ x. some (obj x))
      (at_key-Same (codes "tools") (sanitize_tools_value n) (sanitize_tools_value-Same n) fs h)
sanitize_result-Same n null = λ h. refl
sanitize_result-Same n (arr vs) = λ h. refl
sanitize_result-Same n (bool b) = λ h. refl
sanitize_result-Same n (num x) = λ h. refl
sanitize_result-Same n (str s) = λ h. refl

-- Whatever the body is and however deep its schemas are, SanitizeToolsListJSON that answers `false`
-- gives the body back as it was; so its callers may keep the text they have.
pub sanitize_tools_list_json-same :
    (n : ℕ) (body : Value)
    → (sanitize_tools_list_json n body).1 ≡ false
    → (sanitize_tools_list_json n body).0 ≡ body
unfolding sanitize_tools_list_json
sanitize_tools_list_json-same n (obj fs) h =
    ap obj (at_key-Same (codes "result") (sanitize_result n) (sanitize_result-Same n) fs h)
sanitize_tools_list_json-same n null h = refl
sanitize_tools_list_json-same n (arr vs) h = refl
sanitize_tools_list_json-same n (bool b) h = refl
sanitize_tools_list_json-same n (num x) h = refl
sanitize_tools_list_json-same n (str s) h = refl
