-- ===== src/Mcp/Schema/Enough.antt =====
-- internal/mcp/toolschema/sanitize.go: the recursion of sanitizeJSONSchema ends by itself.
use orbitproxy_go.Prelude.{
  ℕ, zero, suc, ◌≤◌, ◌<◌, ◌≡◌, refl, sym, ap, ◌∙◌, inl, inr, true, false, ◌||◌, Text, text_eq, List,
  [], ◌∷◌, none, some, arith, if◌then◌else◌, Bool-cases,
}
use orbitproxy_go.Mcp.Schema.{
  Value, null, bool, num, str, arr, obj, Items, nil, cons, Fields, end, field, json_schema_any,
  is_void, Sanitizer, Seen, sanitize_object, sanitize_element, sanitize_schema_slice, sanitize_map,
  Kind, properties, additional_properties, keyword, slice_keyword, map_keyword, sanitize_properties,
  sanitize_additional_properties, sanitize_object_or_slice, sanitize_schema_keyword,
  sanitize_schema_slice_keyword, sanitize_schema_map_keyword, see, schema_keys,
  sanitize_json_schema,
}
use orbitproxy_go.Mcp.Schema.Each.{map_fields, then_see, see_all, call_each-map_fields}
use orbitproxy_go.Mcp.Schema.Clean.{depth, depth_items, depth_fields}
use orbitproxy_go.Mcp.Schema.Sanitized.{
  IsFresh, AreDistinct, see_all-IsFresh, IsFresh-same, schema_keys-AreDistinct,
}

-- Two recursive calls that agree on the objects inside values of a depth up to `d`.
module _ (rec rec' : Sanitizer) (d : ℕ)
    (agree : (fs : Fields) → depth_fields fs < d → rec fs ≡ rec' fs) where
  sanitize_object-agree : (v : Value) → depth v ≤ d → sanitize_object rec v ≡ sanitize_object rec' v
  unfolding sanitize_object depth
  sanitize_object-agree (obj fs) le = ap (λ r. (obj r.0, r.1)) (agree fs (omega (arith, le)))
  sanitize_object-agree null le = refl
  sanitize_object-agree (arr vs) le = refl
  sanitize_object-agree (bool b) le = refl
  sanitize_object-agree (num n) le = refl
  sanitize_object-agree (str s) le = refl

  sanitize_element-agree :
      (v : Value) → depth v ≤ d → sanitize_element rec v ≡ sanitize_element rec' v
  unfolding sanitize_element
  sanitize_element-agree v le =
      ap (λ r. if is_void v then (json_schema_any, true) else r) (sanitize_object-agree v le)

  sanitize_schema_slice-agree :
      (vs : Items)
      → depth_items vs ≤ d
      → sanitize_schema_slice rec vs ≡ sanitize_schema_slice rec' vs
  unfolding sanitize_schema_slice depth
  sanitize_schema_slice-agree nil le = refl
  sanitize_schema_slice-agree (cons v vs) le = cc (
    sanitize_element-agree v (omega (arith, le)),
    sanitize_schema_slice-agree vs (omega (arith, le)),
  )

  sanitize_map-agree :
      (fs : Fields) → depth_fields fs ≤ d → sanitize_map rec fs ≡ sanitize_map rec' fs
  unfolding sanitize_map depth
  sanitize_map-agree end le = refl
  sanitize_map-agree (field k v fs) le =
      cc (sanitize_element-agree v (omega (arith, le)), sanitize_map-agree fs (omega (arith, le)))

  sanitize_properties-agree :
      (v : Value) → depth v ≤ d → sanitize_properties rec v ≡ sanitize_properties rec' v
  unfolding sanitize_properties depth
  sanitize_properties-agree (obj (field k v fs)) le =
      ap (λ r. (some (obj r.0), r.1)) (sanitize_map-agree (field k v fs) (omega (arith, le)))
  sanitize_properties-agree (obj end) le = refl
  sanitize_properties-agree null le = refl
  sanitize_properties-agree (arr vs) le = refl
  sanitize_properties-agree (bool b) le = refl
  sanitize_properties-agree (num n) le = refl
  sanitize_properties-agree (str s) le = refl

  sanitize_object_or_slice-agree :
      (v : Value) → depth v ≤ d → sanitize_object_or_slice rec v ≡ sanitize_object_or_slice rec' v
  unfolding sanitize_object_or_slice depth
  sanitize_object_or_slice-agree (obj fs) le = sanitize_object-agree (obj fs) le
  sanitize_object_or_slice-agree (arr vs) le =
      ap (λ r. (arr r.0, r.1)) (sanitize_schema_slice-agree vs le)
  sanitize_object_or_slice-agree null le = refl
  sanitize_object_or_slice-agree (bool b) le = refl
  sanitize_object_or_slice-agree (num n) le = refl
  sanitize_object_or_slice-agree (str s) le = refl

  see-agree : (kind : Kind) (v : Value) → depth v ≤ d → see kind rec v ≡ see kind rec' v
  unfolding see sanitize_additional_properties sanitize_schema_keyword sanitize_schema_slice_keyword
      sanitize_schema_map_keyword depth
  see-agree properties v le = sanitize_properties-agree v le
  see-agree additional_properties v le =
      ap (λ r. if is_void v then (some (bool true), true) else (some r.0, r.1))
        (sanitize_object-agree v le)
  see-agree keyword v le =
      ap (λ r. if is_void v then (some json_schema_any, true) else (some r.0, r.1))
        (sanitize_object_or_slice-agree v le)
  see-agree slice_keyword (arr vs) le =
      ap (λ r. (some (arr r.0), r.1)) (sanitize_schema_slice-agree vs le)
  see-agree slice_keyword null le = refl
  see-agree slice_keyword (obj fs) le = refl
  see-agree slice_keyword (bool b) le = refl
  see-agree slice_keyword (num n) le = refl
  see-agree slice_keyword (str s) le = refl
  see-agree map_keyword (obj fs) le =
      ap (λ r. (some (obj r.0), r.1)) (sanitize_map-agree fs (omega (arith, le)))
  see-agree map_keyword null le = refl
  see-agree map_keyword (arr vs) le = refl
  see-agree map_keyword (bool b) le = refl
  see-agree map_keyword (num n) le = refl
  see-agree map_keyword (str s) le = refl

  then_see-agree :
      (keys : List (Text × Kind)) (k : Text) (s : Seen)
      → IsFresh k keys
      → then_see s (see_all rec keys k) ≡ then_see s (see_all rec' keys k)
  then_see-agree keys k (none, c) fresh = refl
  then_see-agree keys k (some v, c) fresh =
      ap (λ r. (r.0, c || r.1))
        (see_all-IsFresh rec keys k v fresh ∙ sym (see_all-IsFresh rec' keys k v fresh))

  see_all-agree :
      (keys : List (Text × Kind)) (k : Text) (v : Value)
      → AreDistinct keys
      → depth v ≤ d
      → see_all rec keys k v ≡ see_all rec' keys k v
  unfolding see_all
  see_all-agree [] k v distinct le = refl
  see_all-agree ((key, kind) ∷ keys) k v distinct le = elim (Bool-cases (text_eq k key)) [
    | inl same ↦ rw same (
        ap (λ s. then_see s (see_all rec keys k)) (see-agree kind v le)
        ∙ then_see-agree keys k (see kind rec' v) (IsFresh-same k key keys same distinct.0))
    | inr other ↦ rw other (ap (λ r. (r.0, false || r.1)) (see_all-agree keys k v distinct.1 le))
  ]

  map_fields-agree :
      (fs : Fields)
      → depth_fields fs ≤ d
      → map_fields (see_all rec schema_keys) fs ≡ map_fields (see_all rec' schema_keys) fs
  unfolding map_fields depth
  map_fields-agree end le = refl
  map_fields-agree (field k v fs) le = cc (
    see_all-agree schema_keys k v schema_keys-AreDistinct (omega (arith, le)),
    map_fields-agree fs (omega (arith, le)),
  )

-- All amounts of fuel above the number of objects inside each other give the same result: the
-- recursion ends by itself, and what happens without fuel is never reached.
pub sanitize_json_schema_enough :
    (n m : ℕ) (fs : Fields)
    → depth_fields fs < n
    → depth_fields fs < m
    → sanitize_json_schema n fs ≡ sanitize_json_schema m fs
unfolding sanitize_json_schema
sanitize_json_schema_enough zero m fs a b = absurd (omega (arith, a))
sanitize_json_schema_enough (suc n) zero fs a b = absurd (omega (arith, b))
sanitize_json_schema_enough (suc n) (suc m) fs a b =
    call_each-map_fields (sanitize_json_schema n) schema_keys fs
    ∙ map_fields-agree (sanitize_json_schema n) (sanitize_json_schema m) (depth_fields fs)
        (λ cs le. sanitize_json_schema_enough n m cs (omega (arith, a, le)) (omega (arith, b, le)))
        fs (omega arith)
    ∙ sym (call_each-map_fields (sanitize_json_schema m) schema_keys fs)
