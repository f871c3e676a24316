-- ===== src/Mcp/Schema/Cleaned.antt =====
-- internal/mcp/toolschema/sanitize.go: the value of each keyword is clean after its function.
use orbitproxy_go.Prelude.{ℕ, ◌≤◌, Option, none, some, arith}
use orbitproxy_go.Mcp.Schema.{
  Value, null, bool, num, str, arr, obj, Fields, end, field, is_void, Sanitizer, sanitize_object,
  sanitize_map, Kind, properties, additional_properties, keyword, slice_keyword, map_keyword,
  sanitize_properties, sanitize_additional_properties, sanitize_object_or_slice,
  sanitize_schema_keyword, sanitize_schema_slice_keyword, sanitize_schema_map_keyword, see,
}
use orbitproxy_go.Mcp.Schema.Clean.{
  depth, GoodNode, GoodElements, GoodValues, GoodProperties, GoodValue, Recursion,
  sanitize_schema_slice-GoodItems, sanitize_map-GoodEntries,
}

-- A predicate on the value, if there is one.
abbrev pub OnSome {ℓ κ} : {A : Type ℓ} → (A → Type κ) → Option A → Type κ
OnSome Q none = Unit
OnSome Q (some a) = Q a

module _ (P : Fields → Type 0) (rec : Sanitizer) (d : ℕ) (r : Recursion P rec d) where
  sanitize_properties-GoodProperties :
      (v : Value) → depth v ≤ d → OnSome (GoodProperties P) (sanitize_properties rec v).0
  unfolding sanitize_properties sanitize_map depth
  sanitize_properties-GoodProperties null le = tt
  sanitize_properties-GoodProperties (obj end) le = tt
  sanitize_properties-GoodProperties (obj (field k v fs)) le =
      sanitize_map-GoodEntries P rec d r (field k v fs) (omega (arith, le))
  sanitize_properties-GoodProperties (arr vs) le = tt
  sanitize_properties-GoodProperties (bool b) le = tt
  sanitize_properties-GoodProperties (num n) le = tt
  sanitize_properties-GoodProperties (str s) le = tt

  sanitize_additional_properties-GoodNode :
      (v : Value) → depth v ≤ d → OnSome (GoodNode P) (sanitize_additional_properties rec v).0
  unfolding sanitize_additional_properties sanitize_object is_void depth
  sanitize_additional_properties-GoodNode null le = tt
  sanitize_additional_properties-GoodNode (obj end) le = tt
  sanitize_additional_properties-GoodNode (obj (field k v fs)) le =
      r.inner (field k v fs) (omega (arith, le))
  sanitize_additional_properties-GoodNode (arr vs) le = tt
  sanitize_additional_properties-GoodNode (bool b) le = tt
  sanitize_additional_properties-GoodNode (num n) le = tt
  sanitize_additional_properties-GoodNode (str s) le = tt

  sanitize_schema_keyword-GoodValue :
      (v : Value) → depth v ≤ d → OnSome (GoodValue P keyword) (sanitize_schema_keyword rec v).0
  unfolding sanitize_schema_keyword sanitize_object_or_slice sanitize_object is_void depth
  sanitize_schema_keyword-GoodValue null le = (r.any, tt)
  sanitize_schema_keyword-GoodValue (obj end) le = (r.any, tt)
  sanitize_schema_keyword-GoodValue (obj (field k v fs)) le =
      (r.inner (field k v fs) (omega (arith, le)), tt)
  sanitize_schema_keyword-GoodValue (arr vs) le =
      (tt, sanitize_schema_slice-GoodItems P rec d r vs le)
  sanitize_schema_keyword-GoodValue (bool b) le = (tt, tt)
  sanitize_schema_keyword-GoodValue (num n) le = (tt, tt)
  sanitize_schema_keyword-GoodValue (str s) le = (tt, tt)

  sanitize_schema_slice_keyword-GoodElements :
      (v : Value) → depth v ≤ d → OnSome (GoodElements P) (sanitize_schema_slice_keyword rec v).0
  unfolding sanitize_schema_slice_keyword depth
  sanitize_schema_slice_keyword-GoodElements (arr vs) le =
      sanitize_schema_slice-GoodItems P rec d r vs le
  sanitize_schema_slice_keyword-GoodElements null le = tt
  sanitize_schema_slice_keyword-GoodElements (obj fs) le = tt
  sanitize_schema_slice_keyword-GoodElements (bool b) le = tt
  sanitize_schema_slice_keyword-GoodElements (num n) le = tt
  sanitize_schema_slice_keyword-GoodElements (str s) le = tt

  sanitize_schema_map_keyword-GoodValues :
      (v : Value) → depth v ≤ d → OnSome (GoodValues P) (sanitize_schema_map_keyword rec v).0
  unfolding sanitize_schema_map_keyword depth
  sanitize_schema_map_keyword-GoodValues (obj fs) le =
      sanitize_map-GoodEntries P rec d r fs (omega (arith, le))
  sanitize_schema_map_keyword-GoodValues null le = tt
  sanitize_schema_map_keyword-GoodValues (arr vs) le = tt
  sanitize_schema_map_keyword-GoodValues (bool b) le = tt
  sanitize_schema_map_keyword-GoodValues (num n) le = tt
  sanitize_schema_map_keyword-GoodValues (str s) le = tt

  pub see-GoodValue :
      (kind : Kind) (v : Value) → depth v ≤ d → OnSome (GoodValue P kind) (see kind rec v).0
  unfolding see
  see-GoodValue properties v le = sanitize_properties-GoodProperties v le
  see-GoodValue additional_properties v le = sanitize_additional_properties-GoodNode v le
  see-GoodValue keyword v le = sanitize_schema_keyword-GoodValue v le
  see-GoodValue slice_keyword v le = sanitize_schema_slice_keyword-GoodElements v le
  see-GoodValue map_keyword v le = sanitize_schema_map_keyword-GoodValues v le
