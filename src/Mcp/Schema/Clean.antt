-- ===== src/Mcp/Schema/Clean.antt =====
-- internal/mcp/toolschema/sanitize.go: no schema of the result is null, at any depth.
use Prim.Native.Nat.{max}
use orbitproxy_go.Prelude.{ℕ, zero, suc, ◌≤◌, ◌<◌, ◌≡◌, true, Text, text_eq, List, [], ◌∷◌, arith}
use orbitproxy_go.Mcp.Schema.{
  Value, null, bool, num, str, arr, obj, Items, nil, cons, Fields, end, field, json_schema_any,
  is_void, Sanitizer, sanitize_object, sanitize_element, sanitize_schema_slice, sanitize_map, Kind,
  properties, additional_properties, keyword, slice_keyword, map_keyword, schema_keys,
}

-- How many objects stand inside each other.
unfoldable mutual
  pub depth : Value → ℕ
  depth (arr vs) = depth_items vs
  depth (obj fs) = suc (depth_fields fs)
  depth _ = 0

  pub depth_items : Items → ℕ
  depth_items nil = 0
  depth_items (cons v vs) = max (depth v) (depth_items vs)

  pub depth_fields : Fields → ℕ
  depth_fields end = 0
  depth_fields (field k v fs) = max (depth v) (depth_fields fs)

-- A value in the place of a schema: it is not null, and an object's fields satisfy `P`.
abbrev pub GoodNode : (Fields → Type 0) → Value → Type 0
GoodNode P null = ⊥
GoodNode P (obj fs) = P fs
GoodNode P (arr vs) = Unit
GoodNode P (bool b) = Unit
GoodNode P (num n) = Unit
GoodNode P (str s) = Unit

abbrev pub GoodItems : (Fields → Type 0) → Items → Type 0
GoodItems P nil = Unit
GoodItems P (cons v vs) = GoodNode P v × GoodItems P vs

abbrev pub GoodEntries : (Fields → Type 0) → Fields → Type 0
GoodEntries P end = Unit
GoodEntries P (field k v fs) = GoodNode P v × GoodEntries P fs

-- The value of a keyword, by the keyword's kind.
abbrev pub GoodProperties : (Fields → Type 0) → Value → Type 0
GoodProperties P null = ⊥
GoodProperties P (obj end) = ⊥
GoodProperties P (obj (field k v fs)) = GoodEntries P (field k v fs)
GoodProperties P (arr vs) = Unit
GoodProperties P (bool b) = Unit
GoodProperties P (num n) = Unit
GoodProperties P (str s) = Unit

abbrev pub GoodElements : (Fields → Type 0) → Value → Type 0
GoodElements P (arr vs) = GoodItems P vs
GoodElements P null = Unit
GoodElements P (obj fs) = Unit
GoodElements P (bool b) = Unit
GoodElements P (num n) = Unit
GoodElements P (str s) = Unit

abbrev pub GoodValues : (Fields → Type 0) → Value → Type 0
GoodValues P (obj fs) = GoodEntries P fs
GoodValues P null = Unit
GoodValues P (arr vs) = Unit
GoodValues P (bool b) = Unit
GoodValues P (num n) = Unit
GoodValues P (str s) = Unit

abbrev pub GoodValue : (Fields → Type 0) → Kind → Value → Type 0
GoodValue P properties v = GoodProperties P v
GoodValue P additional_properties v = GoodNode P v
GoodValue P keyword v = GoodNode P v × GoodElements P v
GoodValue P slice_keyword v = GoodElements P v
GoodValue P map_keyword v = GoodValues P v

abbrev pub GoodField : (Fields → Type 0) → List (Text × Kind) → Text → Value → Type 0
GoodField P [] k v = Unit
GoodField P ((key, kind) ∷ keys) k v =
    (text_eq k key ≡ true → GoodValue P kind v) × GoodField P keys k v

abbrev pub GoodFields : (Fields → Type 0) → Fields → Type 0
GoodFields P end = Unit
GoodFields P (field k v fs) = GoodField P schema_keys k v × GoodFields P fs

-- To a depth of `m` objects, whatever stands in the place of a schema is not null.
abbrev pub IsClean : ℕ → Fields → Type 0
IsClean zero fs = Unit
IsClean (suc m) fs = GoodFields (IsClean m) fs

-- What the recursive call gives for objects of a smaller depth, and for the schema of anything.
pub record Recursion (P : Fields → Type 0) (rec : Sanitizer) (d : ℕ) : Type 0 where
  pub inner : (fs : Fields) → depth_fields fs < d → P (rec fs).0
  pub any : GoodNode P json_schema_any

module _ (P : Fields → Type 0) (rec : Sanitizer) (d : ℕ) (r : Recursion P rec d) where
  pub sanitize_element-GoodNode : (v : Value) → depth v ≤ d → GoodNode P (sanitize_element rec v).0
  unfolding sanitize_element sanitize_object is_void depth
  sanitize_element-GoodNode null le = r.any
  sanitize_element-GoodNode (obj end) le = r.any
  sanitize_element-GoodNode (obj (field k v fs)) le = r.inner (field k v fs) (omega (arith, le))
  sanitize_element-GoodNode (arr vs) le = tt
  sanitize_element-GoodNode (bool b) le = tt
  sanitize_element-GoodNode (num n) le = tt
  sanitize_element-GoodNode (str s) le = tt

  pub sanitize_schema_slice-GoodItems :
      (vs : Items) → depth_items vs ≤ d → GoodItems P (sanitize_schema_slice rec vs).0
  unfolding sanitize_schema_slice depth
  sanitize_schema_slice-GoodItems nil le = tt
  sanitize_schema_slice-GoodItems (cons v vs) le = (
    sanitize_element-GoodNode v (omega (arith, le)),
    sanitize_schema_slice-GoodItems vs (omega (arith, le)),
  )

  pub sanitize_map-GoodEntries :
      (fs : Fields) → depth_fields fs ≤ d → GoodEntries P (sanitize_map rec fs).0
  unfolding sanitize_map depth
  sanitize_map-GoodEntries end le = tt
  sanitize_map-GoodEntries (field k v fs) le = (
    sanitize_element-GoodNode v (omega (arith, le)),
    sanitize_map-GoodEntries fs (omega (arith, le)),
  )
