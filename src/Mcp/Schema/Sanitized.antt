-- ===== src/Mcp/Schema/Sanitized.antt =====
-- internal/mcp/toolschema/sanitize.go: sanitizeJSONSchema leaves no null in the place of a schema.
use orbitproxy_go.Prelude.{
  ℕ, zero, suc, ◌≤◌, ◌<◌, ◌≡◌, refl, sym, ap, subst, inl, inr, Bool, true, false, Text, text_eq,
  text_eq_iff, codes, List, [], ◌∷◌, Option, none, some, arith, if◌then◌else◌, Bool-cases,
}
use orbitproxy_go.Mcp.Schema.{
  Value, str, arr, Fields, end, field, json_schema_any, Sanitizer, Seen, Kind, see, keep_field,
  schema_keys, sanitize_json_schema, any_types,
}
use orbitproxy_go.Mcp.Schema.Each.{map_fields, then_see, see_all, call_each-map_fields}
use orbitproxy_go.Mcp.Schema.Clean.{
  depth, depth_fields, GoodNode, GoodValue, GoodField, GoodFields, IsClean, Recursion,
}
use orbitproxy_go.Mcp.Schema.Cleaned.{OnSome, see-GoodValue}

-- The key is none of the list's.
abbrev pub IsFresh : Text → List (Text × Kind) → Type 0
IsFresh k [] = Unit
IsFresh k ((key, kind) ∷ keys) = (text_eq k key ≡ false) × IsFresh k keys

abbrev pub AreDistinct : List (Text × Kind) → Type 0
AreDistinct [] = Unit
AreDistinct ((key, kind) ∷ keys) = IsFresh key keys × AreDistinct keys

pub see_all-IsFresh :
    (rec : Sanitizer) (keys : List (Text × Kind)) (k : Text) (v : Value)
    → IsFresh k keys
    → see_all rec keys k v ≡ (some v, false)
unfolding see_all
see_all-IsFresh rec [] k v h = refl
see_all-IsFresh rec ((key, kind) ∷ keys) k v h =
    rw h.0 (ap (λ s. then_see (some v, false) (λ w. s)) (see_all-IsFresh rec keys k v h.1))

IsFresh-GoodField :
    (P : Fields → Type 0) (keys : List (Text × Kind)) (k : Text) (v : Value)
    → IsFresh k keys
    → GoodField P keys k v
IsFresh-GoodField P [] k v h = tt
IsFresh-GoodField P ((key, kind) ∷ keys) k v h =
    (λ same. absurd (cc (h.0, same)), IsFresh-GoodField P keys k v h.1)

-- A key that is the first of distinct keys is none of the others.
pub IsFresh-same :
    (k key : Text) (keys : List (Text × Kind))
    → text_eq k key ≡ true
    → IsFresh key keys
    → IsFresh k keys
IsFresh-same k key keys same h = subst (λ x. IsFresh x keys) (sym ((text_eq_iff k key).0 same)) h

then_see-kept :
    (P : Fields → Type 0) (kind : Kind) (key : Text) (keys : List (Text × Kind)) (rec : Sanitizer)
    (k : Text) (s : Seen)
    → IsFresh k keys
    → OnSome (GoodValue P kind) s.0
    → OnSome
        (λ v. (text_eq k key ≡ true → GoodValue P kind v) × GoodField P keys k v)
        (then_see s (see_all rec keys k)).0
then_see-kept P kind key keys rec k (none, c) fresh good = tt
then_see-kept P kind key keys rec k (some v, c) fresh good =
    rw (see_all-IsFresh rec keys k v fresh) (λ same. good, IsFresh-GoodField P keys k v fresh)

OnSome-map {ℓ κ ν} :
    {A : Type ℓ} (Q : A → Type κ) (R : A → Type ν) (o : Option A)
    → ((a : A) → Q a → R a)
    → OnSome Q o
    → OnSome R o
OnSome-map Q R none f q = tt
OnSome-map Q R (some a) f q = f a q

see_all-GoodField :
    (P : Fields → Type 0) (rec : Sanitizer) (v : Value)
    → ((kind : Kind) → OnSome (GoodValue P kind) (see kind rec v).0)
    → (keys : List (Text × Kind)) (k : Text) → AreDistinct keys
    → OnSome (GoodField P keys k) (see_all rec keys k v).0
unfolding see_all
see_all-GoodField P rec v good [] k distinct = tt
see_all-GoodField P rec v good ((key, kind) ∷ keys) k distinct =
    let after : Bool → Type 0 = λ b.
      OnSome (GoodField P ((key, kind) ∷ keys) k)
        (then_see (if b then see kind rec v else (some v, false)) (see_all rec keys k)).0 in
    elim (Bool-cases (text_eq k key)) [
      | inl same ↦ subst after (sym same) (
          then_see-kept P kind key keys rec k (see kind rec v)
            (IsFresh-same k key keys same distinct.0) (good kind))
      | inr other ↦ subst after (sym other) (
          OnSome-map (GoodField P keys k) (GoodField P ((key, kind) ∷ keys) k)
            (see_all rec keys k v).0 (λ w h. (λ same. absurd (cc (other, same)), h))
            (see_all-GoodField P rec v good keys k distinct.1))
    ]

keep_field-GoodFields :
    (P : Fields → Type 0) (k : Text) (s : Seen) (r : Fields × Bool)
    → OnSome (GoodField P schema_keys k) s.0
    → GoodFields P r.0
    → GoodFields P (keep_field k s r).0
unfolding keep_field
keep_field-GoodFields P k (none, c) (fs, m) good rest = rest
keep_field-GoodFields P k (some v, c) (fs, m) good rest = (good, rest)

map_fields-GoodFields :
    (P : Fields → Type 0) (d : ℕ) (g : Text → Value → Seen)
    → ((k : Text) (v : Value) → depth v ≤ d → OnSome (GoodField P schema_keys k) (g k v).0)
    → (fs : Fields) → depth_fields fs ≤ d
    → GoodFields P (map_fields g fs).0
unfolding map_fields depth
map_fields-GoodFields P d g good end le = tt
map_fields-GoodFields P d g good (field k v fs) le =
    keep_field-GoodFields P k (g k v) (map_fields g fs) (good k v (omega (arith, le)))
      (map_fields-GoodFields P d g good fs (omega (arith, le)))

pub schema_keys-AreDistinct : AreDistinct schema_keys
unfolding text_eq
schema_keys-AreDistinct = ground arith

type-IsFresh : IsFresh (codes "type") schema_keys
unfolding text_eq
type-IsFresh = ground arith

any-IsClean : (m : ℕ) → GoodNode (IsClean m) json_schema_any
any-IsClean zero = tt
any-IsClean (suc m) =
    (IsFresh-GoodField (IsClean m) schema_keys (codes "type") (arr any_types) type-IsFresh, tt)

-- With more fuel than the schema has objects inside each other, sanitizeJSONSchema leaves no null in
-- the place of a schema, at any depth: not among the properties, items, variants or definitions.
pub sanitize_json_schema-IsClean :
    (n m : ℕ) (fs : Fields) → depth_fields fs < n → IsClean m (sanitize_json_schema n fs).0
unfolding sanitize_json_schema
sanitize_json_schema-IsClean zero m fs lt = absurd (omega (arith, lt))
sanitize_json_schema-IsClean (suc n) zero fs lt = tt
sanitize_json_schema-IsClean (suc n) (suc m) fs lt =
    let rec : Sanitizer = sanitize_json_schema n in
    let r : Recursion (IsClean m) rec (depth_fields fs) = record {
      inner = λ cs le. sanitize_json_schema-IsClean n m cs (omega (arith, le, lt));
      any = any-IsClean m;
    } in
    subst (λ x. GoodFields (IsClean m) x.0) (sym (call_each-map_fields rec schema_keys fs))
      (map_fields-GoodFields (IsClean m) (depth_fields fs) (see_all rec schema_keys)
        (λ k v le.
          see_all-GoodField (IsClean m) rec v
            (λ kind. see-GoodValue (IsClean m) rec (depth_fields fs) r kind v le) schema_keys k
            schema_keys-AreDistinct)
        fs (omega arith))

-- The schema that an input schema of nothing becomes.
pub object_type-IsClean : (m : ℕ) → IsClean m (field (codes "type") (str (codes "object")) end)
object_type-IsClean zero = tt
object_type-IsClean (suc m) = (
  IsFresh-GoodField (IsClean m) schema_keys (codes "type") (str (codes "object")) type-IsFresh,
  tt,
)
