-- ===== src/Mcp/Schema/Each.antt =====
-- internal/mcp/toolschema/sanitize.go: the calls of sanitizeJSONSchema treat every field on its own.
use orbitproxy_go.Prelude.{
  ◌≡◌, refl, ap, sym, ◌∙◌, Bool, true, false, ◌||◌, Text, text_eq, List, [], ◌∷◌, Option, none,
  some, if◌then◌else◌,
}
use orbitproxy_go.Mcp.Schema.{
  Value, Fields, end, field, Sanitizer, Seen, Kind, see, keep_field, at_key, call_each,
}

-- Each field is seen by itself.
unfoldable pub map_fields : (Text → Value → Seen) → Fields → Fields × Bool
map_fields g end = (end, false)
map_fields g (field k v fs) = keep_field k (g k v) (map_fields g fs)

-- One function after the other at a field.
abbrev pub then_see : Seen → (Value → Seen) → Seen
then_see (none, changed) f = (none, changed)
then_see (some v, changed) f = let (o, more) = f v in (o, changed || more)

-- What all calls together do at one field.
unfoldable pub see_all : Sanitizer → List (Text × Kind) → Text → Value → Seen
see_all rec [] k v = (some v, false)
see_all rec ((key, kind) ∷ keys) k v =
    then_see (if text_eq k key then see kind rec v else (some v, false)) (see_all rec keys k)

or_assoc : (a b c : Bool) → ((a || b) || c) ≡ (a || (b || c))
or_assoc true b c = refl
or_assoc false b c = refl

or_swap : (a b c d : Bool) → ((a || b) || (c || d)) ≡ ((a || c) || (b || d))
or_swap true b c d = refl
or_swap false true true d = refl
or_swap false true false true = refl
or_swap false true false false = refl
or_swap false false c d = refl

-- The fields after a second round over them, and whether one of the rounds changed something.
abbrev pub second : (Text → Value → Seen) → Fields × Bool → Fields × Bool
second h (fs, changed) = let (fs', more) = map_fields h fs in (fs', changed || more)

keep_both :
    (k : Text) (c m d : Bool) (o : Option Value) (r : Fields × Bool)
    → ((keep_field k (o, d) r).0, (c || m) || (keep_field k (o, d) r).1)
      ≡ keep_field k (o, c || d) (r.0, m || r.1)
unfolding keep_field
keep_both k c m d none (fs, e) = ap (λ b. (fs, b)) (or_swap c m d e)
keep_both k c m d (some v) (fs, e) = ap (λ b. (field k v fs, b)) (or_swap c m d e)

second-keep_field :
    (h : Text → Value → Seen) (k : Text) (s : Seen) (r : Fields × Bool)
    → second h (keep_field k s r) ≡ keep_field k (then_see s (h k)) (second h r)
unfolding keep_field map_fields
second-keep_field h k (none, c) (fs, m) =
    ap (λ b. ((map_fields h fs).0, b)) (or_assoc c m (map_fields h fs).1)
second-keep_field h k (some v, c) (fs, m) = keep_both k c m (h k v).1 (h k v).0 (map_fields h fs)

second-map_fields :
    (g h : Text → Value → Seen) (fs : Fields)
    → second h (map_fields g fs) ≡ map_fields (λ k v. then_see (g k v) (h k)) fs
unfolding map_fields
second-map_fields g h end = refl
second-map_fields g h (field k v fs) =
    second-keep_field h k (g k v) (map_fields g fs)
    ∙ ap (keep_field k (then_see (g k v) (h k))) (second-map_fields g h fs)

-- What a call does at one field.
abbrev pub see_at : Text → (Value → Seen) → Text → Value → Seen
see_at key f k v = if text_eq k key then f v else (some v, false)

at_key-map_fields :
    (key : Text) (f : Value → Seen) (fs : Fields) → at_key key f fs ≡ map_fields (see_at key f) fs
unfolding at_key map_fields
at_key-map_fields key f end = refl
at_key-map_fields key f (field k v fs) =
    ap (keep_field k (see_at key f k v)) (at_key-map_fields key f fs)

map_fields_keep : (fs : Fields) → map_fields (λ k v. (some v, false)) fs ≡ (fs, false)
unfolding map_fields keep_field
map_fields_keep end = refl
map_fields_keep (field k v fs) = ap (keep_field k (some v, false)) (map_fields_keep fs)

-- The calls, one after the other over the whole object, are one independent treatment of each field.
pub call_each-map_fields :
    (rec : Sanitizer) (keys : List (Text × Kind)) (fs : Fields)
    → call_each rec keys fs ≡ map_fields (see_all rec keys) fs
unfolding call_each see_all
call_each-map_fields rec [] fs = sym (map_fields_keep fs)
call_each-map_fields rec ((key, kind) ∷ keys) fs =
    let first : Fields × Bool = at_key key (see kind rec) fs in
    ap (λ r. (r.0, first.1 || r.1)) (call_each-map_fields rec keys first.0)
    ∙ ap (second (see_all rec keys)) (at_key-map_fields key (see kind rec) fs)
    ∙ second-map_fields (see_at key (see kind rec)) (see_all rec keys) fs
