-- ===== src/Mcp/Env/Merge.antt =====
-- internal/mcp/mcpstdio/envfile.go: mergeEnvPairs. A write outside of `out`, which panics in Go, is the
-- result `none`.
use orbitproxy_go.Prelude.{
  ℕ, zero, suc, Text, text_eq, text_Eq, List, [], ◌∷◌, ◌++◌, Option, none, some, Dict, lookup,
  insert, length, cut, if◌then◌else◌,
}

-- The key of an entry that counts: there is a `=`, and something before it.
unfoldable pub key_of : Text → Option Text
key_of kv = elim ((cut b'=' kv).1) [
  | none ↦ none
  | some val ↦ if text_eq (cut b'=' kv).0 [] then none else some (cut b'=' kv).0
]

-- out[i] = kv
unfoldable pub set_at : ℕ → Text → List Text → Option (List Text)
set_at i kv [] = none
set_at zero kv (x ∷ xs) = some (kv ∷ xs)
set_at (suc i) kv (x ∷ xs) = elim (set_at i kv xs) [ none ↦ none | some ys ↦ some (x ∷ ys) ]

pub record Merging : Type 0 where
  pub seen : Dict ℕ
  pub out : List Text

unfoldable pub add_at : Text → Text → Merging → Option Merging
add_at kv key m = elim (lookup key m.seen) [
  | some i ↦ elim (set_at i kv m.out) [ none ↦ none | some out ↦ some (record m { out = out }) ]
  | none ↦ some (record { seen = insert key (length m.out) m.seen; out = m.out ++ kv ∷ [] })
]

-- The closure `add`.
unfoldable pub add : Text → Merging → Option Merging
add kv m = elim (key_of kv) [ none ↦ some m | some key ↦ add_at kv key m ]

unfoldable pub add_all : List Text → Merging → Option Merging
add_all [] m = some m
add_all (kv ∷ kvs) m = elim (add kv m) [ none ↦ none | some m' ↦ add_all kvs m' ]

unfoldable pub merge_env_pairs : List Text → List Text → Option (List Text)
merge_env_pairs existing incoming = elim (add_all existing (record { seen = []; out = [] })) [
  | none ↦ none
  | some m ↦ elim (add_all incoming m) [ none ↦ none | some m' ↦ some m'.out ]
]
