-- ===== src/Mcp/Env/Override.antt =====
-- internal/mcp/mcpstdio/envfile.go: mergeEnvPairs keeps one entry for each key, the last one, and
-- never writes outside of its list.
use orbitproxy_go.Prelude.{
  ℕ, suc, ◌+◌, ◌≤◌, ◌≡◌, refl, ap, sym, subst, ◌∙◌, inl, inr, Bool, true, false, Text, text_eq,
  text_eq_iff, text_Eq, List, [], ◌∷◌, ◌++◌, Option, none, some, lookup, insert, length,
  if◌then◌else◌, lookup-insert, arith, Option-cases, Bool-cases,
}
use orbitproxy_go.Mcp.Env.Merge.{key_of, set_at, Merging, add_at, add, add_all, merge_env_pairs}

abbrev pub is_key : Text → Option Text → Bool
is_key k none = false
is_key k (some j) = text_eq j k

-- The last entry with a key, as a child process reads its environment.
abbrev pub last_entry : Text → List Text → Option Text
last_entry k [] = none
last_entry k (kv ∷ kvs) =
    let rest = last_entry k kvs in
    elim rest [ some later ↦ some later | none ↦ if is_key k (key_of kv) then some kv else none ]

-- How many entries have a key.
abbrev pub entries_of : Text → List Text → ℕ
entries_of k [] = 0
entries_of k (kv ∷ kvs) =
    let rest = entries_of k kvs in if is_key k (key_of kv) then suc rest else rest

abbrev find_index : Text → List Text → Option ℕ
find_index k [] = none
find_index k (kv ∷ kvs) =
    let rest = find_index k kvs in
    if is_key k (key_of kv) then some 0 else elim rest [ none ↦ none | some i ↦ some (suc i) ]

-- Every key is seen at its place, and stands once.
record Indexed (m : Merging) : Type 0 where
  index : (k : Text) → lookup k m.seen ≡ find_index k m.out
  once : (k : Text) → entries_of k m.out ≤ 1

find_index-none :
    (k : Text) (out : List Text)
    → find_index k out ≡ none
    → (entries_of k out ≡ 0) × (last_entry k out ≡ none)
find_index-none k [] h = (refl, refl)
find_index-none k (kv ∷ out) h = ground (arith, find_index-none k out)

is_key-some : (k : Text) (o : Option Text) → is_key k o ≡ true → o ≡ some k
is_key-some k none h = cc
is_key-some k (some j) h = ap some ((text_eq_iff j k).0 h)

entries_of_zero : (k : Text) (out : List Text) → entries_of k out ≡ 0 → last_entry k out ≡ none
entries_of_zero k [] h = refl
entries_of_zero k (kv ∷ out) h = ground (arith, entries_of_zero k out)

-- `out'` is `out` with the entry of `key` replaced.
record Replaced (kv key : Text) (out out' : List Text) : Type 0 where
  find : (k : Text) → find_index k out' ≡ find_index k out
  count : (k : Text) → entries_of k out' ≡ entries_of k out
  last : (k : Text) → last_entry k out' ≡ (if text_eq key k then some kv else last_entry k out)

-- Writing an entry at the place of its key.
set_at_lem :
    (i : ℕ) (kv key : Text) (out : List Text)
    → key_of kv ≡ some key
    → entries_of key out ≤ 1
    → find_index key out ≡ some i
    → (out' : List Text) × (set_at i kv out ≡ some out') × Replaced kv key out out'
unfolding set_at
set_at_lem i kv key [] is once at = cc
set_at_lem i kv key (x ∷ out) is once at = elim (Bool-cases (is_key key (key_of x))) [
  | inl here ↦
      let same : key_of x ≡ some key = is_key-some key (key_of x) here in
      let zero_lem : 0 ≡ i = ground arith in
      let alone : last_entry key out ≡ none = entries_of_zero key out (ground arith) in
      subst
        (λ i.
          (out' : List Text) × (set_at i kv (x ∷ out) ≡ some out') × Replaced kv key (x ∷ out) out')
        zero_lem
        (
          kv ∷ out,
          refl,
          record {
            find = λ k. rw (is, same) refl;
            count = λ k. rw (is, same) refl;
            last = λ k. ground (
              arith,
              is,
              same,
              alone,
              text_eq_iff key k,
              λ (h : key ≡ k). ap (λ j. last_entry j out) h,
            );
          },
        )
  | inr there ↦ elim (Option-cases (find_index key out)) [
    | inl absent ↦ absurd (ground arith)
    | inr (j, found) ↦
        let suc_lem : suc j ≡ i = ground arith in
        let (out', set, r) = set_at_lem j kv key out is (ground arith) found in
        subst
          (λ i.
            (out' : List Text) × (set_at i kv (x ∷ out) ≡ some out')
            × Replaced kv key (x ∷ out) out')
          suc_lem
          (
            x ∷ out',
            rw (set, set_at) refl,
            record {
              find = λ k. rw (r.find k) refl;
              count = λ k. rw (r.count k) refl;
              last = λ k. ground (arith, r.last k);
            },
          )
  ]
]

append_lem :
    (kv key : Text) (out : List Text)
    → key_of kv ≡ some key
    → (k : Text)
    → find_index k (out ++ kv ∷ []) ≡ elim (find_index k out) [
      | some i ↦ some i
      | none ↦ if text_eq key k then some (length out) else none
    ]
append_lem kv key [] is k = rw is refl
append_lem kv key (x ∷ out) is k = ground (arith, append_lem kv key out is k)

entries_of_append :
    (k : Text) (xs ys : List Text) → entries_of k (xs ++ ys) ≡ entries_of k xs + entries_of k ys
entries_of_append k [] ys = omega arith
entries_of_append k (x ∷ xs) ys = ground (arith, entries_of_append k xs ys)

last_entry_append :
    (k : Text) (xs ys : List Text)
    → last_entry k (xs ++ ys)
      ≡ elim (last_entry k ys) [ some kv ↦ some kv | none ↦ last_entry k xs ]
last_entry_append k [] ys = ground arith
last_entry_append k (x ∷ xs) ys = ground (arith, last_entry_append k xs ys)

-- What one `add` does.
add_lem :
    (kv : Text) (m : Merging)
    → Indexed m
    → (m' : Merging) × (add kv m ≡ some m')
      × Indexed m'
      × ((k : Text) → last_entry k m'.out ≡ last_entry k (m.out ++ kv ∷ []))
unfolding add add_at
add_lem kv m v = elim (Option-cases (key_of kv)) [
  | inl skipped ↦ (
    m,
    rw (skipped, add) refl,
    v,
    λ k. ground (arith, last_entry_append k m.out (kv ∷ []), skipped),
  )
  | inr (key, is) ↦ elim (Option-cases (lookup key m.seen)) [
    | inl new ↦ (
      record { seen = insert key (length m.out) m.seen; out = m.out ++ kv ∷ [] },
      rw (is, add) (rw (new, add_at) refl),
      record {
        index = λ k. ground (
          arith,
          lookup-insert key k (length m.out) m.seen,
          append_lem kv key m.out is k,
          v.index k,
          v.index key,
          text_eq_iff key k,
          λ (h : key ≡ k). ap (λ j. find_index j m.out) h,
        );
        once = λ k. ground (
          arith,
          is,
          v.once k,
          entries_of_append k m.out (kv ∷ []),
          find_index-none key m.out (sym (v.index key) ∙ new),
          text_eq_iff key k,
          λ (h : key ≡ k). ap (λ j. entries_of j m.out) h,
        );
      },
      λ k. refl,
    )
    | inr (i, old) ↦
        let (out', set, r) = set_at_lem i kv key m.out is (v.once key) (sym (v.index key) ∙ old) in
        (
          record m { out = out' },
          rw (is, add) (rw (old, add_at) (rw set refl)),
          record {
            index = λ k. v.index k ∙ sym (r.find k);
            once = λ k. omega (arith, r.count k, v.once k);
          },
          λ k. ground (arith, r.last k, last_entry_append k m.out (kv ∷ []), is),
        )
  ]
]

add_all_lem :
    (kvs : List Text) (m : Merging)
    → Indexed m
    → (m' : Merging) × (add_all kvs m ≡ some m')
      × Indexed m'
      × ((k : Text) → last_entry k m'.out ≡ last_entry k (m.out ++ kvs))
unfolding add_all
add_all_lem [] m v = (m, refl, v, λ k. ground (arith, last_entry_append k m.out []))
add_all_lem (kv ∷ kvs) m v =
    let (m', one, v', first) = add_lem kv m v in
    let (m'', rest, v'', later) = add_all_lem kvs m' v' in
    (
      m'',
      rw (one, add_all) rest,
      v'',
      λ k. ground (
        arith,
        first k,
        later k,
        last_entry_append k m'.out kvs,
        last_entry_append k m.out (kv ∷ kvs),
        last_entry_append k m.out (kv ∷ []),
      ),
    )

-- mergeEnvPairs always gives a list, without a write outside of its slice. The list has at most one
-- entry for each key, and it is the last one that `incoming` has, or else the last one that `existing`
-- has; entries without a key are dropped.
pub merge_env_pairs-override :
    (existing incoming : List Text)
    → (out : List Text) × (merge_env_pairs existing incoming ≡ some out)
      × ((k : Text) → entries_of k out ≤ 1)
      × ((k : Text)
          → last_entry k out
            ≡ elim (last_entry k incoming) [ some kv ↦ some kv | none ↦ last_entry k existing ])
unfolding merge_env_pairs lookup
merge_env_pairs-override existing incoming =
    let start : Indexed (record { seen = []; out = [] }) = record {
      index = λ k. refl;
      once = λ k. omega arith;
    } in
    let (m, first, v, old) = add_all_lem existing (record { seen = []; out = [] }) start in
    let (m', second, v', new) = add_all_lem incoming m v in
    (
      m'.out,
      rw (first, merge_env_pairs) (rw second refl),
      v'.once,
      λ k. ground (arith, new k, old k, last_entry_append k m.out incoming),
    )
