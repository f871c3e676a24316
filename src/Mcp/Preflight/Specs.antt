-- ===== src/Mcp/Preflight/Specs.antt =====
-- internal/mcp/preflight/command.go: packageDirName on what npm writes.
use orbitproxy_go.Prelude.{
  ℕ, suc, ◌+◌, ◌==◌, ◌≡◌, refl, ap, sym, ◌∙◌, false, Text, text_eq, has_prefix, trim_space, [], ◌∷◌,
  ◌++◌, append_assoc, length, length-append, take, drop, take_append, none, some, arith,
}
use orbitproxy_go.Prelude.Paths.{index, last_index}
use orbitproxy_go.Mcp.Preflight.{
  before_version, before_scoped_version, without_version, package_dir_name,
}

-- `name@version`, and `@scope/name@version`; the name is a character and a rest.
pub data Spec : Type 0 where
  plain : (first : ℕ) (name version : Text) → Spec
  scoped : (scope : Text) (first : ℕ) (name version : Text) → Spec

abbrev pub name_of : Spec → Text
name_of (plain first name version) = first ∷ name
name_of (scoped scope first name version) = b'@' ∷ (scope ++ b'/' ∷ (first ∷ name))

abbrev pub version_of : Spec → Text
version_of (plain first name version) = version
version_of (scoped scope first name version) = version

abbrev pub print : Spec → Text
print spec = name_of spec ++ b'@' ∷ version_of spec

abbrev pub Absent : ℕ → Text → Type 0
Absent c [] = Unit
Absent c (d ∷ s) = ((d == c) ≡ false) × Absent c s

-- A version has no `@`, a scope no `/`, and a plain name does not start with `@`.
abbrev pub WellFormed : Spec → Type 0
WellFormed (plain first name version) = ((first == b'@') ≡ false) × Absent b'@' version
WellFormed (scoped scope first name version) = Absent b'/' scope × Absent b'@' version

last_index-Absent : (c : ℕ) (s : Text) → Absent c s → last_index c s ≡ none
unfolding last_index
last_index-Absent c [] a = refl
last_index-Absent c (d ∷ s) (other, a) = ground (arith, other, last_index-Absent c s a)

last_index-append : (c : ℕ) (s t : Text) → Absent c t → last_index c (s ++ c ∷ t) ≡ some (length s)
unfolding last_index
last_index-append c [] t a = ground (arith, last_index-Absent c t a)
last_index-append c (d ∷ s) t a = rw (last_index-append c s t a) refl

index-append : (c : ℕ) (s t : Text) → Absent c s → index c (s ++ c ∷ t) ≡ some (length s)
unfolding index
index-append c [] t a = ground arith
index-append c (d ∷ s) t (other, a) = ground (arith, other, index-append c s t a)

drop_past : (s : Text) (c : ℕ) (t : Text) → drop (length s + 1) (s ++ c ∷ t) ≡ t
drop_past [] c t = refl
drop_past (d ∷ s) c t =
    let more : length (d ∷ s) + 1 ≡ suc (length s + 1) = omega arith in
    ap (λ n. drop n (d ∷ (s ++ c ∷ t))) more ∙ drop_past s c t

before_version_lem :
    (first : ℕ) (name version : Text)
    → Absent b'@' version
    → before_version (first ∷ (name ++ b'@' ∷ version)) ≡ first ∷ name
before_version_lem first name version a = ground (
  arith,
  last_index-append b'@' (first ∷ name) version a,
  take_append (first ∷ name) (b'@' ∷ version),
)

-- A name with a scope before it, from its slash on.
scoped_lem :
    (pre name : Text) (rest : Text)
    → (take (length pre + 1 + length name) (pre ++ b'/' ∷ (name ++ rest)) ≡ pre ++ b'/' ∷ name)
      × ((pre ++ b'/' ∷ name) ++ rest ≡ pre ++ b'/' ∷ (name ++ rest))
scoped_lem pre name rest =
    let regroup = append_assoc pre (b'/' ∷ name) rest in
    (
      ap (take (length pre + 1 + length name)) (sym regroup)
          ∙ (ap (λ n. take n ((pre ++ b'/' ∷ name) ++ rest))
                (omega (arith, length-append pre (b'/' ∷ name)))
              ∙ take_append (pre ++ b'/' ∷ name) rest),
      regroup,
    )

before_scoped_version_lem :
    (pre : Text) (first : ℕ) (name version : Text)
    → Absent b'@' version
    → before_scoped_version (pre ++ b'/' ∷ (first ∷ (name ++ b'@' ∷ version))) (length pre)
      ≡ pre ++ b'/' ∷ (first ∷ name)
before_scoped_version_lem pre first name version a = ground (
  arith,
  drop_past pre b'/' (first ∷ (name ++ b'@' ∷ version)),
  last_index-append b'@' (first ∷ name) version a,
  (scoped_lem pre (first ∷ name) (b'@' ∷ version)).0,
)

without_version-print :
    (spec : Spec) → WellFormed spec → without_version (print spec) ≡ name_of spec
unfolding without_version text_eq has_prefix index
without_version-print (plain first name version) (other, a) =
    ground (arith, other, before_version_lem first name version a)
without_version-print (scoped scope first name version) (s, a) =
    let regroup = (scoped_lem (b'@' ∷ scope) (first ∷ name) (b'@' ∷ version)).1 in
    let slash = index-append b'/' scope (first ∷ (name ++ b'@' ∷ version)) s in
    ap without_version regroup
    ∙ rw slash (before_scoped_version_lem (b'@' ∷ scope) first name version a)

-- packageDirName takes the version off: of what is written `name@version` or `@scope/name@version`, it
-- gives the name, with the scope.
pub package_dir_name-print :
    (spec : Spec)
    → WellFormed spec
    → trim_space (print spec) ≡ print spec
    → package_dir_name (print spec) ≡ name_of spec
unfolding package_dir_name
package_dir_name-print spec well trimmed =
    ap without_version trimmed ∙ without_version-print spec well
