-- ===== src/Prelude/Maps.antt =====
-- Equality tests as an interface, and Go maps as association lists with the laws by which they are
-- used.
use Prim.Native.Nat.{suc}
use mathlib.Core.Path.{◌≡◌, refl}
use mathlib.Core.Logic.{◌↔◌}
use mathlib.Core.Bool.{Bool, true, ◌&&◌}
use mathlib.Core.Option.{Option, none, some}
use mathlib.Core.List.{List, [], ◌∷◌}
use native.Mathlib.Omega.{arith}
use orbitproxy_go.Prelude.Tests.{if◌then◌else◌}
use orbitproxy_go.Prelude.Lists.{length}
use orbitproxy_go.Prelude.Strings.{Text, text_eq, text_eq_iff}

pub record Eq {ℓ} (K : Type ℓ) : Type ℓ where
  pub is_same : K → K → Bool
  pub is_same_iff : (j k : K) → (is_same j k ≡ true) ↔ (j ≡ k)

instance abbrev pub text_Eq : Eq Text
text_Eq = record { is_same = text_eq; is_same_iff = text_eq_iff }

-- A struct of two comparable fields, as a map key.
abbrev pub pair_eq : Text × Text → Text × Text → Bool
pair_eq p q = text_eq p.0 q.0 && text_eq p.1 q.1

pub pair_eq_iff : (p q : Text × Text) → (pair_eq p q ≡ true) ↔ (p ≡ q)
pair_eq_iff (a, b) (c, d) = (
  λ h. ground (arith, (text_eq_iff a c).0, (text_eq_iff b d).0),
  λ h. ground (arith, (text_eq_iff a c).1, (text_eq_iff b d).1),
)

instance abbrev pub pair_Eq : Eq (Text × Text)
pair_Eq = record { is_same = pair_eq; is_same_iff = pair_eq_iff }

abbrev pub Map {ℓ κ} : Type ℓ → Type κ → Type (ℓ ⊔ κ)
Map K V = List (K × V)

abbrev pub Dict {ℓ} : Type ℓ → Type ℓ
Dict V = List (Text × V)

module _ {ℓ κ} {K : Type ℓ} ⦃e : Eq K⦄ {V : Type κ} where
  unfoldable pub lookup : K → Map K V → Option V
  lookup k [] = none
  lookup k ((j, v) ∷ m) = if e.is_same j k then some v else lookup k m

  -- delete(m, k)
  unfoldable pub delete : K → Map K V → Map K V
  delete k [] = []
  delete k ((j, v) ∷ m) = let rest = delete k m in if e.is_same j k then rest else (j, v) ∷ rest

  -- m[k] = v
  unfoldable pub insert : K → V → Map K V → Map K V
  unfolding delete
  insert k v m = (k, v) ∷ delete k m

  pub lookup-delete :
      (k j : K) (m : Map K V) → lookup j (delete k m) ≡ (if e.is_same k j then none else lookup j m)
  unfolding lookup delete
  lookup-delete k j [] = ground arith
  lookup-delete k j ((i, v) ∷ m) =
      ground (arith, lookup-delete k j m, e.is_same_iff i k, e.is_same_iff i j, e.is_same_iff k j)

  pub lookup-insert :
      (k j : K) (v : V) (m : Map K V)
      → lookup j (insert k v m) ≡ (if e.is_same k j then some v else lookup j m)
  unfolding lookup insert
  lookup-insert k j v m = ground (arith, lookup-delete k j m)

  -- No key stands twice.
  abbrev pub IsDict : Map K V → Type κ
  IsDict [] = Unit
  IsDict ((k, v) ∷ m) = (lookup k m ≡ none) × IsDict m

  pub delete_fresh : (k : K) (m : Map K V) → lookup k m ≡ none → delete k m ≡ m
  unfolding lookup delete
  delete_fresh k [] h = refl
  delete_fresh k ((j, v) ∷ m) h = ground (arith, delete_fresh k m)

  pub delete-IsDict : (k : K) (m : Map K V) → IsDict m → IsDict (delete k m)
  unfolding delete lookup
  delete-IsDict k [] h = tt
  delete-IsDict k ((j, v) ∷ m) h =
      ground (arith, delete-IsDict k m h.1, lookup-delete k j m, e.is_same_iff k j)

  pub insert-IsDict : (k : K) (v : V) (m : Map K V) → IsDict m → IsDict (insert k v m)
  unfolding insert
  insert-IsDict k v m h =
      ground (arith, delete-IsDict k m h, lookup-delete k k m, e.is_same_iff k k)

  pub length-delete :
      (k : K) (v : V) (m : Map K V)
      → IsDict m
      → lookup k m ≡ some v
      → suc (length (delete k m)) ≡ length m
  unfolding lookup delete
  length-delete k v [] d h = cc
  length-delete k v ((j, w) ∷ m) d h =
      ground (arith, length-delete k v m d.1, delete_fresh k m, e.is_same_iff j k)

  pub length-insert_fresh :
      (k : K) (v : V) (m : Map K V) → lookup k m ≡ none → length (insert k v m) ≡ suc (length m)
  unfolding insert
  length-insert_fresh k v m h = rw (delete_fresh k m h)
