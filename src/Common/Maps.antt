-- ===== src/Common/Maps.antt =====
-- A hash map as an association list: the order of the pairs means nothing.
pub mod Counting
pub mod Weights
pub mod Retained
use mathlib.Core.Path.{◌≡◌, refl}
use mathlib.Core.Logic.{inl, inr}
use mathlib.Core.Bool.{Bool}
use mathlib.Core.Option
use mathlib.Core.Option.{Option, none, some}
use mathlib.Core.List.{List, [], ◌∷◌}
use native.Mathlib.Omega.{arith}
use openworkers_runner.Common.Tests.{Bool-cases, Comparable, if◌then◌else◌, nat_eq, string_eq, ◌==◌}

abbrev pub Map {ℓ κ} : Type ℓ → Type κ → Type (ℓ ⊔ κ)
Map K V = List (K × V)

module _ {ℓ κ} {K : Type ℓ} {V : Type κ} ⦃e : Comparable K⦄ where
  unfoldable pub lookup : K → Map K V → Option V
  lookup key [] = none
  lookup key ((other, value) ∷ rest) = if other == key then some value else lookup key rest

  unfoldable pub remove : K → Map K V → Map K V
  remove k [] = []
  remove k ((j, v) ∷ m) = if j == k then remove k m else (j, v) ∷ remove k m

  unfoldable pub insert : K → V → Map K V → Map K V
  insert k v m = (k, v) ∷ remove k m

  unfoldable pub retain : (K → V → Bool) → Map K V → Map K V
  retain keep [] = []
  retain keep ((j, v) ∷ m) = if keep j v then (j, v) ∷ retain keep m else retain keep m

  pub lookup-remove :
      (k j : K) (m : Map K V) → lookup j (remove k m) ≡ (if k == j then none else lookup j m)
  unfolding lookup remove
  lookup-remove k j [] = ground arith
  lookup-remove k j ((i, w) ∷ m) =
      ground (arith, e.same_iff i k, e.same_iff i j, e.same_iff k j, lookup-remove k j m)

  pub lookup-insert :
      (k j : K) (v : V) (m : Map K V)
      → lookup j (insert k v m) ≡ (if k == j then some v else lookup j m)
  unfolding lookup insert
  lookup-insert k j v m = ground (arith, lookup-remove k j m)

  -- A test on the keys alone.
  pub lookup-retain_key :
      (keep : K → Bool) (j : K) (m : Map K V)
      → lookup j (retain (λ k _. keep k) m) ≡ (if keep j then lookup j m else none)
  unfolding lookup retain
  lookup-retain_key keep j [] = ground arith
  lookup-retain_key keep j ((i, w) ∷ m) = elim (Bool-cases (e.same i j)) [
    | inl hit ↦ ground (arith, (e.same_iff i j).0 hit, lookup-retain_key keep j m)
    | inr miss ↦ ground (arith, lookup-retain_key keep j m)
  ]

  -- `get_mut` and a write through it: the first pair of the key, if there is one.
  unfoldable pub adjust : K → (V → V) → Map K V → Map K V
  adjust k f [] = []
  adjust k f ((j, v) ∷ m) = if j == k then (j, f v) ∷ m else (j, v) ∷ adjust k f m

  pub lookup-adjust :
      (k j : K) (f : V → V) (m : Map K V)
      → lookup j (adjust k f m) ≡ (if k == j then Option.map f (lookup j m) else lookup j m)
  unfolding lookup adjust
  lookup-adjust k j f [] = ground arith
  lookup-adjust k j f ((i, w) ∷ m) =
      ground (arith, e.same_iff i k, e.same_iff i j, e.same_iff k j, lookup-adjust k j f m)

  -- No key stands twice.
  abbrev pub Unique : Map K V → Type κ
  Unique [] = Unit
  Unique ((k, v) ∷ m) = (lookup k m ≡ none) × Unique m

  pub lookup-retain-none :
      (keep : K → V → Bool) (j : K) (m : Map K V)
      → lookup j m ≡ none
      → lookup j (retain keep m) ≡ none
  unfolding lookup retain
  lookup-retain-none keep j [] h = refl
  lookup-retain-none keep j ((i, w) ∷ m) h = ground (arith, lookup-retain-none keep j m)

  pub Unique-retain : (keep : K → V → Bool) (m : Map K V) → Unique m → Unique (retain keep m)
  unfolding retain
  Unique-retain keep [] u = tt
  Unique-retain keep ((j, v) ∷ m) u =
      ground (arith, lookup-retain-none keep j m u.0, Unique-retain keep m u.1)
