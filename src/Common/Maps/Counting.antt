-- ===== src/Common/Maps/Counting.antt =====
-- How many values of a map pass a test, and how writes change the number.
use Prim.Native.Nat.{ℕ, ◌+◌, ◌≤◌}
use mathlib.Core.Path.{◌≡◌, refl}
use mathlib.Core.Bool.{Bool, true, false}
use mathlib.Core.Option.{none, some}
use mathlib.Core.List.{[], ◌∷◌}
use native.Mathlib.Omega.{arith}
use openworkers_runner.Common.Tests.{Comparable}
use openworkers_runner.Common.Maps.{
  Map, Unique, lookup, insert, remove, adjust, lookup-remove, lookup-adjust,
}

abbrev pub indicator : Bool → ℕ
indicator true = 1
indicator false = 0

module _ {ℓ κ} {K : Type ℓ} {V : Type κ} where
  unfoldable pub count : (V → Bool) → Map K V → ℕ
  count p [] = 0
  count p ((k, v) ∷ m) = indicator (p v) + count p m

module _ {ℓ κ} {K : Type ℓ} {V : Type κ} ⦃e : Comparable K⦄ where
  pub remove_of_lookup : (k : K) (m : Map K V) → lookup k m ≡ none → remove k m ≡ m
  unfolding lookup remove
  remove_of_lookup k [] h = refl
  remove_of_lookup k ((j, v) ∷ m) h = ground (arith, remove_of_lookup k m)

  pub count-remove :
      (p : V → Bool) (k : K) (v : V) (m : Map K V)
      → Unique m
      → lookup k m ≡ some v
      → count p (remove k m) + indicator (p v) ≡ count p m
  unfolding lookup remove count
  count-remove p k v [] u h = absurd (cc)
  count-remove p k v ((j, w) ∷ m) u h =
      ground (arith, e.same_iff j k, count-remove p k v m u.1, remove_of_lookup k m)

  pub count-adjust :
      (p : V → Bool) (k : K) (f : V → V) (m : Map K V)
      → ((v : V) → p (f v) ≡ p v)
      → count p (adjust k f m) ≡ count p m
  unfolding adjust count
  count-adjust p k f [] h = refl
  count-adjust p k f ((j, w) ∷ m) h = ground (arith, h w, count-adjust p k f m h)

  pub count-le_of_lookup :
      (p : V → Bool) (k : K) (v : V) (m : Map K V)
      → lookup k m ≡ some v
      → indicator (p v) ≤ count p m
  unfolding lookup count
  count-le_of_lookup p k v [] h = absurd (cc)
  count-le_of_lookup p k v ((j, w) ∷ m) h =
      ground (arith, e.same_iff j k, count-le_of_lookup p k v m)

  pub Unique-remove : (k : K) (m : Map K V) → Unique m → Unique (remove k m)
  unfolding remove
  Unique-remove k [] u = tt
  Unique-remove k ((j, v) ∷ m) u = ground (arith, Unique-remove k m u.1, lookup-remove k j m)

  pub Unique-insert : (k : K) (v : V) (m : Map K V) → Unique m → Unique (insert k v m)
  unfolding insert
  Unique-insert k v m u = (ground (arith, lookup-remove k k m, e.same_iff k k), Unique-remove k m u)

  pub Unique-adjust : (k : K) (f : V → V) (m : Map K V) → Unique m → Unique (adjust k f m)
  unfolding adjust
  Unique-adjust k f [] u = tt
  Unique-adjust k f ((j, v) ∷ m) u =
      ground (arith, Unique-adjust k f m u.1, lookup-adjust k j f m, e.same_iff j k)
