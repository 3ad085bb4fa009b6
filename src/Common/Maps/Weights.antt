-- ===== src/Common/Maps/Weights.antt =====
-- The sum of a number per value of a map, and how writes change it.
use Prim.Native.Nat.{ℕ, ◌+◌, ◌≤◌}
use mathlib.Core.Path.{◌≡◌, refl}
use mathlib.Core.Bool.{Bool, false}
use mathlib.Core.Logic.{inl, inr}
use mathlib.Core.Option.{some}
use mathlib.Core.List.{[], ◌∷◌}
use native.Mathlib.Omega.{arith}
use openworkers_runner.Common.Tests.{Bool-cases, Comparable, nat_eq, option_eq, string_eq}
use openworkers_runner.Common.Maps.{Map, adjust, insert, lookup, remove, retain}

module _ {ℓ κ} {K : Type ℓ} {V : Type κ} where
  unfoldable pub weigh : (V → ℕ) → Map K V → ℕ
  weigh f [] = 0
  weigh f ((k, v) ∷ m) = f v + weigh f m

module _ {ℓ κ} {K : Type ℓ} {V : Type κ} ⦃e : Comparable K⦄ where
  pub weigh-remove_le : (f : V → ℕ) (k : K) (m : Map K V) → weigh f (remove k m) ≤ weigh f m
  unfolding remove weigh
  weigh-remove_le f k [] = omega arith
  weigh-remove_le f k ((j, w) ∷ m) = ground (arith, weigh-remove_le f k m)

  -- The first value of the key goes, and maybe others.
  pub weigh-remove :
      (f : V → ℕ) (k : K) (v : V) (m : Map K V)
      → lookup k m ≡ some v
      → weigh f (remove k m) + f v ≤ weigh f m
  unfolding lookup remove weigh
  weigh-remove f k v [] h = absurd (cc)
  weigh-remove f k v ((j, w) ∷ m) h = ground (arith, weigh-remove f k v m, weigh-remove_le f k m)

  pub weigh-insert :
      (f : V → ℕ) (k : K) (v w : V) (m : Map K V)
      → lookup k m ≡ some v
      → weigh f (insert k w m) + f v ≤ weigh f m + f w
  unfolding weigh insert
  weigh-insert f k v w m h = omega (arith, weigh-remove f k v m h)

  pub weigh-insert_le :
      (f : V → ℕ) (k : K) (w : V) (m : Map K V) → weigh f (insert k w m) ≤ weigh f m + f w
  unfolding weigh insert
  weigh-insert_le f k w m = omega (arith, weigh-remove_le f k m)

  pub weigh-lookup :
      (f : V → ℕ) (k : K) (v : V) (m : Map K V) → lookup k m ≡ some v → f v ≤ weigh f m
  weigh-lookup f k v m h = omega (arith, weigh-remove f k v m h)

  pub weigh-adjust :
      (f : V → ℕ) (k : K) (g : V → V) (m : Map K V)
      → ((v : V) → f (g v) ≡ f v)
      → weigh f (adjust k g m) ≡ weigh f m
  unfolding weigh adjust
  weigh-adjust f k g [] h = refl
  weigh-adjust f k g ((j, w) ∷ m) h = ground (arith, h w, weigh-adjust f k g m h)

  pub weigh-retain :
      (f : V → ℕ) (keep : K → V → Bool) (m : Map K V)
      → ((k : K) (v : V) → keep k v ≡ false → f v ≡ 0)
      → weigh f (retain keep m) ≡ weigh f m
  unfolding weigh retain
  weigh-retain f keep [] h = refl
  weigh-retain f keep ((j, w) ∷ m) h = elim (Bool-cases (keep j w)) [
    | inl kept ↦ ground (arith, weigh-retain f keep m h)
    | inr dropped ↦ ground (arith, h j w dropped, weigh-retain f keep m h)
  ]
