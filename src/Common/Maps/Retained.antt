-- ===== src/Common/Maps/Retained.antt =====
-- What `retain` leaves of a map without a key that stands twice.
use mathlib.Core.Path.{◌≡◌}
use mathlib.Core.Bool.{Bool, true}
use mathlib.Core.Logic.{inl, inr}
use mathlib.Core.Option.{some}
use mathlib.Core.List.{[], ◌∷◌}
use native.Mathlib.Omega.{arith}
use openworkers_runner.Common.Tests.{Bool-cases, Comparable, nat_eq, option_eq, string_eq}
use openworkers_runner.Common.Maps.{Map, Unique, lookup, lookup-retain-none, retain}

module _ {ℓ κ} {K : Type ℓ} {V : Type κ} ⦃e : Comparable K⦄ where
  pub lookup-retain-some :
      (keep : K → V → Bool) (k : K) (v : V) (m : Map K V)
      → lookup k m ≡ some v
      → keep k v ≡ true
      → lookup k (retain keep m) ≡ some v
  unfolding lookup retain
  lookup-retain-some keep k v [] h b = ground arith
  lookup-retain-some keep k v ((j, w) ∷ m) h b = elim (Bool-cases (e.same j k)) [
    | inl hit ↦ ground (arith, e.same_iff j k)
    | inr miss ↦ ground (arith, lookup-retain-some keep k v m (ground arith) b)
  ]

  pub lookup_of_retain :
      (keep : K → V → Bool) (k : K) (v : V) (m : Map K V)
      → Unique m
      → lookup k (retain keep m) ≡ some v
      → lookup k m ≡ some v
  unfolding lookup retain
  lookup_of_retain keep k v [] u h = ground arith
  lookup_of_retain keep k v ((j, w) ∷ m) u h = elim (Bool-cases (e.same j k)) [
    | inl hit ↦ ground (arith, e.same_iff j k, lookup-retain-none keep j m u.0)
    | inr miss ↦ elim (Bool-cases (keep j w)) [
      | inl kept ↦ ground (arith, lookup_of_retain keep k v m u.1 (ground arith))
      | inr dropped ↦ ground (arith, lookup_of_retain keep k v m u.1 (ground arith))
    ]
  ]
