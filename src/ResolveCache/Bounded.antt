-- ===== src/ResolveCache/Bounded.antt =====
-- A least-recently-used map of a fixed capacity, which shows that the interface can be filled.
use openworkers_runner.Common.{
  Bool-cases, Comparable, Option, Option-cases, [], arith, inl, inr, nat_eq, none, option_eq, refl,
  some, string_eq, suc, sym, zero, ℕ, ◌∙◌, ◌∷◌, ◌≡◌,
}
use openworkers_runner.Common.Lists.{take}
use openworkers_runner.Common.Maps.{Map, insert, lookup-insert}
use openworkers_runner.Common.Maps
use openworkers_runner.ResolveCache.Lru.{LruCache, LruLaws}

-- The capacity, and the entries, the one used last in front.
pub record Bounded (K : Type 0) (V : Type 0) : Type 0 where
  pub capacity : ℕ
  pub entries : Map K V

module _ {K : Type 0} {V : Type 0} ⦃e : Comparable K⦄ where
  abbrev pub to_front : K → Option V → Map K V → Map K V
  to_front k none m = m
  to_front k (some v) m = insert k v m

  unfoldable pub bounded_get : K → Bounded K V → Option V × Bounded K V
  bounded_get k s =
      let found : Option V = Maps.lookup k s.entries in
      (found, record s { entries = to_front k found s.entries })

  unfoldable pub bounded_put : K → V → Bounded K V → Bounded K V
  bounded_put k v s = record s { entries = take s.capacity (insert k v s.entries) }

  abbrev pub bounded : LruCache K V
  bounded = record {
    Store = Bounded K V;
    new = λ n. record { capacity = n; entries = [] };
    get = bounded_get;
    put = bounded_put;
    clear = λ s. record s { entries = [] };
  }

  lookup-take :
      (n : ℕ) (k : K) (v : V) (m : Map K V)
      → Maps.lookup k (take n m) ≡ some v
      → Maps.lookup k m ≡ some v
  unfolding Maps.lookup
  lookup-take zero k v m h = ground arith
  lookup-take (suc n) k v [] h = ground arith
  lookup-take (suc n) k v ((j, w) ∷ m) h = elim (Bool-cases (e.same j k)) [
    | inl hit ↦ ground arith
    | inr miss ↦ rw miss (lookup-take n k v m (rw miss at h))
  ]

  lookup-to_front :
      (k j : K) (m : Map K V) → Maps.lookup j (to_front k (Maps.lookup k m) m) ≡ Maps.lookup j m
  lookup-to_front k j m = elim (Option-cases (Maps.lookup k m)) [
    | inl nothing ↦ rw nothing refl
    | inr (v, found) ↦ rw found (ground (arith, e.same_iff k j, lookup-insert k j v m))
  ]

  pub bounded-LruLaws : LruLaws bounded
  unfolding bounded_get bounded_put Maps.lookup
  bounded-LruLaws = record {
    get_get = λ k j v s h. sym (lookup-to_front k j s.entries) ∙ h;
    get_put = λ k j w v s h.
        let whole : Maps.lookup j (insert k w s.entries) ≡ some v =
          lookup-take s.capacity j v (insert k w s.entries) h in
        ground (arith, e.same_iff k j, lookup-insert k j w s.entries);
    get_new = λ j n. refl;
    get_clear = λ j s. refl;
  }
