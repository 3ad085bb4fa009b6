-- ===== src/Durable/Depths/Laws.antt =====
-- src/durable/mod.rs, `CallDepths`: what the guards count.
use openworkers_runner.Common.{
  Option-cases, [], arith, if◌then◌else◌, inl, inr, nat_eq, nat_eqb_iff, refl, some, string_eq, suc,
  zero, ℕ, ◌++◌, ◌+◌, ◌<◌, ◌==◌, ◌∷◌, ◌≡◌, ◌≢◌, ◌≤◌,
}
use openworkers_runner.Common.Maps.Counting.{indicator}
use openworkers_runner.Durable.Depths.{
  CallDepths, deepest, drop_guard, drop_last, enter, last_or, position, swap_remove,
}

-- How many events of a depth are in flight.
unfoldable pub in_flight : ℕ → CallDepths → ℕ
in_flight a [] = 0
in_flight a (d ∷ ds) = indicator (d == a) + in_flight a ds

in_flight-append :
    (a d : ℕ) (ds : CallDepths) → in_flight a (ds ++ d ∷ []) ≡ in_flight a ds + indicator (d == a)
unfolding in_flight
in_flight-append a d [] = omega arith
in_flight-append a d (x ∷ ds) = omega (arith, in_flight-append a d ds)

in_flight-last :
    (a y : ℕ) (ys : CallDepths)
    → indicator (last_or y ys == a) + in_flight a (drop_last (y ∷ ys)) ≡ in_flight a (y ∷ ys)
unfolding in_flight last_or drop_last
in_flight-last a y [] = refl
in_flight-last a y (z ∷ zs) = omega (arith, in_flight-last a z zs)

in_flight-swap_remove :
    (a d i : ℕ) (ds : CallDepths)
    → position d ds ≡ some i
    → in_flight a (swap_remove i ds) + indicator (d == a) ≡ in_flight a ds
unfolding in_flight position swap_remove
in_flight-swap_remove a d i [] h = absurd (cc)
in_flight-swap_remove a d zero (x ∷ []) h = ground (arith, nat_eqb_iff x d)
in_flight-swap_remove a d zero (x ∷ y ∷ ys) h =
    ground (arith, nat_eqb_iff x d, in_flight-last a y ys)
in_flight-swap_remove a d (suc i) (x ∷ xs) h =
    ground (arith, nat_eqb_iff x d, in_flight-swap_remove a d i xs)

position-is_some :
    (d : ℕ) (ds : CallDepths) → 0 < in_flight d ds → (i : ℕ) × (position d ds ≡ some i)
unfolding in_flight position
position-is_some d [] h = absurd (omega arith)
position-is_some d (x ∷ xs) h = elim (Option-cases (position d xs)) [
  | inl e ↦ (0, ground (arith, nat_eqb_iff x d, position-is_some d xs))
  | inr (i, e) ↦ (if x == d then 0 else suc i, ground (arith, nat_eqb_iff x d))
]

-- A guard that counts its depth drops without a panic, takes exactly its own depth out, and
-- leaves every other event in flight counted.
pub drop_guard_lem :
    (d : ℕ) (ds : CallDepths)
    → 0 < in_flight d ds
    → (ds' : CallDepths) × (drop_guard d ds ≡ some ds')
      × ((a : ℕ) → in_flight a ds' + indicator (d == a) ≡ in_flight a ds)
unfolding drop_guard
drop_guard_lem d ds h =
    let (i, e) = position-is_some d ds h in
    (swap_remove i ds, rw e, λ a. in_flight-swap_remove a d i ds e)

pub in_flight-enter :
    (a d : ℕ) (ds : CallDepths) → in_flight a (enter d ds) ≡ in_flight a ds + indicator (d == a)
unfolding enter
in_flight-enter a d ds = in_flight-append a d ds

le-deepest : (a : ℕ) (ds : CallDepths) → 0 < in_flight a ds → a ≤ deepest ds
unfolding in_flight deepest
le-deepest a [] h = absurd (omega arith)
le-deepest a (d ∷ ds) h = grind (arith, le-deepest a ds)

deepest-in_flight : (ds : CallDepths) → deepest ds ≢ 0 → 0 < in_flight (deepest ds) ds
unfolding in_flight deepest
deepest-in_flight [] h = absurd (h refl)
deepest-in_flight (d ∷ ds) h = grind (arith, deepest-in_flight ds)

-- `deepest` is the depth of the deepest event in flight: none in flight is deeper, and one of
-- that depth is in flight unless the answer is 0.
pub deepest-IsGreatest :
    (ds : CallDepths)
    → ((a : ℕ) → 0 < in_flight a ds → a ≤ deepest ds)
      × (deepest ds ≢ 0 → 0 < in_flight (deepest ds) ds)
deepest-IsGreatest ds = (λ a. le-deepest a ds, deepest-in_flight ds)
