-- ===== src/Durable/Depths.antt =====
-- src/durable/mod.rs, `CallDepths`: the call depths of the events in flight of an object.
pub mod Laws
use mathlib.Core.Option
use openworkers_runner.Common.{
  List, Option, [], if◌then◌else◌, max, nat_eq, none, some, string_eq, suc, zero, ℕ, ◌++◌, ◌==◌,
  ◌∷◌,
}

abbrev pub CallDepths : Type 0
CallDepths = List ℕ

-- `iter().copied().max().unwrap_or(0)`
unfoldable pub deepest : CallDepths → ℕ
deepest [] = 0
deepest (d ∷ ds) = max d (deepest ds)

-- The guard that `enter` hands out is the depth itself.
unfoldable pub enter : ℕ → CallDepths → CallDepths
enter depth ds = ds ++ depth ∷ []

-- `position`: the first index at which the depth stands.
pub position : ℕ → CallDepths → Option ℕ
position depth [] = none
position depth (d ∷ ds) = if d == depth then some 0 else Option.map (λ i. suc i) (position depth ds)

-- The last item, `d` where the list is empty, and the list without it.
pub last_or : ℕ → CallDepths → ℕ
last_or d [] = d
last_or d (x ∷ xs) = last_or x xs

pub drop_last : CallDepths → CallDepths
drop_last [] = []
drop_last (x ∷ []) = []
drop_last (x ∷ y ∷ ys) = x ∷ drop_last (y ∷ ys)

-- `swap_remove`: the last item takes the place of the one that goes.
pub swap_remove : ℕ → CallDepths → CallDepths
unfolding last_or drop_last
swap_remove i [] = []
swap_remove zero (x ∷ []) = []
swap_remove zero (x ∷ y ∷ ys) = last_or y ys ∷ drop_last (y ∷ ys)
swap_remove (suc i) (x ∷ xs) = x ∷ swap_remove i xs

-- The drop of a guard; `none` is the panic of its `expect`.
unfoldable pub drop_guard : ℕ → CallDepths → Option CallDepths
unfolding position swap_remove
drop_guard depth ds = Option.map (λ i. swap_remove i ds) (position depth ds)
