-- ===== src/Durable/Registry/Safety.antt =====
-- src/durable/mod.rs, `mod registry`: what the registry promises its callers.
use openworkers_runner.Common.{
  Bool, List, ap, arith, false, nat_eq, some, string_eq, sym, true, ℕ, ◌<◌, ◌^◌, ◌≡◌, ◌≤◌,
}
use openworkers_runner.Common.Lists.{length}
use openworkers_runner.Common.Maps
use openworkers_runner.Common.Int.{int_eq}
use openworkers_runner.Durable.Registry.{
  Phase, State, Task, init, key_eq, key_eqb_iff, loading, serving,
}
use openworkers_runner.Durable.Registry.Invariant.{Inv, IsExclusive, init-Inv}
use openworkers_runner.Durable.Registry.Steps.{Step, run}
use openworkers_runner.Durable.Registry.Preserve.{run_from-Inv}

-- A history of fewer than 2 ^ 64 steps never panics, and leads to a state in which `running` and
-- `accounts` hold the exact number of tasks per namespace and per account, none more than
-- MAX_RESIDENT_PER_ACCOUNT for an account, and in which the invariant of the registry holds.
pub run-Inv : (cs : List Step) → length cs < 2 ^ 64 → (s : State) × (run cs init ≡ some s) × Inv s
run-Inv cs room =
    let (s, e, v, _) = run_from-Inv cs init (unfold init in omega arith) init-Inv in (s, e, v)

-- A reached state is good, and has counted one start a step at most.
pub reached_within :
    (cs : List Step) (s : State)
    → length cs < 2 ^ 64
    → run cs init ≡ some s
    → Inv s × (s.generation ≤ length cs)
reached_within cs s room e =
    let (s', e', v, bound) = run_from-Inv cs init (unfold init in omega arith) init-Inv in
    let same : s' ≡ s = ground arith in
    (rw same at v, unfold init in omega (arith, bound, ap (λ (t : State). t.generation) same))

pub reached-Inv : (cs : List Step) (s : State) → length cs < 2 ^ 64 → run cs init ≡ some s → Inv s
reached-Inv cs s room e = (reached_within cs s room e).0

-- The task runs the code of its worker: it loads it or serves with it.
abbrev pub executes : Phase → Bool
executes loading = true
executes serving = true
executes _ = false

one_of_two :
    (s : State) (g h : ℕ) (t u : Task)
    → IsExclusive s
    → Maps.lookup g s.tasks ≡ some t
    → Maps.lookup h s.tasks ≡ some u
    → t.key ≡ u.key
    → executes t.phase ≡ true
    → executes u.phase ≡ true
    → ¬ (g < h)
one_of_two s g h t u v p q same x y l =
    ground (arith, v.ordered t.key g h, key_eqb_iff t.key t.key, key_eqb_iff u.key t.key)

-- Old and new code never run for the same object at once: in any history of fewer than 2 ^ 64
-- steps, two tasks of one object that load or serve are one task.
pub executing_unique :
    (cs : List Step) (s : State) (g h : ℕ) (t u : Task)
    → length cs < 2 ^ 64
    → run cs init ≡ some s
    → Maps.lookup g s.tasks ≡ some t
    → Maps.lookup h s.tasks ≡ some u
    → t.key ≡ u.key
    → executes t.phase ≡ true
    → executes u.phase ≡ true
    → g ≡ h
executing_unique cs s g h t u room e p q same x y =
    let v = (reached-Inv cs s room e).exclusive in
    ground (arith, one_of_two s g h t u v p q same x y, one_of_two s h g u t v q p (sym same) y x)
