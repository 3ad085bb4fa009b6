-- ===== src/Durable/Registry/Tests.antt =====
-- Histories of one object of one account, and what the theorems say of them.
use mathlib.Core.Option
use openworkers_runner.Common.{
  List, Option, [], arith, get_or, nat_eq, option_eq, refl, some, string_eq, true, ℕ, ◌++◌, ◌+◌,
  ◌==◌, ◌∷◌, ◌≡◌,
}
use openworkers_runner.Common.Lists.{contains}
use openworkers_runner.Common.Maps
use openworkers_runner.Common.Maps.Counting.{count, indicator}
use openworkers_runner.Common.Int.{int_eq, pos}
use openworkers_runner.Durable.Depths.{CallDepths, drop_guard, enter}
use openworkers_runner.Durable.Depths.Laws.{drop_guard_lem, in_flight}
use openworkers_runner.Durable.Registry.{
  NamespaceConfig, ObjectKey, State, Task, admit, admit_new, fetch, init, key_eq, key_eqb, release,
  socket, start, waiting,
}
use openworkers_runner.Durable.Registry.Serve.{
  begin_load, drop_running, leave, load_failed, loaded, take_event,
}
use openworkers_runner.Durable.Registry.Deploy.{old_keys, retire, retire_keys, stop_namespace}
use openworkers_runner.Durable.Registry.Retire.{Retired, retire-Retired}
use openworkers_runner.Durable.Registry.Invariant.{Inv, in_namespace}
use openworkers_runner.Durable.Registry.Steps.{
  Step, admits, begins, ends, leaves, loads, retires, run, step, stops, takes,
}
use openworkers_runner.Durable.Registry.Safety.{executing_unique, run-Inv}
use openworkers_runner.Durable.Registry.Quiet.{stop_namespace_final}
use openworkers_runner.Durable.Registry.Mailbox.{Admitted, admit_lem}

abbrev rooms : NamespaceConfig
rooms = record { id = "rooms"; user_id = "u1"; worker_id = "w1"; class_name = "Room" }

abbrev lobby : ObjectKey
lobby = record { namespace = "rooms"; id = "lobby" }

-- A start, its load, a new deployment, a request of the new one, and the end of the old task.
abbrev redeploy : List Step
redeploy =
    admits rooms "lobby" 0 (fetch 1)
    ∷ loads 0 (pos 7)
    ∷ retires "w1" (pos 7)
    ∷ admits rooms "lobby" 2 (fetch 2)
    ∷ []

-- The state that a history reaches, with all that it calls open to the tests.
replay : List Step → Option State
unfolding run step init admit admit_new start begin_load loaded load_failed take_event leave
    drop_running release stop_namespace retire old_keys retire_keys key_eqb enter Maps.lookup
    Maps.insert Maps.remove Maps.adjust Maps.retain
replay cs = run cs init

reached : List Step → State
unfolding replay
reached cs = get_or (replay cs) init

redeploy_waits :
    Option.map (λ (t : Task). t.phase) (Maps.lookup 1 (reached redeploy).tasks) ≡ some (waiting 0)
unfolding reached
redeploy_waits = refl

run-Inv_example : (s : State) × (run redeploy init ≡ some s) × Inv s
run-Inv_example = run-Inv redeploy (omega arith)

executing_unique_example : ◌≡◌ {A = ℕ} 1 1
unfolding reached
executing_unique_example =
    executing_unique (redeploy ++ ends 0 ∷ begins 1 ∷ [])
      (reached (redeploy ++ ends 0 ∷ begins 1 ∷ [])) 1 1 _ _ (omega arith) refl refl refl refl refl
      refl

-- The object is idle and ends; its namespace is then deleted, and a late request is refused.
abbrev idle : List Step
idle = admits rooms "lobby" 0 (fetch 1) ∷ loads 0 (pos 7) ∷ takes 0 ∷ leaves 0 ∷ ends 0 ∷ []

abbrev late : List Step
late = admits rooms "lobby" 0 (fetch 2) ∷ begins 1 ∷ []

after_late : State
unfolding reached
after_late = reached (idle ++ stops "rooms" ∷ late)

stop_namespace_final_example :
    (contains "rooms" after_late.registry.stopped ≡ true)
    × (count (in_namespace "rooms") after_late.tasks ≡ 0)
unfolding after_late
stop_namespace_final_example =
    stop_namespace_final "rooms" idle late (reached idle) after_late (omega arith) refl refl refl

admit_lem_example :
    Admitted rooms lobby 3
      (socket 9)
      (reached redeploy)
      (admit rooms "lobby" 3 (socket 9) (reached redeploy))
unfolding reached
admit_lem_example =
    admit_lem redeploy (reached redeploy) rooms "lobby" 3 (socket 9) (omega arith) refl

-- Two objects, the first of which is idle.
abbrev two : List Step
two =
    admits rooms "lobby" 0 (fetch 1)
    ∷ admits rooms "bar" 0 (fetch 2)
    ∷ loads 0 (pos 7)
    ∷ takes 0
    ∷ []

abbrev bar : ObjectKey
bar = record { namespace = "rooms"; id = "bar" }

abbrev loaded_two : List Step
loaded_two = two ++ loads 1 (pos 7) ∷ []

retire-Retired_example :
    (s' : State) × (retire "w1" (pos 7) (reached loaded_two)
      ≡ some (s', old_keys "w1" (pos 7) (reached loaded_two).registry.objects))
    × Retired "w1" (pos 7) (reached loaded_two) s'
unfolding reached
retire-Retired_example = retire-Retired "w1" (pos 7) (reached loaded_two) (refl, (refl, tt))

drop_guard_lem_example :
    (ds : CallDepths) × (drop_guard 2 (1 ∷ 2 ∷ 3 ∷ []) ≡ some ds)
    × ((a : ℕ) → in_flight a ds + indicator (2 == a) ≡ in_flight a (1 ∷ 2 ∷ 3 ∷ []))
unfolding in_flight
drop_guard_lem_example = drop_guard_lem 2 (1 ∷ 2 ∷ 3 ∷ []) (omega arith)
