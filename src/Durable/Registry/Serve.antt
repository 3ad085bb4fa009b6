-- ===== src/Durable/Registry/Serve.antt =====
-- src/durable/mod.rs, `serve`, `leave` and the drop of `Running`: what the task of an object does,
-- one function for each stretch between two waits.
use mathlib.Core.List
use openworkers_runner.Common.{
  Bool, Option, false, if◌then◌else◌, is_some, nat_eq, none, some, string_eq, true, ℕ, ◌==◌,
}
use openworkers_runner.Common.Int.{int_eq, ℤ}
use openworkers_runner.Common.Lists.{is_empty}
use openworkers_runner.Common.Maps
use openworkers_runner.Common.Maps.{Map}
use openworkers_runner.Durable.Registry.{
  Entry, ObjectKey, Phase, State, Task, key_eq, loading, release, returned, serving, set_phase,
  waiting,
}

-- The `done` channel of the earlier task closes: its `Running` is dropped.
unfoldable pub begin_load : ℕ → State → State
begin_load g s = elim (Maps.lookup g s.tasks) [
  | none ↦ s
  | some t ↦ elim t.phase [
    | waiting previous ↦
        if is_some (Maps.lookup previous s.tasks)
        then s
        else record s { tasks = Maps.adjust g (set_phase loading) s.tasks }
    | _ ↦ s
  ]
]

abbrev pub set_version : ℕ → ℤ → Entry → Entry
set_version g version entry =
    if entry.generation == g then record entry { version = some version } else entry

-- `load` gives the worker: its entry, if it is still there, gets the version.
unfoldable pub loaded : ℕ → ℤ → State → State
loaded g version s = elim (Maps.lookup g s.tasks) [
  | none ↦ s
  | some t ↦ elim t.phase [
    | loading ↦ record s {
      registry = record (s.registry) {
        objects = Maps.adjust t.key (set_version g version) s.registry.objects;
      };
      tasks = Maps.adjust g (set_phase serving) s.tasks;
    }
    | _ ↦ s
  ]
]

-- `load` fails: `serve` returns, and its mailbox closes with what it holds.
unfoldable pub load_failed : ℕ → State → State
load_failed g s = elim (Maps.lookup g s.tasks) [
  | none ↦ s
  | some t ↦ elim t.phase [
    | loading ↦ record s { tasks = Maps.adjust g (set_phase returned) s.tasks }
    | _ ↦ s
  ]
]

abbrev pub pop_event : Task → Task
pop_event t = record t { mailbox = List.tail t.mailbox }

-- The task takes the first event of its mailbox, by `try_recv` or as the instance runs.
unfoldable pub take_event : ℕ → State → State
take_event g s = elim (Maps.lookup g s.tasks) [
  | none ↦ s
  | some t ↦ elim t.phase [ serving ↦ record s { tasks = Maps.adjust g pop_event s.tasks } | _ ↦ s ]
]

abbrev pub forget : ℕ → ObjectKey → Map ObjectKey Entry → Map ObjectKey Entry
forget g key objects = elim (Maps.lookup key objects) [
  | none ↦ objects
  | some entry ↦ if entry.generation == g then Maps.remove key objects else objects
]

-- `leave`, and the return from `serve` where it answers true.
unfoldable pub leave : ℕ → State → State × Bool
leave g s = elim (Maps.lookup g s.tasks) [
  | none ↦ (s, false)
  | some t ↦ elim t.phase [
    | serving ↦
        if is_empty t.mailbox
        then (
          record s {
            registry = record (s.registry) { objects = forget g t.key s.registry.objects };
            tasks = Maps.adjust g (set_phase returned) s.tasks;
          },
          true,
        )
        else (s, false)
    | _ ↦ (s, false)
  ]
]

abbrev pub is_waiting : Phase → Bool
is_waiting (waiting _) = true
is_waiting _ = false

abbrev pub unretire : ℕ → ObjectKey → Map ObjectKey ℕ → Map ObjectKey ℕ
unretire g key retiring = elim (Maps.lookup key retiring) [
  | none ↦ retiring
  | some generation ↦ if generation == g then Maps.remove key retiring else retiring
]

-- The drop of `Running`, once the task is past its wait; `none` is a panic of `release`.
unfoldable pub drop_running : ℕ → State → Option State
drop_running g s = elim (Maps.lookup g s.tasks) [
  | none ↦ some s
  | some t ↦
      if is_waiting t.phase then some s else elim (release t.key.namespace s.registry.running) [
        | none ↦ none
        | some running ↦ elim (release t.account s.registry.accounts) [
          | none ↦ none
          | some accounts ↦ some (record s {
            registry = record (s.registry) {
              running = running;
              accounts = accounts;
              retiring = unretire g t.key s.registry.retiring;
            };
            tasks = Maps.remove g s.tasks;
          })
        ]
      ]
]
