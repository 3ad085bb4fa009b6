-- ===== src/Durable/Registry/Fresh.antt =====
-- src/durable/mod.rs: the numbers of generations, and the keys of the entries.
use openworkers_runner.Common.{
  Option-cases, String, arith, inl, inr, nat_eq, not, some, string_eq, ℕ, ◌+◌, ◌<◌, ◌==◌, ◌^◌, ◌≡◌,
}
use openworkers_runner.Common.Maps
use openworkers_runner.Common.Maps.Counting.{Unique-adjust, Unique-insert, Unique-remove}
use openworkers_runner.Common.Int.{int_eq, ℤ}
use openworkers_runner.Durable.Registry.{
  Event, NamespaceConfig, ObjectKey, State, Task, deliver, key_eq, loading, new_entry, new_task,
  returned, serving, set_phase, start,
}
use openworkers_runner.Durable.Registry.Serve.{
  begin_load, drop_running, leave, load_failed, loaded, pop_event, set_version, take_event,
}
use openworkers_runner.Durable.Registry.Deploy.{stop_namespace}
use openworkers_runner.Durable.Registry.Retire.{Retired}
use openworkers_runner.Durable.Registry.Exclusive.{forget-some, loaded-entry}
use openworkers_runner.Durable.Registry.Invariant.{IsFresh}

pub adjust-IsFresh :
    (g : ℕ) (f : Task → Task) (s : State)
    → IsFresh s
    → IsFresh (record s { tasks = Maps.adjust g f s.tasks })
adjust-IsFresh g f s v = record {
  tasks = λ a h. ground (arith, Maps.lookup-adjust g a f s.tasks, v.tasks a);
  entries = v.entries;
  unique = v.unique;
}

pub deliver-IsFresh :
    (g depth : ℕ) (event : Event) (s : State)
    → IsFresh s
    → IsFresh (record s { tasks = Maps.adjust g (deliver event depth) s.tasks })
deliver-IsFresh g depth event s v = adjust-IsFresh g (deliver event depth) s v

pub take_event-IsFresh : (g : ℕ) (s : State) → IsFresh s → IsFresh (take_event g s)
unfolding take_event
take_event-IsFresh g s v = ground (arith, adjust-IsFresh g pop_event s v)

pub load_failed-IsFresh : (g : ℕ) (s : State) → IsFresh s → IsFresh (load_failed g s)
unfolding load_failed
load_failed-IsFresh g s v = ground (arith, adjust-IsFresh g (set_phase returned) s v)

pub begin_load-IsFresh : (g : ℕ) (s : State) → IsFresh s → IsFresh (begin_load g s)
unfolding begin_load
begin_load-IsFresh g s v = ground (arith, adjust-IsFresh g (set_phase loading) s v)

pub loaded-IsFresh : (g : ℕ) (version : ℤ) (s : State) → IsFresh s → IsFresh (loaded g version s)
unfolding loaded
loaded-IsFresh g version s v = record {
  tasks = λ a h. ground (arith, Maps.lookup-adjust g a (set_phase serving) s.tasks, v.tasks a);
  entries = λ k e h.
      let (before, found, same, _) = loaded-entry g version s k e h in
      ground (arith, v.entries k before found);
  unique = elim (Option-cases (Maps.lookup g s.tasks)) [
    | inl gone ↦ ground (arith, v.unique)
    | inr (t, found) ↦
        ground
          (arith, v.unique, Unique-adjust t.key (set_version g version) s.registry.objects v.unique)
  ];
}

pub leave-IsFresh : (g : ℕ) (s : State) → IsFresh s → IsFresh (leave g s).0
unfolding leave
leave-IsFresh g s v = record {
  tasks = λ a h. ground (arith, Maps.lookup-adjust g a (set_phase returned) s.tasks, v.tasks a);
  entries = λ k e h. elim (Option-cases (Maps.lookup g s.tasks)) [
    | inl gone ↦ ground (arith, v.entries k e)
    | inr (t, found) ↦ ground (arith, forget-some g t.key k s.registry.objects e, v.entries k e)
  ];
  unique = elim (Option-cases (Maps.lookup g s.tasks)) [
    | inl gone ↦ ground (arith, v.unique)
    | inr (t, found) ↦ ground (arith, v.unique, Unique-remove t.key s.registry.objects v.unique)
  ];
}

pub drop_running-IsFresh :
    (g : ℕ) (s : State) {s' : State} → drop_running g s ≡ some s' → IsFresh s → IsFresh s'
unfolding drop_running
drop_running-IsFresh g s {s'} h v = record {
  tasks = λ a p. ground (arith, Maps.lookup-remove g a s.tasks, v.tasks a);
  entries = λ k e p. ground (arith, v.entries k e);
  unique = ground (arith, v.unique);
}

pub stop_namespace-IsFresh : (n : String) (s : State) → IsFresh s → IsFresh (stop_namespace n s).0
unfolding stop_namespace
stop_namespace-IsFresh n s v = record {
  tasks = v.tasks;
  entries = λ k e p. ground (
    arith,
    Maps.lookup-retain_key (λ key. not (key.namespace == n)) k s.registry.objects,
    v.entries k e,
  );
  unique = Maps.Unique-retain (λ key _. not (key.namespace == n)) s.registry.objects v.unique;
}

pub Retired-IsFresh :
    (worker_id : String) (version : ℤ) (s s' : State)
    → Retired worker_id version s s'
    → IsFresh s
    → IsFresh s'
Retired-IsFresh worker_id version s s' r v = record {
  tasks = λ a h. ground (arith, r.tasks, r.generation, v.tasks a);
  entries = λ k e h. ground (arith, r.objects k, r.generation, v.entries k e);
  unique = r.unique;
}

pub start-IsFresh :
    (namespace : NamespaceConfig) (key : ObjectKey) (depth : ℕ) (event : Event) (s : State)
    → s.generation + 1 < 2 ^ 64
    → IsFresh s
    → IsFresh (start namespace key depth event s)
unfolding start
start-IsFresh namespace key depth event s room v = record {
  tasks = λ a h. ground (
    arith,
    Maps.lookup-insert s.generation a
        (new_task namespace key depth event (Maps.lookup key s.registry.retiring)) s.tasks,
    v.tasks a,
  );
  entries = λ k e h. ground (
    arith,
    Maps.lookup-insert key k (new_entry namespace s.generation) s.registry.objects,
    v.entries k e,
  );
  unique = Unique-insert key (new_entry namespace s.generation) s.registry.objects v.unique;
}
