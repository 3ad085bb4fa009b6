-- ===== src/Durable/Registry/Starts.antt =====
-- src/durable/mod.rs, `admit`: an event for a running object, and the start of another one.
use openworkers_runner.Common.{
  arith, false, if◌then◌else◌, nat_eq, none, some, string_eq, true, ℕ, ◌==◌, ◌≡◌,
}
use openworkers_runner.Common.Lists.{contains}
use openworkers_runner.Common.Maps
use openworkers_runner.Common.Int.{int_eq}
use openworkers_runner.Durable.Registry.{
  Entry, Event, NamespaceConfig, ObjectKey, State, Task, accepts, deliver, key_eq, key_eqb_iff,
  new_entry, new_task, start,
}
use openworkers_runner.Durable.Registry.Invariant.{IsExclusive, IsFresh, active, waits}

pub deliver-IsExclusive :
    (g depth : ℕ) (event : Event) (s : State)
    → IsExclusive s
    → IsExclusive (record s { tasks = Maps.adjust g (deliver event depth) s.tasks })
deliver-IsExclusive g depth event s v = record {
  ordered = λ k a b p q l. ground (
    arith,
    Maps.lookup-adjust g a (deliver event depth) s.tasks,
    Maps.lookup-adjust g b (deliver event depth) s.tasks,
    v.ordered k a b,
  );
  entry = λ k e a p q. ground (
    arith,
    Maps.lookup-adjust g a (deliver event depth) s.tasks,
    Maps.lookup-adjust g e.generation (deliver event depth) s.tasks,
    v.entry k e a,
  );
  orphan = λ k a p q r.
      ground (arith, Maps.lookup-adjust g a (deliver event depth) s.tasks, v.orphan k a);
  versioned = λ k e p q.
      ground
        (arith, Maps.lookup-adjust g e.generation (deliver event depth) s.tasks, v.versioned k e);
  owner = λ k e p.
      ground (arith, Maps.lookup-adjust g e.generation (deliver event depth) s.tasks, v.owner k e);
}

-- Where no entry takes the event, the only open task of the key retires.
abbrev pub CanStart : ObjectKey → State → Type 0
CanStart key s =
    (g : ℕ)
    → active key (Maps.lookup g s.tasks) ≡ true
    → (Maps.lookup key s.registry.retiring ≡ some g) × (waits (Maps.lookup g s.tasks) ≡ false)

pub CanStart-of_missing :
    (key : ObjectKey) (s : State)
    → contains key.namespace s.registry.stopped ≡ false
    → Maps.lookup key s.registry.objects ≡ none
    → IsExclusive s
    → CanStart key s
CanStart-of_missing key s going missing v g p = v.orphan key g missing going p

pub CanStart-of_closed :
    (key : ObjectKey) (e : Entry) (s : State)
    → Maps.lookup key s.registry.objects ≡ some e
    → accepts e.generation s.tasks ≡ false
    → IsExclusive s
    → CanStart key s
CanStart-of_closed key e s found closed v g p = ground (arith, v.entry key e g)

module _ (namespace : NamespaceConfig) (key : ObjectKey) (depth : ℕ) (event : Event)
    (s : State) where
  started_task : Task
  started_task = new_task namespace key depth event (Maps.lookup key s.registry.retiring)

  -- The lookups of the state after a start, from those before.
  lookup-start :
      (a : ℕ)
      → Maps.lookup a (start namespace key depth event s).tasks
        ≡ (if s.generation == a then some started_task else Maps.lookup a s.tasks)
  unfolding start started_task
  lookup-start a = Maps.lookup-insert s.generation a _ s.tasks

  pub start-IsExclusive :
      IsFresh s → CanStart key s → IsExclusive s → IsExclusive (start namespace key depth event s)
  unfolding start started_task
  start-IsExclusive f c v = record {
    ordered = λ k a b p q l. ground (
      arith,
      lookup-start a,
      lookup-start b,
      key_eqb_iff key k,
      f.tasks a,
      f.tasks b,
      c a,
      v.ordered k a b,
    );
    entry = λ k e a p q. ground (
      arith,
      lookup-start a,
      lookup-start e.generation,
      key_eqb_iff key k,
      Maps.lookup-insert key k (new_entry namespace s.generation) s.registry.objects,
      f.entries k e,
      c a,
      v.entry k e a,
    );
    orphan = λ k a p q r. ground (
      arith,
      lookup-start a,
      key_eqb_iff key k,
      Maps.lookup-insert key k (new_entry namespace s.generation) s.registry.objects,
      Maps.lookup-remove key k s.registry.retiring,
      v.orphan k a,
    );
    versioned = λ k e p q. ground (
      arith,
      lookup-start e.generation,
      key_eqb_iff key k,
      Maps.lookup-insert key k (new_entry namespace s.generation) s.registry.objects,
      f.entries k e,
      v.versioned k e,
    );
    owner = λ k e p. ground (
      arith,
      lookup-start e.generation,
      key_eqb_iff key k,
      Maps.lookup-insert key k (new_entry namespace s.generation) s.registry.objects,
      f.entries k e,
      v.owner k e,
    );
  }
