-- ===== src/Durable/Registry/Preserve.antt =====
-- src/durable/mod.rs, `mod registry`: the invariant, step by step.
use openworkers_runner.Common.{
  Bool-cases, List, Option-cases, String, [], arith, inl, inr, nat_eq, none, refl, some, string_eq,
  ℕ, ◌+◌, ◌<◌, ◌^◌, ◌∷◌, ◌≡◌, ◌≤◌,
}
use openworkers_runner.Common.Lists.{contains, length}
use openworkers_runner.Common.Maps
use openworkers_runner.Common.Int.{int_eq, ℤ}
use openworkers_runner.Durable.Registry.{
  Event, NamespaceConfig, ObjectKey, State, accepts, admit, admit_new, deliver, key_eq, loading,
  returned, serving, set_phase, start, too_many,
}
use openworkers_runner.Durable.Registry.Serve.{
  begin_load, leave, load_failed, loaded, pop_event, take_event,
}
use openworkers_runner.Durable.Registry.Deploy.{stop_namespace}
use openworkers_runner.Durable.Registry.Retire.{Retired, retire-Retired}
use openworkers_runner.Durable.Registry.Exclusive.{
  begin_load-IsExclusive, leave-IsExclusive, load_failed-IsExclusive, loaded-IsExclusive,
  take_event-IsExclusive,
}
use openworkers_runner.Durable.Registry.Ends.{
  Retired-IsExclusive, drop_running-IsExclusive, stop_namespace-IsExclusive,
}
use openworkers_runner.Durable.Registry.Starts.{
  CanStart, CanStart-of_closed, CanStart-of_missing, deliver-IsExclusive, start-IsExclusive,
}
use openworkers_runner.Durable.Registry.Fresh.{
  Retired-IsFresh, begin_load-IsFresh, deliver-IsFresh, drop_running-IsFresh, leave-IsFresh,
  load_failed-IsFresh, loaded-IsFresh, start-IsFresh, stop_namespace-IsFresh, take_event-IsFresh,
}
use openworkers_runner.Durable.Registry.Counts.{
  drop_running-total, start-IsCounted, written-IsCounted,
}
use openworkers_runner.Durable.Registry.Invariant.{Inv}
use openworkers_runner.Durable.Registry.Steps.{
  Step, admits, begins, ends, fails, leaves, loads, retires, run, step, stops, takes,
}

deliver-Inv :
    (g depth : ℕ) (event : Event) (s : State)
    → Inv s
    → Inv (record s { tasks = Maps.adjust g (deliver event depth) s.tasks })
deliver-Inv g depth event s v = record {
  counts =
      written-IsCounted g (deliver event depth) (λ t. refl) (λ t. refl) s _ refl refl (inr refl)
        v.counts;
  fresh = deliver-IsFresh g depth event s v.fresh;
  exclusive = deliver-IsExclusive g depth event s v.exclusive;
}

-- The counter names no task yet.
unused : (s : State) → Inv s → Maps.lookup s.generation s.tasks ≡ none
unused s v = ground (arith, v.fresh.tasks s.generation)

admit_new-Inv :
    (namespace : NamespaceConfig) (key : ObjectKey) (depth : ℕ) (event : Event) (s : State)
    → s.generation + 1 < 2 ^ 64
    → CanStart key s
    → Inv s
    → Inv (admit_new namespace key depth event s).0
unfolding admit_new
admit_new-Inv namespace key depth event s room c v = elim (Bool-cases (too_many namespace s)) [
  | inl full ↦ rw full v
  | inr free ↦ rw free (record {
    counts = start-IsCounted namespace key depth event s (unused s v) free v.counts;
    fresh = start-IsFresh namespace key depth event s room v.fresh;
    exclusive = start-IsExclusive namespace key depth event s v.fresh c v.exclusive;
  })
]

admit-Inv :
    (namespace : NamespaceConfig) (id : String) (depth : ℕ) (event : Event) (s : State)
    → s.generation + 1 < 2 ^ 64
    → Inv s
    → Inv (admit namespace id depth event s).0
unfolding admit
admit-Inv namespace id depth event s room v =
    elim (Bool-cases (contains namespace.id s.registry.stopped)) [
      | inl stopped ↦ rw stopped v
      | inr going ↦ rw going (elim (Option-cases (Maps.lookup key s.registry.objects)) [
        | inl missing ↦
            rw (missing, admit)
              (admit_new-Inv namespace key depth event s room
                (CanStart-of_missing key s going missing v.exclusive) v)
        | inr (e, found) ↦ elim (Bool-cases (accepts e.generation s.tasks)) [
          | inl there ↦ rw (found, admit) (rw there (deliver-Inv e.generation depth event s v))
          | inr closed ↦
              rw (found, admit)
                (rw closed (
                  admit_new-Inv namespace key depth event s room
                    (CanStart-of_closed key e s found closed v.exclusive) v))
        ]
      ])
    ]
  where
    key : ObjectKey
    key = record { namespace = namespace.id; id = id }

admit-generation :
    (namespace : NamespaceConfig) (id : String) (depth : ℕ) (event : Event) (s : State)
    → (admit namespace id depth event s).0.generation ≤ s.generation + 1
unfolding admit admit_new start
admit-generation namespace id depth event s = ground arith

begin_load-Inv : (g : ℕ) (s : State) → Inv s → Inv (begin_load g s)
unfolding begin_load
begin_load-Inv g s v = record {
  counts =
      written-IsCounted g (set_phase loading) (λ t. refl) (λ t. refl) s _ (ground arith)
        (ground arith) (ground arith) v.counts;
  fresh = begin_load-IsFresh g s v.fresh;
  exclusive = begin_load-IsExclusive g s v.exclusive;
}

loaded-Inv : (g : ℕ) (version : ℤ) (s : State) → Inv s → Inv (loaded g version s)
unfolding loaded
loaded-Inv g version s v = record {
  counts =
      written-IsCounted g (set_phase serving) (λ t. refl) (λ t. refl) s _ (ground arith)
        (ground arith) (ground arith) v.counts;
  fresh = loaded-IsFresh g version s v.fresh;
  exclusive = loaded-IsExclusive g version s v.exclusive;
}

load_failed-Inv : (g : ℕ) (s : State) → Inv s → Inv (load_failed g s)
unfolding load_failed
load_failed-Inv g s v = record {
  counts =
      written-IsCounted g (set_phase returned) (λ t. refl) (λ t. refl) s _ (ground arith)
        (ground arith) (ground arith) v.counts;
  fresh = load_failed-IsFresh g s v.fresh;
  exclusive = load_failed-IsExclusive g s v.exclusive;
}

take_event-Inv : (g : ℕ) (s : State) → Inv s → Inv (take_event g s)
unfolding take_event
take_event-Inv g s v = record {
  counts =
      written-IsCounted g pop_event (λ t. refl) (λ t. refl) s _ (ground arith) (ground arith)
        (ground arith) v.counts;
  fresh = take_event-IsFresh g s v.fresh;
  exclusive = take_event-IsExclusive g s v.exclusive;
}

leave-Inv : (g : ℕ) (s : State) → Inv s → Inv ((leave g s).0)
unfolding leave
leave-Inv g s v = record {
  counts =
      written-IsCounted g (set_phase returned) (λ t. refl) (λ t. refl) s _ (ground arith)
        (ground arith) (ground arith) v.counts;
  fresh = leave-IsFresh g s v.fresh;
  exclusive = leave-IsExclusive g s v.exclusive;
}

pub stop_namespace-Inv : (n : String) (s : State) → Inv s → Inv (stop_namespace n s).0
unfolding stop_namespace
stop_namespace-Inv n s v = record {
  counts = record {
    unique = v.counts.unique;
    running = v.counts.running;
    accounts = v.counts.accounts;
    capped = v.counts.capped;
  };
  fresh = stop_namespace-IsFresh n s v.fresh;
  exclusive = stop_namespace-IsExclusive n s v.exclusive;
}

Retired-Inv :
    (worker_id : String) (version : ℤ) (s s' : State)
    → Retired worker_id version s s'
    → Inv s
    → Inv s'
Retired-Inv worker_id version s s' r v = record {
  counts = record {
    unique = rw r.tasks v.counts.unique;
    running = λ n. rw (r.running, r.tasks) (v.counts.running n);
    accounts = λ a. rw (r.accounts, r.tasks) (v.counts.accounts a);
    capped = λ a. rw r.tasks (v.counts.capped a);
  };
  fresh = Retired-IsFresh worker_id version s s' r v.fresh;
  exclusive = Retired-IsExclusive worker_id version s s' r v.exclusive;
}

-- A step from a good state does not panic, leads to a good state, and counts one start at most.
pub step-Inv :
    (c : Step) (s : State)
    → s.generation + 1 < 2 ^ 64
    → Inv s
    → (s' : State) × (step c s ≡ some s') × Inv s' × (s'.generation ≤ s.generation + 1)
unfolding step
step-Inv (admits namespace id depth event) s room v = (
  _,
  refl,
  admit-Inv namespace id depth event s room v,
  admit-generation namespace id depth event s,
)
step-Inv (begins g) s room v = (_, refl, begin_load-Inv g s v, unfold begin_load in ground arith)
step-Inv (loads g version) s room v =
    (_, refl, loaded-Inv g version s v, unfold loaded in ground arith)
step-Inv (fails g) s room v = (_, refl, load_failed-Inv g s v, unfold load_failed in ground arith)
step-Inv (takes g) s room v = (_, refl, take_event-Inv g s v, unfold take_event in ground arith)
step-Inv (leaves g) s room v = (_, refl, leave-Inv g s v, unfold leave in ground arith)
step-Inv (ends g) s room v =
    let (s', done, counts, same, _) = drop_running-total g s v.counts in
    (
      s',
      done,
      record {
        counts = counts;
        fresh = drop_running-IsFresh g s done v.fresh;
        exclusive = drop_running-IsExclusive g s done v.exclusive;
      },
      omega (arith, same),
    )
step-Inv (retires worker_id version) s room v =
    let (s', done, r) = retire-Retired worker_id version s v.fresh.unique in
    (s', rw done, Retired-Inv worker_id version s s' r v, omega (arith, r.generation))
step-Inv (stops n) s room v =
    (_, refl, stop_namespace-Inv n s v, unfold stop_namespace in omega arith)

pub run_from-Inv :
    (cs : List Step) (s : State)
    → s.generation + length cs < 2 ^ 64
    → Inv s
    → (s' : State) × (run cs s ≡ some s') × Inv s' × (s'.generation ≤ s.generation + length cs)
unfolding run
run_from-Inv [] s room v = (s, refl, v, omega arith)
run_from-Inv (c ∷ cs) s room v =
    let (t, done, w, more) = step-Inv c s (omega arith) v in
    let (s', rest, x, bound) = run_from-Inv cs t (omega arith) w in
    (s', rw (done, run) rest, x, omega arith)
