-- ===== src/Durable/Registry/Quiet.antt =====
-- src/durable/mod.rs, `stop_namespace`, and what can follow it.
use mathlib.Core.Option.{some-injective}
use mathlib.Core.Path.{subst}
use openworkers_runner.Common.{
  Bool, Bool-cases, List, Option-cases, String, [], arith, eq_iff, false, inl, inr, nat_eq, refl,
  some, string_eq, true, ℕ, ◌+◌, ◌<◌, ◌^◌, ◌∷◌, ◌≡◌, ◌≤◌, ◌⊎◌,
}
use openworkers_runner.Common.Lists.{contains, length}
use openworkers_runner.Common.Maps
use openworkers_runner.Common.Maps.{Map, Unique}
use openworkers_runner.Common.Maps.Counting.{count, count-adjust}
use openworkers_runner.Common.Int.{int_eq, ℤ}
use openworkers_runner.Durable.Registry.{
  Event, NamespaceConfig, ObjectKey, State, Task, accepts, admit, admit_new, deliver, init, key_eq,
  loading, returned, serving, set_phase, start, too_many,
}
use openworkers_runner.Durable.Registry.Serve.{
  begin_load, drop_running, leave, load_failed, loaded, pop_event, take_event,
}
use openworkers_runner.Durable.Registry.Deploy.{stop_namespace}
use openworkers_runner.Durable.Registry.Retire.{retire-Retired}
use openworkers_runner.Durable.Registry.Invariant.{Inv, in_namespace}
use openworkers_runner.Durable.Registry.Steps.{
  Step, admits, begins, ends, fails, leaves, loads, retires, run, step, stops, takes,
}
use openworkers_runner.Durable.Registry.Preserve.{step-Inv, stop_namespace-Inv}
use openworkers_runner.Durable.Registry.Safety.{reached_within}

-- The namespace is stopped and has no task.
record IsQuiet (n : String) (s : State) : Type 0 where
  stopped : contains n s.registry.stopped ≡ true
  none_runs : count (in_namespace n) s.tasks ≡ 0

count-remove_le :
    (p : Task → Bool) (g : ℕ) (tasks : Map ℕ Task) → count p (Maps.remove g tasks) ≤ count p tasks
unfolding count Maps.remove
count-remove_le p g [] = omega arith
count-remove_le p g ((h, t) ∷ tasks) = ground (arith, count-remove_le p g tasks)

written-IsQuiet :
    (n : String) (g : ℕ) (f : Task → Task) (s s' : State)
    → ((t : Task) → (f t).key ≡ t.key)
    → s'.registry.stopped ≡ s.registry.stopped
    → (s'.tasks ≡ s.tasks) ⊎ (s'.tasks ≡ Maps.adjust g f s.tasks)
    → IsQuiet n s
    → IsQuiet n s'
written-IsQuiet n g f s s' key stopped tasks q = record {
  stopped = rw stopped q.stopped;
  none_runs =
      ground
        (arith, tasks, q.none_runs, count-adjust (in_namespace n) g f s.tasks (λ t. rw (key t)));
}

start-IsQuiet :
    (n : String) (namespace : NamespaceConfig) (key : ObjectKey) (depth : ℕ) (event : Event)
    (s : State)
    → contains key.namespace s.registry.stopped ≡ false
    → IsQuiet n s
    → IsQuiet n (start namespace key depth event s)
unfolding start Maps.insert count
start-IsQuiet n namespace key depth event s going q = record {
  stopped = q.stopped;
  none_runs = ground (
    arith,
    q.stopped,
    q.none_runs,
    eq_iff key.namespace n,
    count-remove_le (in_namespace n) s.generation s.tasks,
  );
}

admit_new-IsQuiet :
    (n : String) (namespace : NamespaceConfig) (key : ObjectKey) (depth : ℕ) (event : Event)
    (s : State)
    → contains key.namespace s.registry.stopped ≡ false
    → IsQuiet n s
    → IsQuiet n (admit_new namespace key depth event s).0
unfolding admit_new
admit_new-IsQuiet n namespace key depth event s going q = elim (Bool-cases (too_many namespace s)) [
  | inl full ↦ rw full q
  | inr free ↦ rw free (start-IsQuiet n namespace key depth event s going q)
]

admit-IsQuiet :
    (n : String) (namespace : NamespaceConfig) (id : String) (depth : ℕ) (event : Event) (s : State)
    → IsQuiet n s
    → IsQuiet n (admit namespace id depth event s).0
unfolding admit
admit-IsQuiet n namespace id depth event s q =
    elim (Bool-cases (contains namespace.id s.registry.stopped)) [
      | inl stopped ↦ rw stopped q
      | inr going ↦ rw going (elim (Option-cases (Maps.lookup key s.registry.objects)) [
        | inl missing ↦
            rw (missing, admit) (admit_new-IsQuiet n namespace key depth event s going q)
        | inr (e, found) ↦ elim (Bool-cases (accepts e.generation s.tasks)) [
          | inl there ↦
              rw (found, admit)
                (rw there (
                  written-IsQuiet n e.generation (deliver event depth) s _ (λ t. refl) refl
                    (inr refl) q))
          | inr closed ↦
              rw (found, admit)
                (rw closed (admit_new-IsQuiet n namespace key depth event s going q))
        ]
      ])
    ]
  where
    key : ObjectKey
    key = record { namespace = namespace.id; id = id }

drop_running-IsQuiet :
    (n : String) (g : ℕ) (s : State) {s' : State}
    → drop_running g s ≡ some s'
    → IsQuiet n s
    → IsQuiet n s'
unfolding drop_running
drop_running-IsQuiet n g s h q = record {
  stopped = ground (arith, q.stopped);
  none_runs = ground (arith, q.none_runs, count-remove_le (in_namespace n) g s.tasks);
}

module _ (n : String) (g : ℕ) (s : State) (q : IsQuiet n s) where
  begin_load-IsQuiet : IsQuiet n (begin_load g s)
  unfolding begin_load
  begin_load-IsQuiet =
      written-IsQuiet n g (set_phase loading) s _ (λ t. refl) (ground arith) (ground arith) q

  loaded-IsQuiet : (version : ℤ) → IsQuiet n (loaded g version s)
  unfolding loaded
  loaded-IsQuiet version =
      written-IsQuiet n g (set_phase serving) s _ (λ t. refl) (ground arith) (ground arith) q

  load_failed-IsQuiet : IsQuiet n (load_failed g s)
  unfolding load_failed
  load_failed-IsQuiet =
      written-IsQuiet n g (set_phase returned) s _ (λ t. refl) (ground arith) (ground arith) q

  take_event-IsQuiet : IsQuiet n (take_event g s)
  unfolding take_event
  take_event-IsQuiet = written-IsQuiet n g pop_event s _ (λ t. refl) (ground arith) (ground arith) q

  leave-IsQuiet : IsQuiet n (leave g s).0
  unfolding leave
  leave-IsQuiet =
      written-IsQuiet n g (set_phase returned) s _ (λ t. refl) (ground arith) (ground arith) q

stop_namespace-IsQuiet : (n m : String) (s : State) → IsQuiet n s → IsQuiet n (stop_namespace m s).0
unfolding stop_namespace
stop_namespace-IsQuiet n m s q = record {
  stopped = ground (arith, q.stopped);
  none_runs = q.none_runs;
}

step-IsQuiet :
    (n : String) (c : Step) (s s' : State)
    → Unique s.registry.objects
    → step c s ≡ some s'
    → IsQuiet n s
    → IsQuiet n s'
unfolding step
step-IsQuiet n (admits namespace id depth event) s s' u e q =
    subst (IsQuiet n) (some-injective _ _ e) (admit-IsQuiet n namespace id depth event s q)
step-IsQuiet n (begins g) s s' u e q =
    subst (IsQuiet n) (some-injective _ _ e) (begin_load-IsQuiet n g s q)
step-IsQuiet n (loads g version) s s' u e q =
    subst (IsQuiet n) (some-injective _ _ e) (loaded-IsQuiet n g s q version)
step-IsQuiet n (fails g) s s' u e q =
    subst (IsQuiet n) (some-injective _ _ e) (load_failed-IsQuiet n g s q)
step-IsQuiet n (takes g) s s' u e q =
    subst (IsQuiet n) (some-injective _ _ e) (take_event-IsQuiet n g s q)
step-IsQuiet n (leaves g) s s' u e q =
    subst (IsQuiet n) (some-injective _ _ e) (leave-IsQuiet n g s q)
step-IsQuiet n (ends g) s s' u e q = drop_running-IsQuiet n g s e q
step-IsQuiet n (retires worker_id version) s s' u e q =
    let (t, done, r) = retire-Retired worker_id version s u in
    let same : t ≡ s' = ground arith in
    subst (IsQuiet n) same
      (record { stopped = rw r.stopped q.stopped; none_runs = rw r.tasks q.none_runs })
step-IsQuiet n (stops m) s s' u e q =
    subst (IsQuiet n) (some-injective _ _ e) (stop_namespace-IsQuiet n m s q)

run-IsQuiet :
    (n : String) (cs : List Step) (s s' : State)
    → s.generation + length cs < 2 ^ 64
    → Inv s
    → run cs s ≡ some s'
    → IsQuiet n s
    → IsQuiet n s'
unfolding run
run-IsQuiet n [] s s' room v e q = subst (IsQuiet n) (some-injective _ _ e) q
run-IsQuiet n (c ∷ cs) s s' room v e q =
    let (t, done, w, more) = step-Inv c s (omega arith) v in
    run-IsQuiet n cs t s' (omega arith) w (ground arith)
      (step-IsQuiet n c s t v.fresh.unique done q)

IsQuiet-stop_namespace :
    (n : String) (s : State)
    → Inv s
    → (stop_namespace n s).1 ≡ true
    → IsQuiet n (stop_namespace n s).0
unfolding stop_namespace
IsQuiet-stop_namespace n s v done = record {
  stopped = ground (arith, eq_iff n n);
  none_runs = ground (arith, v.counts.running n);
}

-- Once `stop_namespace` answers that none of the objects of a namespace runs, no task of the
-- namespace runs in any later state, whatever is asked of the registry, so its files can go.
pub stop_namespace_final :
    (n : String) (cs ds : List Step) (s s' : State)
    → length cs + length ds < 2 ^ 64
    → run cs init ≡ some s
    → (stop_namespace n s).1 ≡ true
    → run ds (stop_namespace n s).0 ≡ some s'
    → (contains n s'.registry.stopped ≡ true) × (count (in_namespace n) s'.tasks ≡ 0)
stop_namespace_final n cs ds s s' room e done later =
    let (v, bound) = reached_within cs s (omega arith) e in
    let q : IsQuiet n (stop_namespace n s).0 = IsQuiet-stop_namespace n s v done in
    let r : IsQuiet n s' =
      run-IsQuiet n ds (stop_namespace n s).0 s' (unfold stop_namespace in omega (arith, bound))
        (stop_namespace-Inv n s v) later q in
    (r.stopped, r.none_runs)
