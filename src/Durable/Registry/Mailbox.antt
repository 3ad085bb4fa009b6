-- ===== src/Durable/Registry/Mailbox.antt =====
-- src/durable/mod.rs, `admit` and `leave`: which task takes an event, and when none is left.
use openworkers_runner.Common.{
  Bool, Bool-cases, List, Option-cases, Result, String, [], arith, err, false, inl, inr, nat_eq, ok,
  refl, some, string_eq, true, ℕ, ◌++◌, ◌<◌, ◌^◌, ◌∷◌, ◌≡◌, ◌⊎◌,
}
use openworkers_runner.Common.Lists.{contains, length}
use openworkers_runner.Common.Maps
use openworkers_runner.Common.Maps.Counting.{count}
use openworkers_runner.Common.Int.{int_eq}
use openworkers_runner.Durable.Depths.{CallDepths, enter}
use openworkers_runner.Durable.Registry.{
  Event, NamespaceConfig, ObjectKey, Phase, State, Task, accepts, admit, admit_new, deliver, init,
  is_open, key_eq, key_eqb_iff, max_resident_per_account, new_task, serving, start, too_many,
}
use openworkers_runner.Durable.Registry.Invariant.{Inv, IsCounted, of_account, owned}
use openworkers_runner.Durable.Registry.Counts.{get_or-counted}
use openworkers_runner.Durable.Registry.Steps.{Step, run}
use openworkers_runner.Durable.Registry.Safety.{reached-Inv}

-- The event is the last in the mailbox of an open task of the object, counted at its depth.
pub record IsTaken (key : ObjectKey) (depth : ℕ) (event : Event) (g : ℕ) (s : State) : Type 0 where
  pub task : Task
  pub found : Maps.lookup g s.tasks ≡ some task
  pub of_key : task.key ≡ key
  pub is_there : is_open task.phase ≡ true
  pub before : List Event
  pub last : task.mailbox ≡ before ++ event ∷ []
  pub depths_before : CallDepths
  pub counted_at : task.depths ≡ enter depth depths_before

-- Why `admit` refuses: the namespace is stopped, or the account runs all it may.
abbrev pub Refusal : NamespaceConfig → State → Type 0
Refusal namespace s =
    (contains namespace.id s.registry.stopped ≡ true)
    ⊎ (count (of_account namespace.user_id) s.tasks ≡ max_resident_per_account)

-- What `admit` does: it takes the event, or refuses it and changes nothing.
abbrev pub Admitted :
    NamespaceConfig → ObjectKey → ℕ → Event → State → State × Result ℕ String → Type 0
Admitted namespace key depth event s (s', ok g) = IsTaken key depth event g s'
Admitted namespace key depth event s (s', err m) = (s' ≡ s) × Refusal namespace s

admit_new-Admitted :
    (namespace : NamespaceConfig) (key : ObjectKey) (depth : ℕ) (event : Event) (s : State)
    → IsCounted s
    → Admitted namespace key depth event s (admit_new namespace key depth event s)
unfolding admit_new start
admit_new-Admitted namespace key depth event s v = elim (Bool-cases (too_many namespace s)) [
  | inl full ↦ rw full (
    refl,
    inr (
        ground (
          arith,
          v.capped namespace.user_id,
          v.accounts namespace.user_id,
          get_or-counted (count (of_account namespace.user_id) s.tasks),
        )),
  )
  | inr free ↦ rw free (record {
    task = new_task namespace key depth event (Maps.lookup key s.registry.retiring);
    found = ground (
      arith,
      Maps.lookup-insert s.generation s.generation
          (new_task namespace key depth event (Maps.lookup key s.registry.retiring)) s.tasks,
    );
    of_key = refl;
    is_there = ground arith;
    before = [];
    last = refl;
    depths_before = [];
    counted_at = refl;
  })
]

deliver-IsTaken :
    (key : ObjectKey) (depth g : ℕ) (event : Event) (s : State)
    → accepts g s.tasks ≡ true
    → owned key (Maps.lookup g s.tasks) ≡ true
    → IsTaken key depth event g (record s { tasks = Maps.adjust g (deliver event depth) s.tasks })
deliver-IsTaken key depth g event s there own = elim (Option-cases (Maps.lookup g s.tasks)) [
  | inl gone ↦ absurd (ground arith)
  | inr (t, found) ↦ record {
    task = deliver event depth t;
    found = ground (arith, Maps.lookup-adjust g g (deliver event depth) s.tasks);
    of_key = ground (arith, key_eqb_iff t.key key);
    is_there = ground arith;
    before = t.mailbox;
    last = refl;
    depths_before = t.depths;
    counted_at = refl;
  }
]

admit-Admitted :
    (namespace : NamespaceConfig) (id : String) (depth : ℕ) (event : Event) (s : State)
    → Inv s
    → Admitted namespace
        (record { namespace = namespace.id; id = id })
        depth
        event
        s
        (admit namespace id depth event s)
unfolding admit
admit-Admitted namespace id depth event s v =
    elim (Bool-cases (contains namespace.id s.registry.stopped)) [
      | inl stopped ↦ rw stopped (refl, inl stopped)
      | inr going ↦ rw going (elim (Option-cases (Maps.lookup key s.registry.objects)) [
        | inl missing ↦
            rw (missing, admit) (admit_new-Admitted namespace key depth event s v.counts)
        | inr (e, found) ↦ elim (Bool-cases (accepts e.generation s.tasks)) [
          | inl there ↦
              rw (found, admit)
                (rw there (
                  deliver-IsTaken key depth e.generation event s there
                    (v.exclusive.owner key e found)))
          | inr closed ↦
              rw (found, admit)
                (rw closed (admit_new-Admitted namespace key depth event s v.counts))
        ]
      ])
    ]
  where
    key : ObjectKey
    key = record { namespace = namespace.id; id = id }

-- In every state that fewer than 2 ^ 64 steps reach, `admit` either puts the event last in the
-- mailbox of an open task of that very object, counted at its depth, or it changes nothing, and
-- then the namespace is stopped or the account runs exactly MAX_RESIDENT_PER_ACCOUNT tasks.
pub admit_lem :
    (cs : List Step) (s : State) (namespace : NamespaceConfig) (id : String) (depth : ℕ)
    (event : Event)
    → length cs < 2 ^ 64
    → run cs init ≡ some s
    → Admitted namespace
        (record { namespace = namespace.id; id = id })
        depth
        event
        s
        (admit namespace id depth event s)
admit_lem cs s namespace id depth event room e =
    admit-Admitted namespace id depth event s (reached-Inv cs s room e)

abbrev is_serving : Phase → Bool
is_serving serving = true
is_serving _ = false
