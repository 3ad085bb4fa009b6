-- ===== src/Durable/Registry/Exclusive.antt =====
-- src/durable/mod.rs, `mod registry`: the order among the tasks of one key.
use openworkers_runner.Common.{
  Bool-cases, Option-cases, arith, inl, inr, nat_eq, none, some, string_eq, ℕ, ◌&&◌, ◌==◌, ◌≡◌, ◌⊎◌,
}
use openworkers_runner.Common.Maps
use openworkers_runner.Common.Maps.{Map}
use openworkers_runner.Common.Int.{int_eq, ℤ}
use openworkers_runner.Durable.Registry.{
  Entry, ObjectKey, State, key_eq, key_eqb_iff, loading, returned, serving, set_phase,
}
use openworkers_runner.Durable.Registry.Serve.{
  begin_load, forget, leave, load_failed, loaded, pop_event, set_version, take_event,
}
use openworkers_runner.Durable.Registry.Invariant.{IsExclusive}

pub take_event-IsExclusive : (g : ℕ) (s : State) → IsExclusive s → IsExclusive (take_event g s)
unfolding take_event
take_event-IsExclusive g s v = record {
  ordered = λ k a b p q l. ground (
    arith,
    Maps.lookup-adjust g a pop_event s.tasks,
    Maps.lookup-adjust g b pop_event s.tasks,
    v.ordered k a b,
  );
  entry = λ k e a p q. ground (
    arith,
    Maps.lookup-adjust g a pop_event s.tasks,
    Maps.lookup-adjust g e.generation pop_event s.tasks,
    v.entry k e a,
  );
  orphan = λ k a p q r. ground (arith, Maps.lookup-adjust g a pop_event s.tasks, v.orphan k a);
  versioned = λ k e p q.
      ground (arith, Maps.lookup-adjust g e.generation pop_event s.tasks, v.versioned k e);
  owner = λ k e p. ground (arith, Maps.lookup-adjust g e.generation pop_event s.tasks, v.owner k e);
}

pub load_failed-IsExclusive : (g : ℕ) (s : State) → IsExclusive s → IsExclusive (load_failed g s)
unfolding load_failed
load_failed-IsExclusive g s v = record {
  ordered = λ k a b p q l. ground (
    arith,
    Maps.lookup-adjust g a (set_phase returned) s.tasks,
    Maps.lookup-adjust g b (set_phase returned) s.tasks,
    v.ordered k a b,
  );
  entry = λ k e a p q. ground (
    arith,
    Maps.lookup-adjust g a (set_phase returned) s.tasks,
    Maps.lookup-adjust g e.generation (set_phase returned) s.tasks,
    v.entry k e a,
  );
  orphan = λ k a p q r.
      ground (arith, Maps.lookup-adjust g a (set_phase returned) s.tasks, v.orphan k a);
  versioned = λ k e p q.
      ground
        (arith, Maps.lookup-adjust g e.generation (set_phase returned) s.tasks, v.versioned k e);
  owner = λ k e p.
      ground (arith, Maps.lookup-adjust g e.generation (set_phase returned) s.tasks, v.owner k e);
}

pub begin_load-IsExclusive : (g : ℕ) (s : State) → IsExclusive s → IsExclusive (begin_load g s)
unfolding begin_load
begin_load-IsExclusive g s v = record {
  ordered = λ k a b p q l. ground (
    arith,
    Maps.lookup-adjust g a (set_phase loading) s.tasks,
    Maps.lookup-adjust g b (set_phase loading) s.tasks,
    v.ordered k a b,
  );
  entry = λ k e a p q. ground (
    arith,
    Maps.lookup-adjust g a (set_phase loading) s.tasks,
    Maps.lookup-adjust g e.generation (set_phase loading) s.tasks,
    v.entry k e a,
  );
  orphan =
      λ k a p q r. ground (arith, Maps.lookup-adjust g a (set_phase loading) s.tasks, v.orphan k a);
  versioned = λ k e p q.
      ground
        (arith, Maps.lookup-adjust g e.generation (set_phase loading) s.tasks, v.versioned k e);
  owner = λ k e p.
      ground (arith, Maps.lookup-adjust g e.generation (set_phase loading) s.tasks, v.owner k e);
}

-- The entry that `loaded` leaves comes from one of the same generation.
pub loaded-entry :
    (g : ℕ) (version : ℤ) (s : State) (k : ObjectKey) (e : Entry)
    → Maps.lookup k (loaded g version s).registry.objects ≡ some e
    → (before : Entry) × (Maps.lookup k s.registry.objects ≡ some before)
      × (before.generation ≡ e.generation)
      × ((e.generation ≡ g) ⊎ (before.version ≡ e.version))
unfolding loaded
loaded-entry g version s k e h = elim (Option-cases (Maps.lookup k s.registry.objects)) [
  | inl missing ↦ elim (Option-cases (Maps.lookup g s.tasks)) [
    | inl gone ↦ absurd (ground arith)
    | inr (t, found) ↦
        absurd
          (ground (arith, Maps.lookup-adjust t.key k (set_version g version) s.registry.objects))
  ]
  | inr (before, found) ↦ elim (Option-cases (Maps.lookup g s.tasks)) [
    | inl gone ↦ (before, found, ground arith, ground arith)
    | inr (t, found') ↦ (
      before,
      found,
      ground (arith, Maps.lookup-adjust t.key k (set_version g version) s.registry.objects),
      ground (arith, Maps.lookup-adjust t.key k (set_version g version) s.registry.objects),
    )
  ]
]

pub loaded-IsExclusive :
    (g : ℕ) (version : ℤ) (s : State) → IsExclusive s → IsExclusive (loaded g version s)
unfolding loaded
loaded-IsExclusive g version s v = record {
  ordered = λ k a b p q l. ground (
    arith,
    Maps.lookup-adjust g a (set_phase serving) s.tasks,
    Maps.lookup-adjust g b (set_phase serving) s.tasks,
    v.ordered k a b,
  );
  entry = λ k e a p q.
      let (before, found, same, _) = loaded-entry g version s k e p in
      ground (
        arith,
        Maps.lookup-adjust g a (set_phase serving) s.tasks,
        Maps.lookup-adjust g e.generation (set_phase serving) s.tasks,
        v.entry k before a found,
      );
  orphan = λ k a p q r. elim (Option-cases (Maps.lookup g s.tasks)) [
    | inl gone ↦ ground (arith, v.orphan k a)
    | inr (t, found) ↦ ground (
      arith,
      Maps.lookup-adjust g a (set_phase serving) s.tasks,
      Maps.lookup-adjust t.key k (set_version g version) s.registry.objects,
      v.orphan k a,
    )
  ];
  versioned = λ k e p q.
      let (before, found, same, version') = loaded-entry g version s k e p in
      ground (
        arith,
        Maps.lookup-adjust g e.generation (set_phase serving) s.tasks,
        v.versioned k before found,
      );
  owner = λ k e p.
      let (before, found, same, _) = loaded-entry g version s k e p in
      ground (
        arith,
        Maps.lookup-adjust g e.generation (set_phase serving) s.tasks,
        v.owner k before found,
      );
}

pub forget-some :
    (g : ℕ) (key k : ObjectKey) (objects : Map ObjectKey Entry) (e : Entry)
    → Maps.lookup k (forget g key objects) ≡ some e
    → Maps.lookup k objects ≡ some e
forget-some g key k objects e h = ground (arith, Maps.lookup-remove key k objects)

pub forget-none :
    (g : ℕ) (key k : ObjectKey) (objects : Map ObjectKey Entry)
    → Maps.lookup k (forget g key objects) ≡ none
    → (Maps.lookup k objects ≡ none)
      ⊎ ((e : Entry) × (Maps.lookup k objects ≡ some e) × (e.generation ≡ g) × (key ≡ k))
forget-none g key k objects h = elim (Option-cases (Maps.lookup key objects)) [
  | inl missing ↦ inl (ground arith)
  | inr (e, found) ↦ elim (Bool-cases (e.generation == g && key == k)) [
    | inl hit ↦
        inr (e, ground (arith, key_eqb_iff key k), ground arith, ground (arith, key_eqb_iff key k))
    | inr miss ↦ inl (ground (arith, Maps.lookup-remove key k objects))
  ]
]

pub leave-IsExclusive : (g : ℕ) (s : State) → IsExclusive s → IsExclusive (leave g s).0
unfolding leave
leave-IsExclusive g s v = record {
  ordered = λ k a b p q l. ground (
    arith,
    Maps.lookup-adjust g a (set_phase returned) s.tasks,
    Maps.lookup-adjust g b (set_phase returned) s.tasks,
    v.ordered k a b,
  );
  entry = λ k e a p q. elim (Option-cases (Maps.lookup g s.tasks)) [
    | inl gone ↦ ground (arith, v.entry k e a)
    | inr (t, found) ↦ ground (
      arith,
      forget-some g t.key k s.registry.objects e,
      Maps.lookup-adjust g a (set_phase returned) s.tasks,
      Maps.lookup-adjust g e.generation (set_phase returned) s.tasks,
      v.entry k e a,
    )
  ];
  orphan = λ k a p q r. elim (Option-cases (Maps.lookup g s.tasks)) [
    | inl gone ↦ ground (arith, v.orphan k a)
    | inr (t, found) ↦ elim (Option-cases (Maps.lookup k s.registry.objects)) [
      | inl missing ↦
          ground (arith, Maps.lookup-adjust g a (set_phase returned) s.tasks, v.orphan k a)
      | inr (e, entry) ↦ ground (
        arith,
        forget-none g t.key k s.registry.objects,
        Maps.lookup-adjust g a (set_phase returned) s.tasks,
        v.entry k e a,
      )
    ]
  ];
  versioned = λ k e p q. elim (Option-cases (Maps.lookup g s.tasks)) [
    | inl gone ↦ ground (arith, v.versioned k e)
    | inr (t, found) ↦ ground (
      arith,
      forget-some g t.key k s.registry.objects e,
      Maps.lookup-adjust g e.generation (set_phase returned) s.tasks,
      v.versioned k e,
    )
  ];
  owner = λ k e p. elim (Option-cases (Maps.lookup g s.tasks)) [
    | inl gone ↦ ground (arith, v.owner k e)
    | inr (t, found) ↦ ground (
      arith,
      forget-some g t.key k s.registry.objects e,
      Maps.lookup-adjust g e.generation (set_phase returned) s.tasks,
      v.owner k e,
    )
  ];
}
