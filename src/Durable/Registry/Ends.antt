-- ===== src/Durable/Registry/Ends.antt =====
-- src/durable/mod.rs, the drop of `Running`, `stop_namespace` and `retire`: the order among the
-- tasks of one key.
use openworkers_runner.Common.{
  Option-cases, String, arith, eq_iff, inl, inr, nat_eq, not, some, string_eq, ℕ, ◌==◌, ◌≡◌,
}
use openworkers_runner.Common.Maps
use openworkers_runner.Common.Int.{int_eq, ℤ}
use openworkers_runner.Durable.Registry.{State, key_eq, key_eqb_iff}
use openworkers_runner.Durable.Registry.Serve.{drop_running}
use openworkers_runner.Durable.Registry.Deploy.{stop_namespace}
use openworkers_runner.Durable.Registry.Retire.{Retired}
use openworkers_runner.Durable.Registry.Invariant.{IsExclusive}

pub drop_running-IsExclusive :
    (g : ℕ) (s : State) {s' : State} → drop_running g s ≡ some s' → IsExclusive s → IsExclusive s'
unfolding drop_running
drop_running-IsExclusive g s {s'} h v = record {
  ordered = λ k a b p q l.
      ground
        (arith, Maps.lookup-remove g a s.tasks, Maps.lookup-remove g b s.tasks, v.ordered k a b);
  entry = λ k e a p q. ground (
    arith,
    Maps.lookup-remove g a s.tasks,
    Maps.lookup-remove g e.generation s.tasks,
    v.entry k e a,
  );
  orphan = λ k a p q r. elim (Option-cases (Maps.lookup g s.tasks)) [
    | inl gone ↦ ground (arith, v.orphan k a)
    | inr (t, found) ↦ ground (
      arith,
      Maps.lookup-remove g a s.tasks,
      Maps.lookup-remove t.key k s.registry.retiring,
      key_eqb_iff t.key k,
      v.orphan k a,
    )
  ];
  versioned = λ k e p q. ground (arith, Maps.lookup-remove g e.generation s.tasks, v.versioned k e);
  owner = λ k e p. ground (arith, Maps.lookup-remove g e.generation s.tasks, v.owner k e);
}

pub stop_namespace-IsExclusive :
    (n : String) (s : State) → IsExclusive s → IsExclusive (stop_namespace n s).0
unfolding stop_namespace
stop_namespace-IsExclusive n s v = record {
  ordered = v.ordered;
  entry = λ k e a p q. ground (
    arith,
    Maps.lookup-retain_key (λ key. not (key.namespace == n)) k s.registry.objects,
    v.entry k e a,
  );
  orphan = λ k a p q r. ground (
    arith,
    Maps.lookup-retain_key (λ key. not (key.namespace == n)) k s.registry.objects,
    eq_iff k.namespace n,
    eq_iff n k.namespace,
    v.orphan k a,
  );
  versioned = λ k e p q. ground (
    arith,
    Maps.lookup-retain_key (λ key. not (key.namespace == n)) k s.registry.objects,
    v.versioned k e,
  );
  owner = λ k e p. ground (
    arith,
    Maps.lookup-retain_key (λ key. not (key.namespace == n)) k s.registry.objects,
    v.owner k e,
  );
}

pub Retired-IsExclusive :
    (worker_id : String) (version : ℤ) (s s' : State)
    → Retired worker_id version s s'
    → IsExclusive s
    → IsExclusive s'
Retired-IsExclusive worker_id version s s' r v = record {
  ordered = λ k a b p q l. ground (arith, r.tasks, v.ordered k a b);
  entry = λ k e a p q. elim (Option-cases (Maps.lookup k s.registry.objects)) [
    | inl missing ↦ absurd (ground (arith, r.objects k))
    | inr (e', found) ↦ ground (arith, r.tasks, r.objects k, v.entry k e' a)
  ];
  orphan = λ k a p q t. elim (Option-cases (Maps.lookup k s.registry.objects)) [
    | inl missing ↦ ground (arith, r.tasks, r.objects k, r.retiring k, r.stopped, v.orphan k a)
    | inr (e', found) ↦
        ground (arith, r.tasks, r.objects k, r.retiring k, v.entry k e' a, v.versioned k e')
  ];
  versioned = λ k e p q. elim (Option-cases (Maps.lookup k s.registry.objects)) [
    | inl missing ↦ absurd (ground (arith, r.objects k))
    | inr (e', found) ↦ ground (arith, r.tasks, r.objects k, v.versioned k e')
  ];
  owner = λ k e p. ground (arith, r.tasks, r.objects k, v.owner k e);
}
