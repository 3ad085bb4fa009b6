-- ===== src/WorkerPool/Prune.antt =====
-- src/worker_pool.rs: the prune, and the invariant of the map.
use openworkers_runner.Common.{
  Bool-cases, String, arith, inl, inr, leb, nat_eq, option_eq, some, string_eq, ℕ, ◌+◌, ◌<◌, ◌≡◌,
  ◌≤◌,
}
use openworkers_runner.Common.Lists.{length}
use openworkers_runner.Common.Maps.{Unique, Unique-retain}
use openworkers_runner.Common.Maps
use openworkers_runner.Common.Maps.Retained.{lookup-retain-some, lookup_of_retain}
use openworkers_runner.WorkerPool.{Semaphore, WorkerLimiters, in_use, prune}

module _ (limit : ℕ) where
  -- A semaphore that a task holds is the one that the map has for its worker.
  pub record Inv (l : WorkerLimiters) : Type 0 where
    pub unique : Unique l.semaphores
    pub owned :
        (w : String) (id : ℕ)
        → Maps.lookup w l.semaphores ≡ some id
        → (s : Semaphore) × (Maps.lookup id l.heap ≡ some s) × (s.owner ≡ w)
    pub live :
        (id : ℕ) (s : Semaphore)
        → Maps.lookup id l.heap ≡ some s
        → (s.running ≤ limit)
          × (id < l.next)
          × (0 < s.waiting + s.running → Maps.lookup s.owner l.semaphores ≡ some id)

  pub prune-Inv : (l : WorkerLimiters) → Inv l → Inv (prune l)
  unfolding prune in_use
  prune-Inv l i = elim (Bool-cases (leb l.prune_at (length l.semaphores))) [
    | inr small ↦ rw small i
    | inl full ↦ rw full (record {
      unique = Unique-retain (λ _ id. in_use l.heap id) l.semaphores i.unique;
      owned = λ w id h.
          i.owned w id (lookup_of_retain (λ _ id. in_use l.heap id) w id l.semaphores i.unique h);
      live = λ id s h.
          let k = i.live id s h in
          (
            k.0,
            k.1,
            λ b.
                lookup-retain-some (λ _ id. in_use l.heap id) s.owner id l.semaphores (k.2 b)
                  (rw h (ground (arith, b))),
          );
    })
  ]
