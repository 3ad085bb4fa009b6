-- ===== src/ResolveCache/Invalidated.antt =====
-- src/resolve_cache.rs: the versions that the invalidations note.
use openworkers_runner.Common.{
  Bool, List, Option, String, [], arith, false, if◌then◌else◌, is_some, nat_eq, option_eq,
  string_eq, true, ◌+◌, ◌∷◌, ◌≤◌,
}
use openworkers_runner.ResolveCache.{Entry, Key, RequestResolution, WorkerMeta, key_eq}
use openworkers_runner.ResolveCache.Lru.{LruCache}
use openworkers_runner.ResolveCache.Lookups.{
  Database, State, Step, begins, bumps, bumps_in, changes, clears, disables, drops, enables, locks,
  looks, puts, reads, run, step,
}

module _ (lru : LruCache Key (Entry (Option RequestResolution)))
    (worker_lru : LruCache String (Entry WorkerMeta)) (db : Database) where
  abbrev pub Grows : State lru worker_lru db → State lru worker_lru db → Type 0
  Grows s t =
      (t.cleared ≤ t.floor) × (t.floor ≤ t.version) × (s.floor ≤ t.floor) × (s.cleared ≤ t.cleared)

  waits-Grows :
      (b : Bool) (r s t : State lru worker_lru db)
      → Grows r s
      → Grows r t
      → Grows r (if b then s else t)
  waits-Grows true r s t g h = g
  waits-Grows false r s t g h = h

  step-Grows :
      (x : Step) (s : State lru worker_lru db) → Grows s s → Grows s (step lru worker_lru db x s)
  unfolding step
  step-Grows enables s g = g
  step-Grows disables s g = g
  step-Grows bumps s g = omega (arith, g.0, g.1)
  step-Grows clears s g = waits-Grows (is_some s.holder) s s _ g (omega (arith, g.0, g.1))
  step-Grows changes s g = omega (arith, g.0, g.1)
  step-Grows (begins id request enabled) s g = g
  step-Grows (reads id) s g = g
  step-Grows (locks id) s g = waits-Grows (is_some s.holder) s s _ g g
  step-Grows (drops id) s g = g
  step-Grows (looks request now) s g = waits-Grows (is_some s.holder) s s _ g g
  step-Grows (puts now) s g = g

  pub run-Grows :
      (xs : List Step) (s : State lru worker_lru db)
      → Grows s s
      → Grows s (run lru worker_lru db xs s)
  unfolding run
  run-Grows [] s g = g
  run-Grows (x ∷ xs) s g =
      let t : State lru worker_lru db = step lru worker_lru db x s in
      let h : Grows s t = step-Grows x s g in
      let k : Grows t (run lru worker_lru db xs t) =
        run-Grows xs t (h.0, h.1, omega arith, omega arith) in
      omega (arith, h.0, h.1, h.2, h.3, k.0, k.1, k.2, k.3)

  pub step-bumps_in :
      (x : Step) (s : State lru worker_lru db)
      → (step lru worker_lru db x s).generation ≤ s.generation + bumps_in (x ∷ [])
  unfolding step
  step-bumps_in bumps s = omega arith
  step-bumps_in clears s = ground arith
  step-bumps_in (locks id) s = ground arith
  step-bumps_in (looks request now) s = ground arith
  step-bumps_in x s = omega arith
