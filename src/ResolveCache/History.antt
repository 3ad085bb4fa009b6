-- ===== src/ResolveCache/History.antt =====
-- src/resolve_cache.rs: every history of lookups, invalidations and changes.
use openworkers_runner.Common.{
  Bool, Bool-cases, Option, String, [], arith, false, if◌then◌else◌, inl, inr, is_some, nat_eq,
  none, option_eq, refl, some, string_eq, true, ℕ, ◌%◌, ◌+◌, ◌<◌, ◌^◌, ◌∷◌, ◌≡◌, ◌≤◌,
}
use openworkers_runner.Common.Maps
use openworkers_runner.ResolveCache.{Cache, Entry, Key, RequestResolution, WorkerMeta, key_eq, new}
use openworkers_runner.ResolveCache.Lru.{LruCache, LruLaws}
use openworkers_runner.ResolveCache.Lookups.{
  Database, Holder, State, Step, begins, bumps, bumps_in, changes, clears, disables, drops, enables,
  locks, looks, put_held, puts, reads, start, step,
}
use openworkers_runner.ResolveCache.Answers.{
  DatabaseLaws, FreshCache, clear-FreshCache, look-FreshCache, put_read-FreshCache,
}
use openworkers_runner.ResolveCache.Fresh.{
  HolderOk, LookupsOk, begin-LookupOk, bump-LookupsOk, free-HolderOk, insert-LookupsOk,
  locked_lookup, read-LookupsOk, remove-LookupsOk,
}

module _ (lru : LruCache Key (Entry (Option RequestResolution)))
    (worker_lru : LruCache String (Entry WorkerMeta)) (db : Database) (laws : LruLaws lru)
    (worker_laws : LruLaws worker_lru) (db_laws : DatabaseLaws db) where
  pub record Inv (s : State lru worker_lru db) : Type 0 where
    pub cleared_first : s.cleared ≤ s.floor
    pub floor_first : s.floor ≤ s.version
    pub each : LookupsOk s.generation s.floor s.lookups
    pub held : HolderOk s.cleared s.holder
    pub entries : FreshCache lru worker_lru db laws worker_laws db_laws s.cleared s.cache

  inv :
      (s : State lru worker_lru db)
      → s.cleared ≤ s.floor
      → s.floor ≤ s.version
      → LookupsOk s.generation s.floor s.lookups
      → HolderOk s.cleared s.holder
      → FreshCache lru worker_lru db laws worker_laws db_laws s.cleared s.cache
      → Inv s
  inv s a b c d e = record { cleared_first = a; floor_first = b; each = c; held = d; entries = e }

  pub start-Inv : Inv (start lru worker_lru db)
  unfolding new Maps.lookup
  start-Inv = record {
    cleared_first = omega arith;
    floor_first = omega arith;
    each = λ id l e. absurd (ground arith);
    held = tt;
    entries = (
      λ key entry e. absurd (ground (arith, laws.get_new key 10000)),
      λ id entry e. absurd (ground (arith, worker_laws.get_new id 2000)),
    );
  }

  put_held-FreshCache :
      (holder : Option Holder) (cleared now : ℕ) (cache : Cache lru worker_lru)
      → HolderOk cleared holder
      → FreshCache lru worker_lru db laws worker_laws db_laws cleared cache
      → FreshCache lru worker_lru db laws worker_laws db_laws cleared
          (put_held lru worker_lru db holder now cache)
  put_held-FreshCache none cleared now cache h f = f
  put_held-FreshCache (some h) cleared now cache ok_held f = elim (Bool-cases h.allowed) [
    | inl allowed ↦ rw allowed (
        put_read-FreshCache lru worker_lru db laws worker_laws db_laws cleared h.version now
          h.request cache (ok_held allowed) f)
    | inr refused ↦ rw refused f
  ]

  -- A step that waits for the lock changes nothing while another task holds it.
  waits-Inv :
      (b : Bool) (s t : State lru worker_lru db)
      → Inv s
      → (b ≡ false → Inv t)
      → Inv (if b then s else t)
  waits-Inv true s t i f = i
  waits-Inv false s t i f = f refl

  pub step-Inv :
      (x : Step) (s : State lru worker_lru db)
      → s.generation + bumps_in (x ∷ []) < 2 ^ 64
      → Inv s
      → Inv (step lru worker_lru db x s)
  unfolding step
  step-Inv enables s b i = inv _ i.cleared_first i.floor_first i.each i.held i.entries
  step-Inv disables s b i = inv _ i.cleared_first i.floor_first i.each i.held i.entries
  step-Inv bumps s b i =
      let next : (s.generation + 1) % 2 ^ 64 ≡ s.generation + 1 = omega (arith, b) in
      let older : s.cleared ≤ s.version = omega (arith, i.cleared_first, i.floor_first) in
      inv _ older (omega arith)
        (rw next (bump-LookupsOk s.generation s.floor s.version s.lookups i.each)) i.held i.entries
  step-Inv clears s b i = waits-Inv (is_some s.holder) s _ i (λ free.
      inv _ (omega arith) i.floor_first i.each (free-HolderOk s.floor s.holder free)
        (clear-FreshCache lru worker_lru db laws worker_laws db_laws s.floor s.cache))
  step-Inv changes s b i =
      inv _ i.cleared_first (omega (arith, i.floor_first)) i.each i.held i.entries
  step-Inv (begins id request enabled) s b i =
      inv _ i.cleared_first i.floor_first
        (insert-LookupsOk s.generation s.floor id _ s.lookups
          (begin-LookupOk s.generation s.floor request enabled) i.each)
        i.held i.entries
  step-Inv (reads id) s b i =
      inv _ i.cleared_first i.floor_first
        (read-LookupsOk s.generation s.floor s.version id s.lookups i.floor_first i.each) i.held
        i.entries
  step-Inv (locks id) s b i = waits-Inv (is_some s.holder) s _ i (λ free.
      inv _ i.cleared_first i.floor_first
        (remove-LookupsOk s.generation s.floor id s.lookups i.each)
        (locked_lookup lru worker_lru db (Maps.lookup id s.lookups) s i.cleared_first
          (λ l e. i.each id l e))
        i.entries)
  step-Inv (drops id) s b i =
      inv _ i.cleared_first i.floor_first
        (remove-LookupsOk s.generation s.floor id s.lookups i.each) i.held i.entries
  step-Inv (looks request now) s b i = waits-Inv (is_some s.holder) s _ i (λ free.
      inv _ i.cleared_first i.floor_first i.each i.held (
        look-FreshCache lru worker_lru db laws worker_laws db_laws s.cleared now request s.cache
          i.entries))
  step-Inv (puts now) s b i =
      inv _ i.cleared_first i.floor_first i.each tt
        (put_held-FreshCache s.holder s.cleared now s.cache i.held i.entries)
