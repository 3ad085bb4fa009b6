-- ===== src/ResolveCache/Served.antt =====
-- src/resolve_cache.rs: `resolve` and `worker` after an invalidation, with anything in between.
use openworkers_runner.Common.{
  List, Option, String, [], arith, nat_eq, none, option_eq, refl, some, string_eq, ℕ, ◌+◌, ◌<◌, ◌^◌,
  ◌∷◌, ◌≡◌, ◌≤◌,
}
use openworkers_runner.ResolveCache.{Entry, Key, RequestResolution, WorkerMeta, key_eq, resolution}
use openworkers_runner.ResolveCache.Lru.{LruCache, LruLaws}
use openworkers_runner.ResolveCache.Lookups.{
  Database, State, Step, bumps, bumps_in, clears, run, start, step,
}
use openworkers_runner.ResolveCache.Answers.{DatabaseLaws, resolution-Fresh}
use openworkers_runner.ResolveCache.History.{Inv, start-Inv, step-Inv}
use openworkers_runner.ResolveCache.Invalidated.{Grows, run-Grows, step-bumps_in}

bumps_cons : (x : Step) (xs : List Step) → bumps_in (x ∷ xs) ≡ bumps_in (x ∷ []) + bumps_in xs
bumps_cons bumps xs = omega arith
bumps_cons x xs = omega arith

module _ (lru : LruCache Key (Entry (Option RequestResolution)))
    (worker_lru : LruCache String (Entry WorkerMeta)) (db : Database) where
  -- The state where the generation goes up, that where the clear waits for the lock, and a later
  -- one: what runs before, between and after is any list of steps.
  abbrev pub before_bump : List Step → State lru worker_lru db
  before_bump xs = run lru worker_lru db xs (start lru worker_lru db)

  abbrev pub before_clear : List Step → List Step → State lru worker_lru db
  before_clear xs ys = run lru worker_lru db ys (step lru worker_lru db bumps (before_bump xs))

  abbrev pub after_clear : List Step → List Step → List Step → State lru worker_lru db
  after_clear xs ys zs =
      run lru worker_lru db zs (step lru worker_lru db clears (before_clear xs ys))

  abbrev pub bumps_of : List Step → List Step → List Step → ℕ
  bumps_of xs ys zs = bumps_in xs + 1 + bumps_in ys + bumps_in zs

  bumps_run :
      (xs : List Step) (s : State lru worker_lru db)
      → (run lru worker_lru db xs s).generation ≤ s.generation + bumps_in xs
  unfolding run
  bumps_run [] s = omega arith
  bumps_run (x ∷ xs) s =
      let one : (step lru worker_lru db x s).generation ≤ s.generation + bumps_in (x ∷ []) =
        step-bumps_in lru worker_lru db x s in
      let rest : bumps_in (x ∷ xs) ≡ bumps_in (x ∷ []) + bumps_in xs = bumps_cons x xs in
      omega (arith, one, rest, bumps_run xs (step lru worker_lru db x s))

  clears_floor :
      (s : State lru worker_lru db)
      → s.holder ≡ none
      → (step lru worker_lru db clears s).cleared ≡ s.floor
  unfolding step
  clears_floor s e = rw e refl

  bumps_floor : (s : State lru worker_lru db) → (step lru worker_lru db bumps s).floor ≡ s.version
  unfolding step
  bumps_floor s = refl

  module _ (laws : LruLaws lru) (worker_laws : LruLaws worker_lru) (db_laws : DatabaseLaws db) where
    run-Inv :
        (xs : List Step) (s : State lru worker_lru db)
        → s.generation + bumps_in xs < 2 ^ 64
        → Inv lru worker_lru db laws worker_laws db_laws s
        → Inv lru worker_lru db laws worker_laws db_laws (run lru worker_lru db xs s)
    unfolding run
    run-Inv [] s b i = i
    run-Inv (x ∷ xs) s b i =
        let count : bumps_in (x ∷ xs) ≡ bumps_in (x ∷ []) + bumps_in xs = bumps_cons x xs in
        let one : (step lru worker_lru db x s).generation ≤ s.generation + bumps_in (x ∷ []) =
          step-bumps_in lru worker_lru db x s in
        run-Inv xs (step lru worker_lru db x s) (omega (arith, b, count, one))
          (step-Inv lru worker_lru db laws worker_laws db_laws x s (omega (arith, b, count)) i)

    -- The cache after the clear, and the version of its oldest entry.
    after_clear_lem :
        (xs ys zs : List Step)
        → bumps_of xs ys zs < 2 ^ 64
        → (before_clear xs ys).holder ≡ none
        → Inv lru worker_lru db laws worker_laws db_laws (after_clear xs ys zs)
          × ((before_bump xs).version ≤ (after_clear xs ys zs).cleared)
    after_clear_lem xs ys zs b free =
        let s0 : State lru worker_lru db = before_bump xs in
        let s1 : State lru worker_lru db = step lru worker_lru db bumps s0 in
        let s2 : State lru worker_lru db = before_clear xs ys in
        let s3 : State lru worker_lru db = step lru worker_lru db clears s2 in
        let g0 : s0.generation ≤ 0 + bumps_in xs = bumps_run xs (start lru worker_lru db) in
        let g1 : s1.generation ≤ s0.generation + 1 = step-bumps_in lru worker_lru db bumps s0 in
        let g2 : s2.generation ≤ s1.generation + bumps_in ys = bumps_run ys s1 in
        let g3 : s3.generation ≤ s2.generation + 0 = step-bumps_in lru worker_lru db clears s2 in
        let i0 : Inv lru worker_lru db laws worker_laws db_laws s0 =
          run-Inv xs (start lru worker_lru db) (omega (arith, b))
            (start-Inv lru worker_lru db laws worker_laws db_laws) in
        let i1 : Inv lru worker_lru db laws worker_laws db_laws s1 =
          step-Inv lru worker_lru db laws worker_laws db_laws bumps s0 (omega (arith, b, g0)) i0 in
        let i2 : Inv lru worker_lru db laws worker_laws db_laws s2 =
          run-Inv ys s1 (omega (arith, b, g0, g1)) i1 in
        let i3 : Inv lru worker_lru db laws worker_laws db_laws s3 =
          step-Inv lru worker_lru db laws worker_laws db_laws clears s2
            (omega (arith, b, g0, g1, g2)) i2 in
        let grown : Grows lru worker_lru db s1 s2 =
          run-Grows lru worker_lru db ys s1
            (i1.cleared_first, i1.floor_first, omega arith, omega arith) in
        let grown' : Grows lru worker_lru db s3 (after_clear xs ys zs) =
          run-Grows lru worker_lru db zs s3
            (i3.cleared_first, i3.floor_first, omega arith, omega arith) in
        (
          run-Inv zs s3 (omega (arith, b, g0, g1, g2, g3)) i3,
          omega (arith, bumps_floor s0, grown.2, clears_floor s2 free, grown'.3),
        )

    -- What `resolve` answers from memory after an invalidation: where fewer than 2^64
    -- invalidations happen in all, and the clear finds the lock of the cache free, any answer of
    -- `resolution` is that of the database for that very request, path included, at the version
    -- the database had when the generation went up or at a later one. No lookup that was in
    -- flight, in any interleaving, puts back what it read before.
    pub resolution-after_clear :
        (xs ys zs : List Step) (host worker_id worker_name : Option String) (path : String)
        (now : ℕ) (value : Option RequestResolution)
        → bumps_of xs ys zs < 2 ^ 64
        → (before_clear xs ys).holder ≡ none
        → (resolution lru worker_lru
            (record {
              host = host;
              worker_id = worker_id;
              worker_name = worker_name;
              path = some path;
            })
            now
            (after_clear xs ys zs).cache).0
          ≡ some value
        → (v : ℕ) × ((before_bump xs).version ≤ v)
          × (value ≡ db.resolve_request v host worker_id worker_name path)
    resolution-after_clear xs ys zs host worker_id worker_name path now value b free hit =
        let (i, first) = after_clear_lem xs ys zs b free in
        let (v, later, same) =
          resolution-Fresh lru worker_lru db laws worker_laws db_laws (after_clear xs ys zs).cleared
            now host worker_id worker_name path (after_clear xs ys zs).cache value i.entries hit in
        (v, omega (arith, first, later), same)
