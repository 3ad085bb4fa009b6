-- ===== src/ResolveCache/Tests.antt =====
-- The races of the tests of src/resolve_cache.rs, on a map of two entries.
use openworkers_runner.Common.{
  List, Option, String, [], arith, nat_eq, none, option_eq, option_eqb, refl, some, string_eq, suc,
  true, zero, ℕ, ◌∷◌, ◌≡◌, ◌≤◌,
}
use openworkers_runner.Common.Int.{int_eq, pos}
use openworkers_runner.Common.Maps.{adjust, insert, remove}
use openworkers_runner.Common.Maps
use openworkers_runner.ResolveCache.{
  Entry, Key, RequestResolution, WorkerMeta, clear, key_eq, key_eqb, new, put_resolution,
  put_worker, resolution, worker_backend,
}
use openworkers_runner.ResolveCache.Lru.{LruCache}
use openworkers_runner.ResolveCache.Lookups.{
  Database, Request, Step, begin, begins, by_id, changes, enables, locks, put_read, puts, reads,
  route, run, step, still,
}
use openworkers_runner.ResolveCache.Answers.{DatabaseLaws}
use openworkers_runner.ResolveCache.Bounded.{bounded, bounded-LruLaws, bounded_get, bounded_put}
use openworkers_runner.ResolveCache.Served.{
  after_clear, before_bump, before_clear, resolution-after_clear,
}

-- The worker of the host is "old", and "new" after the first change.
abbrev current : ℕ → String
current zero = "old"
current (suc v) = "new"

abbrev standalone : String → Option RequestResolution
standalone id = some (record {
  worker_id = some id;
  project_id = none;
  backend_type = some worker_backend;
  assets_storage_id = none;
  asset_type = none;
})

abbrev described : ℕ → String → WorkerMeta
described v id = record { id = id; user_id = "owner"; version = pos v }

abbrev sample : Database
sample = record {
  resolve_request = λ v host worker_id worker_name path. standalone (current v);
  worker_meta = λ v id. some (described v id);
}

sample-DatabaseLaws : DatabaseLaws sample
sample-DatabaseLaws = record {
  path_unread = λ v host worker_id worker_name path other id r e no_project has_id. e;
  meta_id = λ v id meta e. ground arith;
}

abbrev resolutions_lru : LruCache Key (Entry (Option RequestResolution))
resolutions_lru = bounded

abbrev workers_lru : LruCache String (Entry WorkerMeta)
workers_lru = bounded

abbrev site : String → Request
site path = route (some "example.com") none none path

-- Lookup 0 reads the old worker before the change, and 1 and 2 begin after the invalidation.
abbrev first_steps : List Step
first_steps = enables ∷ begins 0 (site "/a") true ∷ reads 0 ∷ changes ∷ []

abbrev middle_steps : List Step
middle_steps = begins 1 (site "/a") true ∷ begins 2 (by_id "new") true ∷ reads 1 ∷ reads 2 ∷ []

abbrev last_steps : List Step
last_steps = locks 0 ∷ puts 5 ∷ locks 1 ∷ puts 6 ∷ locks 2 ∷ puts 7 ∷ []

replay : (path : String) (now : ℕ) → Option (Option RequestResolution)
unfolding resolution run step begin still put_read put_resolution put_worker new clear bounded_get
    bounded_put Maps.lookup insert remove adjust key_eqb option_eqb
replay path now =
    (resolution resolutions_lru workers_lru
      (record { host = some "example.com"; worker_id = none; worker_name = none; path = some path })
      now
      (after_clear resolutions_lru workers_lru sample first_steps middle_steps last_steps).cache).0

a_standalone_worker_answers_every_path : replay "/b" 8 ≡ some (standalone "new")
unfolding replay
a_standalone_worker_answers_every_path = refl

an_entry_expires_after_the_ttl : replay "/a" 60006 ≡ none
unfolding replay
an_entry_expires_after_the_ttl = refl

a_hit :
    (resolution resolutions_lru workers_lru
      (record { host = some "example.com"; worker_id = none; worker_name = none; path = some "/b" })
      8
      (after_clear resolutions_lru workers_lru sample first_steps middle_steps last_steps).cache).0
    ≡ some (standalone "new")
unfolding replay
a_hit = refl

no_holder : (before_clear resolutions_lru workers_lru sample first_steps middle_steps).holder ≡ none
unfolding run step
no_holder = refl

resolution-after_clear_example :
    (v : ℕ) × ((before_bump resolutions_lru workers_lru sample first_steps).version ≤ v)
    × (standalone "new" ≡ sample.resolve_request v (some "example.com") none none "/b")
resolution-after_clear_example =
    resolution-after_clear resolutions_lru workers_lru sample bounded-LruLaws bounded-LruLaws
      sample-DatabaseLaws first_steps middle_steps last_steps (some "example.com") none none "/b" 8
      (standalone "new") (omega arith) no_holder a_hit
