-- ===== src/ResolveCache/Lookups.antt =====
-- src/resolve_cache.rs: lookups in flight, invalidations and the listener, as steps of one state.
-- The database is a function of its version, which each change moves on by one.
use mathlib.Core.Option
use openworkers_runner.Common.{
  Bool, List, Option, String, [], false, if◌then◌else◌, is_some, nat_eq, none, option_eq, some,
  string_eq, suc, true, ℕ, ◌%◌, ◌&&◌, ◌+◌, ◌==◌, ◌^◌, ◌∷◌,
}
use openworkers_runner.Common.Maps.{Map, adjust, insert, remove}
use openworkers_runner.Common.Maps
use openworkers_runner.ResolveCache.{
  Cache, Entry, Key, RequestResolution, WorkerMeta, clear, key_eq, new, put_resolution, put_worker,
  resolution, worker,
}
use openworkers_runner.ResolveCache.Lru.{LruCache}

-- What `resolve_worker_from_request` and `get_worker_meta` of src/store.rs read.
pub record Database : Type 0 where
  pub resolve_request :
      ℕ → Option String → Option String → Option String → String → Option RequestResolution
  pub worker_meta : ℕ → String → Option WorkerMeta

-- The argument of `resolve`, and that of `worker`.
pub data Request : Type 0 where
  route : Option String → Option String → Option String → String → Request
  by_id : String → Request

-- A lookup that found nothing in memory: its generation, and the version it read, if it has.
pub record Lookup : Type 0 where
  pub request : Request
  pub generation : Option ℕ
  pub read : Option ℕ

-- A lookup that holds the lock of the cache to store what it read, and whether it may.
pub record Holder : Type 0 where
  pub request : Request
  pub version : ℕ
  pub allowed : Bool

-- A step: the listener's, a change of the database, or one of a lookup, by its number.
pub data Step : Type 0 where
  enables disables bumps clears changes : Step
  begins : ℕ → Request → Bool → Step
  reads locks drops : ℕ → Step
  puts : ℕ → Step
  looks : Request → ℕ → Step

-- `begin`, with what it loads first.
unfoldable pub begin : Bool → ℕ → Option ℕ
begin enabled generation = if enabled then some generation else none

-- `still`.
unfoldable pub still : Option ℕ → Bool → ℕ → Bool
still none enabled current = false
still (some g) enabled current = enabled && current == g

module _ (lru : LruCache Key (Entry (Option RequestResolution)))
    (worker_lru : LruCache String (Entry WorkerMeta)) (db : Database) where
  -- `version` is that of the database. `floor` is the version at the last increment of the
  -- generation, and `cleared` that of the increment before the last clear.
  pub record State : Type 0 where
    pub enabled : Bool
    pub generation : ℕ
    pub cache : Cache lru worker_lru
    pub lookups : Map ℕ Lookup
    pub holder : Option Holder
    pub version : ℕ
    pub floor : ℕ
    pub cleared : ℕ

  abbrev pub start : State
  start = record {
    enabled = false;
    generation = 0;
    cache = new lru worker_lru 10000 2000;
    lookups = [];
    holder = none;
    version = 0;
    floor = 0;
    cleared = 0;
  }

  -- `put_resolution` and `put_worker` with what the database had at a version.
  unfoldable pub put_read : Request → ℕ → ℕ → Cache lru worker_lru → Cache lru worker_lru
  put_read (route host worker_id worker_name path) version now cache =
      put_resolution lru worker_lru
        (record { host = host; worker_id = worker_id; worker_name = worker_name; path = some path })
        (db.resolve_request version host worker_id worker_name path) now cache
  put_read (by_id worker_id) version now cache = elim (db.worker_meta version worker_id) [
    | none ↦ cache
    | some meta ↦ put_worker lru worker_lru meta now cache
  ]

  -- A look into memory: it moves the entries that it finds to the front.
  unfoldable pub look : Request → ℕ → Cache lru worker_lru → Cache lru worker_lru
  look (route host worker_id worker_name path) now cache =
      (resolution lru worker_lru
        (record { host = host; worker_id = worker_id; worker_name = worker_name; path = some path })
        now cache).1
  look (by_id worker_id) now cache = (worker lru worker_lru worker_id now cache).1

  abbrev pub locked : Option Lookup → State → Option Holder
  locked none s = none
  locked (some l) s =
      Option.map
        (λ v. record {
          request = l.request;
          version = v;
          allowed = still l.generation s.enabled s.generation;
        })
        l.read

  abbrev pub put_held : Option Holder → ℕ → Cache lru worker_lru → Cache lru worker_lru
  put_held none now cache = cache
  put_held (some h) now cache = if h.allowed then put_read h.request h.version now cache else cache

  -- The lock of the cache is free: another holder would make the step wait.
  unfoldable pub step : Step → State → State
  step enables s = record s { enabled = true }
  step disables s = record s { enabled = false }
  step bumps s = record s { generation = (s.generation + 1) % 2 ^ 64; floor = s.version }
  step clears s =
      if is_some s.holder
      then s
      else record s { cache = clear lru worker_lru s.cache; cleared = s.floor }
  step changes s = record s { version = s.version + 1 }
  step (begins id request was_enabled) s = record s {
    lookups =
        insert id
          (record { request = request; generation = begin was_enabled s.generation; read = none })
          s.lookups;
  }
  step (reads id) s = record s {
    lookups = adjust id (λ l. record l { read = some s.version }) s.lookups;
  }
  step (locks id) s =
      if is_some s.holder
      then s
      else record s { holder = locked (Maps.lookup id s.lookups) s; lookups = remove id s.lookups }
  step (drops id) s = record s { lookups = remove id s.lookups }
  step (looks request now) s =
      if is_some s.holder then s else record s { cache = look request now s.cache }
  step (puts now) s = record s { cache = put_held s.holder now s.cache; holder = none }

  unfoldable pub run : List Step → State → State
  unfolding step
  run [] s = s
  run (x ∷ xs) s = run xs (step x s)

abbrev pub bumps_in : List Step → ℕ
bumps_in [] = 0
bumps_in (bumps ∷ rest) = suc (bumps_in rest)
bumps_in (_ ∷ rest) = bumps_in rest
