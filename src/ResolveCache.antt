-- ===== src/ResolveCache.antt =====
-- src/resolve_cache.rs: the resolutions and the workers kept in memory. Instants are milliseconds.
-- The LRU map (crate lru) is a parameter, and so is the database.
pub mod Lru
pub mod Lookups
pub mod Answers
pub mod Fresh
pub mod History
pub mod Invalidated
pub mod Served
pub mod Bounded
mod Tests
use openworkers_runner.Common.{
  Bool, Comparable, Option, String, arith, false, if◌then◌else◌, is_some, ltb, nat_eq, none, not,
  option_eq, option_eqb_iff, some, string_eq, true, ℕ, ◌&&◌, ◌-◌, ◌==◌, ◌↔◌, ◌≡◌,
}
use openworkers_runner.Common.Int.{int_eq, ℤ}
use openworkers_runner.ResolveCache.Lru.{LruCache}

pub record Key : Type 0 where
  pub host : Option String
  pub worker_id : Option String
  pub worker_name : Option String
  pub path : Option String

unfoldable pub key_eqb : Key → Key → Bool
key_eqb a b =
    a.host == b.host
    && a.worker_id == b.worker_id
    && a.worker_name == b.worker_name
    && a.path == b.path

pub key_eqb_iff : (a b : Key) → (key_eqb a b ≡ true) ↔ (a ≡ b)
unfolding key_eqb
key_eqb_iff a b = ground (
  arith,
  option_eqb_iff a.host b.host,
  option_eqb_iff a.worker_id b.worker_id,
  option_eqb_iff a.worker_name b.worker_name,
  option_eqb_iff a.path b.path,
)

instance abbrev pub key_eq : Comparable Key
key_eq = record { same = key_eqb; same_iff = key_eqb_iff }

-- src/store.rs: what a request resolves to.
pub data BackendType : Type 0 where
  worker_backend storage_backend : BackendType

pub data AssetType : Type 0 where
  immutable static prerendered : AssetType

pub record RequestResolution : Type 0 where
  pub worker_id : Option String
  pub project_id : Option String
  pub backend_type : Option BackendType
  pub assets_storage_id : Option String
  pub asset_type : Option AssetType

-- src/store.rs: a worker, of which the cache reads the id alone.
pub record WorkerMeta : Type 0 where
  pub id : String
  pub user_id : String
  pub version : ℤ

pub record Entry {ℓ} (T : Type ℓ) : Type ℓ where
  pub value : T
  pub at : ℕ

abbrev pub ttl : ℕ
ttl = 60000

-- `now.duration_since(entry.at) < TTL`, where an entry from the future is 0 old.
abbrev pub is_fresh {ℓ} : {T : Type ℓ} → ℕ → Entry T → Bool
is_fresh now entry = ltb (now - entry.at) ttl

-- What `get(key)?` and the test of the age leave of an entry.
abbrev pub fresh_value {ℓ} : {T : Type ℓ} → ℕ → Option (Entry T) → Option T
fresh_value now none = none
fresh_value now (some entry) = if is_fresh now entry then some entry.value else none

-- Only a project reads the path.
abbrev pub is_standalone : Option RequestResolution → Bool
is_standalone none = false
is_standalone (some r) = not (is_some r.project_id) && is_some r.worker_id

abbrev pub pathless : Key → Key
pathless key = record key { path = none }

module _ (lru : LruCache Key (Entry (Option RequestResolution)))
    (worker_lru : LruCache String (Entry WorkerMeta)) where
  pub record Cache : Type 0 where
    pub resolutions : lru.Store
    pub workers : worker_lru.Store

  unfoldable pub new : ℕ → ℕ → Cache
  new capacity worker_capacity = record {
    resolutions = lru.new capacity;
    workers = worker_lru.new worker_capacity;
  }

  -- The `find_map`: the key is looked up where the pathless one gives nothing.
  abbrev pub then_key :
      Option (Option RequestResolution)
      → Key
      → ℕ
      → Cache
      → Option (Option RequestResolution) × Cache
  then_key (some value) key now cache = (some value, cache)
  then_key none key now cache =
      let (found, store) = lru.get key cache.resolutions in
      (fresh_value now found, record cache { resolutions = store })

  unfoldable pub resolution : Key → ℕ → Cache → Option (Option RequestResolution) × Cache
  resolution key now cache =
      let (found, store) = lru.get (pathless key) cache.resolutions in
      then_key (fresh_value now found) key now (record cache { resolutions = store })

  unfoldable pub put_resolution : Key → Option RequestResolution → ℕ → Cache → Cache
  put_resolution key value now cache =
      let key' : Key = if is_standalone value then pathless key else key in
      record cache {
        resolutions = lru.put key' (record { value = value; at = now }) cache.resolutions;
      }

  unfoldable pub worker : String → ℕ → Cache → Option WorkerMeta × Cache
  worker worker_id now cache =
      let (found, store) = worker_lru.get worker_id cache.workers in
      (fresh_value now found, record cache { workers = store })

  unfoldable pub put_worker : WorkerMeta → ℕ → Cache → Cache
  put_worker meta now cache = record cache {
    workers = worker_lru.put meta.id (record { value = meta; at = now }) cache.workers;
  }

  unfoldable pub clear : Cache → Cache
  clear cache = record {
    resolutions = lru.clear cache.resolutions;
    workers = worker_lru.clear cache.workers;
  }
