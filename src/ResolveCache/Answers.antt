-- ===== src/ResolveCache/Answers.antt =====
-- src/resolve_cache.rs: the entries of the cache, against what the database had.
use openworkers_runner.Common.{
  Bool-cases, Option, Option-cases, String, ap, arith, if◌then◌else◌, inl, inr, nat_eq, none,
  option_eq, refl, some, string_eq, sym, true, ℕ, ◌-◌, ◌<◌, ◌∙◌, ◌≡◌, ◌≤◌, ◌⊎◌,
}
use openworkers_runner.ResolveCache.{
  Cache, Entry, Key, RequestResolution, WorkerMeta, clear, fresh_value, is_standalone, key_eq,
  pathless, put_resolution, put_worker, resolution, then_key, ttl, worker,
}
use openworkers_runner.ResolveCache.Lru.{LruCache, LruLaws}
use openworkers_runner.ResolveCache.Lookups.{Database, Request, by_id, look, put_read, route}

-- What the queries of src/store.rs promise: a standalone worker is resolved without the path,
-- and the worker of an id has that id.
pub record DatabaseLaws (db : Database) : Type 0 where
  pub path_unread :
      (v : ℕ) (host worker_id worker_name : Option String) (path other id : String)
      (r : RequestResolution)
      → db.resolve_request v host worker_id worker_name path ≡ some r
      → r.project_id ≡ none
      → r.worker_id ≡ some id
      → db.resolve_request v host worker_id worker_name other ≡ some r
  pub meta_id :
      (v : ℕ) (id : String) (meta : WorkerMeta) → db.worker_meta v id ≡ some meta → meta.id ≡ id

-- A value answers every request that its key stands for, as the database did at a version.
abbrev pub Answers : Database → ℕ → Key → Option RequestResolution → Type 0
Answers db v key value =
    (path : String)
    → (key.path ≡ none) ⊎ (key.path ≡ some path)
    → value ≡ db.resolve_request v key.host key.worker_id key.worker_name path

module _ (lru : LruCache Key (Entry (Option RequestResolution)))
    (worker_lru : LruCache String (Entry WorkerMeta)) (db : Database) (laws : LruLaws lru)
    (worker_laws : LruLaws worker_lru) (db_laws : DatabaseLaws db) where
  -- Every entry was read at the version `floor` or after it.
  abbrev pub FreshResolutions : ℕ → Cache lru worker_lru → Type 0
  FreshResolutions floor cache =
      (key : Key) (entry : Entry (Option RequestResolution))
      → (lru.get key cache.resolutions).0 ≡ some entry
      → (v : ℕ) × (floor ≤ v) × Answers db v key entry.value

  abbrev pub FreshWorkers : ℕ → Cache lru worker_lru → Type 0
  FreshWorkers floor cache =
      (id : String) (entry : Entry WorkerMeta)
      → (worker_lru.get id cache.workers).0 ≡ some entry
      → (v : ℕ) × (floor ≤ v) × (db.worker_meta v id ≡ some entry.value)

  abbrev pub FreshCache : ℕ → Cache lru worker_lru → Type 0
  FreshCache floor cache = FreshResolutions floor cache × FreshWorkers floor cache

  pub clear-FreshCache :
      (floor : ℕ) (cache : Cache lru worker_lru) → FreshCache floor (clear lru worker_lru cache)
  unfolding clear
  clear-FreshCache floor cache = (
    λ key entry e. absurd (ground (arith, laws.get_clear key cache.resolutions)),
    λ id entry e. absurd (ground (arith, worker_laws.get_clear id cache.workers)),
  )

  -- The key under which `put_resolution` stores an answer of the database.
  standalone_lem :
      (value : Option RequestResolution)
      → is_standalone value ≡ true
      → (r : RequestResolution) × (id : String) × (value ≡ some r)
        × (r.project_id ≡ none)
        × (r.worker_id ≡ some id)
  standalone_lem none e = absurd (ground arith)
  standalone_lem (some r) e = elim (Option-cases r.worker_id) [
    | inl nothing ↦ absurd (ground arith)
    | inr (id, is_there) ↦ (r, id, refl, ground arith, is_there)
  ]

  stored-Answers :
      (v : ℕ) (host worker_id worker_name : Option String) (path : String)
      → let value : Option RequestResolution =
          db.resolve_request v host worker_id worker_name path in
        let key : Key = record {
          host = host;
          worker_id = worker_id;
          worker_name = worker_name;
          path = some path;
        } in
        Answers db v (if is_standalone value then pathless key else key) value
  stored-Answers v host worker_id worker_name path =
      elim (Bool-cases (is_standalone (db.resolve_request v host worker_id worker_name path))) [
        | inl standalone ↦
            let (r, id, found, no_project, has_id) = standalone_lem _ standalone in
            rw standalone (λ other _.
              found
              ∙ sym (
                  db_laws.path_unread v host worker_id worker_name path other id r found no_project
                    has_id))
        | inr other ↦ rw other (λ q h. ground arith)
      ]

  put_route-FreshCache :
      (floor v now : ℕ) (host worker_id worker_name : Option String) (path : String)
      (cache : Cache lru worker_lru)
      → floor ≤ v
      → FreshCache floor cache
      → FreshCache floor
          (put_read lru worker_lru db (route host worker_id worker_name path) v now cache)
  unfolding put_read put_resolution
  put_route-FreshCache floor v now host worker_id worker_name path cache b f = (
    λ key entry e. elim (laws.get_put _ key _ entry cache.resolutions e) [
      | inl (same_key, same_entry) ↦
          rw (same_key, same_entry) (v, b, stored-Answers v host worker_id worker_name path)
      | inr old ↦ f.0 key entry old
    ],
    f.1,
  )

  put_meta-FreshCache :
      (floor v now : ℕ) (id : String) (meta : WorkerMeta) (cache : Cache lru worker_lru)
      → db.worker_meta v id ≡ some meta
      → floor ≤ v
      → FreshCache floor cache
      → FreshCache floor (put_worker lru worker_lru meta now cache)
  unfolding put_worker
  put_meta-FreshCache floor v now id meta cache read b f = (
    f.0,
    λ key entry e. elim (worker_laws.get_put _ key _ entry cache.workers e) [
      | inl (same_key, same_entry) ↦
          let same_id : key ≡ id = same_key ∙ db_laws.meta_id v id meta read in
          rw (same_id, same_entry) (v, b, read)
      | inr old ↦ f.1 key entry old
    ],
  )

  pub put_read-FreshCache :
      (floor v now : ℕ) (request : Request) (cache : Cache lru worker_lru)
      → floor ≤ v
      → FreshCache floor cache
      → FreshCache floor (put_read lru worker_lru db request v now cache)
  unfolding put_read
  put_read-FreshCache floor v now (route host worker_id worker_name path) cache b f =
      put_route-FreshCache floor v now host worker_id worker_name path cache b f
  put_read-FreshCache floor v now (by_id id) cache b f = elim (Option-cases (db.worker_meta v id)) [
    | inl nothing ↦ rw (put_read, nothing) f
    | inr (meta, read) ↦
        rw (put_read, read) (put_meta-FreshCache floor v now id meta cache read b f)
  ]

  -- What `get` and the test of the age answer was found in the map.
  fresh_value_lem :
      {T : Type 0} (now : ℕ) (found : Option (Entry T)) (value : T)
      → fresh_value now found ≡ some value
      → (entry : Entry T) × (found ≡ some entry) × (entry.value ≡ value) × (now - entry.at < ttl)
  fresh_value_lem now none value e = absurd (ground arith)
  fresh_value_lem now (some entry) value e = (entry, refl, ground arith, ground arith)

  -- Where `resolution` answers, the answer was that of the database, for the whole request, at
  -- some version not before `floor`.
  pub resolution-Fresh :
      (floor now : ℕ) (host worker_id worker_name : Option String) (path : String)
      (cache : Cache lru worker_lru) (value : Option RequestResolution)
      → FreshCache floor cache
      → (resolution lru worker_lru
          (record {
            host = host;
            worker_id = worker_id;
            worker_name = worker_name;
            path = some path;
          })
          now
          cache).0
        ≡ some value
      → (v : ℕ) × (floor ≤ v) × (value ≡ db.resolve_request v host worker_id worker_name path)
  unfolding resolution
  resolution-Fresh floor now host worker_id worker_name path cache value f e =
      let key : Key = record {
        host = host;
        worker_id = worker_id;
        worker_name = worker_name;
        path = some path;
      } in
      let first : Option (Entry (Option RequestResolution)) =
        (lru.get (pathless key) cache.resolutions).0 in
      elim (Option-cases (fresh_value now first)) [
        | inl stale ↦
            let (entry, e1, e2, _) = fresh_value_lem now _ value (ground arith) in
            let (v, b, answers) =
              f.0 key entry (laws.get_get (pathless key) key entry cache.resolutions e1) in
            (v, b, sym e2 ∙ answers path (inr refl))
        | inr (value', hit) ↦
            let (entry, e1, e2, _) = fresh_value_lem now first value' hit in
            let (v, b, answers) = f.0 (pathless key) entry e1 in
            let same : value' ≡ value = ground arith in
            (v, b, sym same ∙ sym e2 ∙ answers path (inl refl))
      ]

  pub worker-Fresh :
      (floor now : ℕ) (id : String) (cache : Cache lru worker_lru) (value : WorkerMeta)
      → FreshCache floor cache
      → (worker lru worker_lru id now cache).0 ≡ some value
      → (v : ℕ) × (floor ≤ v) × (db.worker_meta v id ≡ some value)
  unfolding worker
  worker-Fresh floor now id cache value f e =
      let (entry, e1, e2, _) = fresh_value_lem now _ value e in
      let (v, b, read) = f.1 id entry e1 in (v, b, read ∙ ap some e2)

  -- A look moves entries, and changes none.
  look_resolutions :
      (floor : ℕ) (key : Key) (cache : Cache lru worker_lru)
      → FreshCache floor cache
      → FreshCache floor (record cache { resolutions = (lru.get key cache.resolutions).1 })
  look_resolutions floor key cache f =
      (λ j entry e. f.0 j entry (laws.get_get key j entry cache.resolutions e), f.1)

  then_key-FreshCache :
      (floor now : ℕ) (answer : Option (Option RequestResolution)) (key : Key)
      (cache : Cache lru worker_lru)
      → FreshCache floor cache
      → FreshCache floor (then_key lru worker_lru answer key now cache).1
  then_key-FreshCache floor now (some value) key cache f = f
  then_key-FreshCache floor now none key cache f = look_resolutions floor key cache f

  pub look-FreshCache :
      (floor now : ℕ) (request : Request) (cache : Cache lru worker_lru)
      → FreshCache floor cache
      → FreshCache floor (look lru worker_lru db request now cache)
  unfolding look worker resolution
  look-FreshCache floor now (route host worker_id worker_name path) cache f =
      let key : Key = record {
        host = host;
        worker_id = worker_id;
        worker_name = worker_name;
        path = some path;
      } in
      then_key-FreshCache floor now _ key _ (look_resolutions floor (pathless key) cache f)
  look-FreshCache floor now (by_id id) cache f =
      (f.0, λ j entry e. f.1 j entry (worker_laws.get_get id j entry cache.workers e))
