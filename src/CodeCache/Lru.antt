-- ===== src/CodeCache/Lru.antt =====
-- The interface of lru::LruCache that src/code_cache.rs uses, and what its documentation says: the
-- entries stand in the order of their last use, the newest in front.
use openworkers_runner.Common.{
  Comparable, Option, [], nat_eq, none, option_eq, some, string_eq, ℕ, ◌++◌, ◌<◌, ◌∷◌, ◌≡◌, ◌≤◌,
}
use openworkers_runner.Common.Lists.{length}
use openworkers_runner.Common.Maps.{Map, insert, lookup}

pub record LruMap (K : Type 0) (V : Type 0) : Type 1 where
  pub Store : Type 0
  pub new : ℕ → Store
  pub len : Store → ℕ
  pub get : K → Store → Option V × Store
  pub push : K → V → Store → Option (K × V) × Store
  pub pop_lru : Store → Option (K × V) × Store

module _ {K : Type 0} {V : Type 0} ⦃e : Comparable K⦄ where
  -- A key that is found moves to the front.
  abbrev pub to_front : K → Option V → Map K V → Map K V
  to_front k none m = m
  to_front k (some v) m = insert k v m

  -- The entry of the same key, replaced.
  abbrev pub replaced : K → Option V → Option (K × V)
  replaced k none = none
  replaced k (some v) = some (k, v)

  pub record LruMapLaws (lru : LruMap K V) : Type 0 where
    pub capacity : lru.Store → ℕ
    pub view : lru.Store → Map K V
    pub capacity_new : (n : ℕ) → capacity (lru.new n) ≡ n
    pub view_new : (n : ℕ) → view (lru.new n) ≡ []
    pub len_view : (s : lru.Store) → lru.len s ≡ length (view s)
    pub full : (s : lru.Store) → length (view s) ≤ capacity s
    pub get_found : (k : K) (s : lru.Store) → (lru.get k s).0 ≡ lookup k (view s)
    pub get_view :
        (k : K) (s : lru.Store) → view (lru.get k s).1 ≡ to_front k (lookup k (view s)) (view s)
    pub get_capacity : (k : K) (s : lru.Store) → capacity (lru.get k s).1 ≡ capacity s
    pub push_capacity : (k : K) (v : V) (s : lru.Store) → capacity (lru.push k v s).1 ≡ capacity s
    -- A key that is there: its old entry is handed back.
    pub push_old :
        (k : K) (v w : V) (s : lru.Store)
        → lookup k (view s) ≡ some w
        → ((lru.push k v s).0 ≡ some (k, w)) × (view (lru.push k v s).1 ≡ insert k v (view s))
    -- A new key where there is room.
    pub push_room :
        (k : K) (v : V) (s : lru.Store)
        → lookup k (view s) ≡ none
        → length (view s) < capacity s
        → ((lru.push k v s).0 ≡ none) × (view (lru.push k v s).1 ≡ (k, v) ∷ view s)
    -- A new key in a full map: the entry used last of all is handed back.
    pub push_full :
        (k : K) (v : V) (s : lru.Store) (rest : Map K V) (oldest : K × V)
        → lookup k (view s) ≡ none
        → capacity s ≤ length (view s)
        → view s ≡ rest ++ (oldest ∷ [])
        → ((lru.push k v s).0 ≡ some oldest) × (view (lru.push k v s).1 ≡ (k, v) ∷ rest)
    pub pop_none : (s : lru.Store) → view s ≡ [] → (lru.pop_lru s).0 ≡ none
    pub pop_none_view : (s : lru.Store) → view s ≡ [] → view (lru.pop_lru s).1 ≡ []
    pub pop_oldest :
        (s : lru.Store) (rest : Map K V) (oldest : K × V)
        → view s ≡ rest ++ (oldest ∷ [])
        → ((lru.pop_lru s).0 ≡ some oldest) × (view (lru.pop_lru s).1 ≡ rest)
    pub pop_capacity : (s : lru.Store) → capacity (lru.pop_lru s).1 ≡ capacity s
