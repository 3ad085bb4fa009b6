-- ===== src/ResolveCache/Lru.antt =====
-- The interface of lru::LruCache that src/resolve_cache.rs uses, and what its documentation says.
use openworkers_runner.Common.{Option, nat_eq, none, option_eq, some, string_eq, ℕ, ◌≡◌, ◌⊎◌}

-- `get` also marks the key as used last.
pub record LruCache (K : Type 0) (V : Type 0) : Type 1 where
  pub Store : Type 0
  pub new : ℕ → Store
  pub get : K → Store → Option V × Store
  pub put : K → V → Store → Store
  pub clear : Store → Store

-- Where a value is found after an operation, it is the one put there last: an eviction leaves
-- keys out, and nothing else changes a value.
pub record LruLaws {K : Type 0} {V : Type 0} (lru : LruCache K V) : Type 0 where
  pub get_get :
      (k j : K) (v : V) (s : lru.Store)
      → (lru.get j (lru.get k s).1).0 ≡ some v
      → (lru.get j s).0 ≡ some v
  pub get_put :
      (k j : K) (w v : V) (s : lru.Store)
      → (lru.get j (lru.put k w s)).0 ≡ some v
      → ((j ≡ k) × (v ≡ w)) ⊎ ((lru.get j s).0 ≡ some v)
  pub get_new : (j : K) (capacity : ℕ) → (lru.get j (lru.new capacity)).0 ≡ none
  pub get_clear : (j : K) (s : lru.Store) → (lru.get j (lru.clear s)).0 ≡ none
