-- ===== src/CodeCache.antt =====
-- src/code_cache.rs: the compiled code kept in memory, bounded by entries and by bytes. The LRU map
-- (crate lru) is a parameter; usize is 64 bits wide and its wrap-around is written out.
pub mod Lru
pub mod Prefix
pub mod Evict
pub mod Kept
pub mod Keys
pub mod History
pub mod Bounded
mod Tests
use openworkers_runner.Common.{
  Bool, Comparable, List, Option, String, [], arith, eq_iff, get_or, if◌then◌else◌, is_some, ltb,
  nat_eq, none, option_eq, some, string_eq, suc, true, zero, ℕ, ◌%◌, ◌&&◌, ◌*◌, ◌+◌, ◌-◌, ◌==◌, ◌^◌,
  ◌↔◌, ◌∷◌, ◌≡◌,
}
use openworkers_runner.Common.Lists.{length}
use openworkers_runner.Common.Text.{append}
use openworkers_runner.Common.Int.{int_eq, ℤ}
use openworkers_runner.CodeCache.Lru.{LruMap}

abbrev pub default_max_entries : ℕ
default_max_entries = 5000

abbrev pub default_max_bytes : ℕ
default_max_bytes = 512 * 1024 * 1024

pub record CacheKey : Type 0 where
  pub id : String
  pub version : ℤ

unfoldable pub cache_key_eqb : CacheKey → CacheKey → Bool
cache_key_eqb a b = a.id == b.id && a.version == b.version

pub cache_key_eqb_iff : (a b : CacheKey) → (cache_key_eqb a b ≡ true) ↔ (a ≡ b)
unfolding cache_key_eqb
cache_key_eqb_iff a b = ground (arith, eq_iff a.id b.id, int_eq.same_iff a.version b.version)

instance abbrev pub cache_key_eq : Comparable CacheKey
cache_key_eq = record { same = cache_key_eqb; same_iff = cache_key_eqb_iff }

-- Vec<u8>
abbrev pub Blob : Type 0
Blob = List ℕ

abbrev pub usize_add : ℕ → ℕ → ℕ
usize_add a b = (a + b) % 2 ^ 64

abbrev pub usize_sub : ℕ → ℕ → ℕ
usize_sub a b = (a + 2 ^ 64 - b) % 2 ^ 64

-- parse_env of each name is a parameter.
unfoldable pub read_env : (String → Option ℕ) → String → String → Option ℕ
read_env parse_env name fallback = elim (parse_env name) [
  | some value ↦ some value
  | none ↦ parse_env fallback
]

-- NonZeroUsize::new
abbrev pub non_zero : Option ℕ → Option ℕ
non_zero none = none
non_zero (some zero) = none
non_zero (some (suc n)) = some (suc n)

unfoldable pub max_entries_of : (String → Option ℕ) → ℕ
unfolding read_env
max_entries_of parse_env =
    get_or (non_zero (read_env parse_env "CODE_CACHE_MAX" "SNAPSHOT_CACHE_MAX")) default_max_entries

unfoldable pub max_bytes_of : (String → Option ℕ) → ℕ
unfolding read_env
max_bytes_of parse_env =
    get_or (read_env parse_env "CODE_CACHE_MAX_BYTES" "SNAPSHOT_CACHE_MAX_BYTES") default_max_bytes

unfoldable pub wasm_id : String → String → String
wasm_id worker_id engine_key = append "wasm:" (append engine_key (append ":" worker_id))

abbrev pub code_key : String → ℤ → CacheKey
code_key worker_id version = record { id = worker_id; version = version }

abbrev pub wasm_key : String → ℤ → String → CacheKey
unfolding wasm_id
wasm_key worker_id version engine_key = record {
  id = wasm_id worker_id engine_key;
  version = version;
}

abbrev pub minus_dropped : ℕ → Option (CacheKey × Blob) → ℕ
minus_dropped bytes none = bytes
minus_dropped bytes (some (_, dropped)) = usize_sub bytes (length dropped)

pub data Call : Type 0 where
  gets : CacheKey → Call
  puts : CacheKey → Blob → Call

module _ (lru : LruMap CacheKey Blob) where
  pub record CodeCache : Type 0 where
    pub entries : lru.Store
    pub bytes : ℕ
    pub max_bytes : ℕ

  unfoldable pub new : ℕ → ℕ → CodeCache
  new max_entries max_bytes = record {
    entries = lru.new max_entries;
    bytes = 0;
    max_bytes = max_bytes;
  }

  unfoldable pub get : CacheKey → CodeCache → Option Blob × CodeCache
  get key c =
      let (found, entries) = lru.get key c.entries in (found, record c { entries = entries })

  -- The while loop of `put`, on fuel: each turn takes one entry out.
  unfoldable pub evict : ℕ → CodeCache → CodeCache
  evict zero c = c
  evict (suc fuel) c =
      let popped : Option (CacheKey × Blob) × lru.Store = lru.pop_lru c.entries in
      let bytes : ℕ = minus_dropped c.bytes popped.0 in
      let rest : CodeCache = evict fuel (record c { entries = popped.1; bytes = bytes }) in
      if ltb c.max_bytes c.bytes
      then (if is_some popped.0 then rest else record c { entries = popped.1 })
      else c

  -- One turn for each entry there can be, and one for the one that was added.
  unfoldable pub put : CacheKey → Blob → CodeCache → CodeCache
  unfolding evict
  put key blob c =
      if ltb c.max_bytes (length blob)
      then c
      else (let pushed : Option (CacheKey × Blob) × lru.Store = lru.push key blob c.entries in
          let bytes : ℕ = minus_dropped (usize_add c.bytes (length blob)) pushed.0 in
          evict (lru.len pushed.1) (record c { entries = pushed.1; bytes = bytes }))

  unfoldable pub run : List Call → CodeCache → CodeCache
  unfolding get put
  run [] c = c
  run (gets key ∷ calls) c = run calls (get key c).1
  run (puts key blob ∷ calls) c = run calls (put key blob c)
