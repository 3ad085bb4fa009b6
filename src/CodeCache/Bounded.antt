-- ===== src/CodeCache/Bounded.antt =====
-- A least-recently-used map over a list, which shows that the interface of src/code_cache.rs's LRU
-- map can be filled.
use openworkers_runner.Common.{
  Option, Option-cases, [], ap, arith, false, if◌then◌else◌, inl, inr, ltb, nat_eq, none, option_eq,
  refl, some, string_eq, suc, true, zero, ℕ, ◌++◌, ◌+◌, ◌<◌, ◌∙◌, ◌∷◌, ◌≡◌, ◌≤◌,
}
use openworkers_runner.Common.Lists.{length, length-append, take}
use openworkers_runner.Common.Maps.{Map, insert, lookup, remove}
use openworkers_runner.CodeCache.Evict.{length-remove_old, take_all, take_init}
use openworkers_runner.Common.Maps.Counting.{remove_of_lookup}
use openworkers_runner.CodeCache.{Blob, CacheKey, cache_key_eq}
use openworkers_runner.CodeCache.Lru.{LruMap, LruMapLaws, to_front}

pub record Listed : Type 0 where
  pub capacity : ℕ
  pub entries : Map CacheKey Blob

abbrev pub last_of : Map CacheKey Blob → Option (CacheKey × Blob)
last_of [] = none
last_of (x ∷ []) = some x
last_of (x ∷ y ∷ m) = last_of (y ∷ m)

abbrev pub init_of : Map CacheKey Blob → Map CacheKey Blob
init_of [] = []
init_of (x ∷ []) = []
init_of (x ∷ y ∷ m) = x ∷ init_of (y ∷ m)

last_of-append :
    (m : Map CacheKey Blob) (x : CacheKey × Blob)
    → (last_of (m ++ (x ∷ [])) ≡ some x) × (init_of (m ++ (x ∷ [])) ≡ m)
last_of-append [] x = (refl, refl)
last_of-append (y ∷ []) x = (refl, refl)
last_of-append (y ∷ z ∷ m) x =
    let rest = last_of-append (z ∷ m) x in (rest.0, ap (λ l. y ∷ l) rest.1)

take_nil : (n : ℕ) (m : Map CacheKey Blob) → m ≡ [] → take n m ≡ []
take_nil zero m e = refl
take_nil (suc n) [] e = refl
take_nil (suc n) (x ∷ m) e = absurd (cc)

length-take_le : (n : ℕ) (m : Map CacheKey Blob) → length (take n m) ≤ n
length-take_le zero m = omega arith
length-take_le (suc n) [] = omega arith
length-take_le (suc n) (x ∷ m) = omega (arith, length-take_le n m)

abbrev pub shown : Listed → Map CacheKey Blob
shown s = take s.capacity s.entries

abbrev pub dropped : CacheKey → Option Blob → Listed → Option (CacheKey × Blob)
dropped k (some w) s = some (k, w)
dropped k none s = if ltb (length (shown s)) s.capacity then none else last_of (shown s)

abbrev pub listed : LruMap CacheKey Blob
listed = record {
  Store = Listed;
  new = λ n. record { capacity = n; entries = [] };
  len = λ s. length (shown s);
  get =
      λ k s. (lookup k (shown s), record s { entries = to_front k (lookup k (shown s)) (shown s) });
  push = λ k v s.
      (dropped k (lookup k (shown s)) s, record s { entries = (k, v) ∷ remove k (shown s) });
  pop_lru = λ s. (last_of (shown s), record s { entries = init_of (shown s) });
}

take_front :
    (k : CacheKey) (s : Listed)
    → take s.capacity (to_front k (lookup k (shown s)) (shown s))
      ≡ to_front k (lookup k (shown s)) (shown s)
unfolding insert
take_front k s = elim (Option-cases (lookup k (shown s))) [
  | inl missing ↦ rw missing (take_all s.capacity (shown s) (length-take_le s.capacity s.entries))
  | inr (w, found) ↦ rw found (
      take_all s.capacity ((k, w) ∷ remove k (shown s))
        (omega (arith, length-remove_old k w (shown s) found, length-take_le s.capacity s.entries)))
]

push_full_lem :
    (k : CacheKey) (v : Blob) (s : Listed) (rest : Map CacheKey Blob) (oldest : CacheKey × Blob)
    → lookup k (shown s) ≡ none
    → s.capacity ≤ length (shown s)
    → shown s ≡ rest ++ (oldest ∷ [])
    → (dropped k (lookup k (shown s)) s ≡ some oldest)
      × (take s.capacity ((k, v) ∷ remove k (shown s)) ≡ (k, v) ∷ rest)
push_full_lem k v s rest oldest missing full e =
    let no_room : ltb (length (shown s)) s.capacity ≡ false = ground arith in
    let long : length (shown s) ≡ length rest + 1 =
      ap length e ∙ length-append rest (oldest ∷ []) in
    let exact : s.capacity ≡ suc (length rest) =
      omega (arith, length-take_le s.capacity s.entries) in
    (
      rw (missing, no_room) (ap last_of e ∙ (last_of-append rest oldest).0),
      ap (λ l. take s.capacity ((k, v) ∷ l)) (remove_of_lookup k (shown s) missing ∙ e)
          ∙ ap (λ n. take n ((k, v) ∷ rest ++ (oldest ∷ []))) exact
          ∙ ap (λ l. (k, v) ∷ l) (take_init (length rest) rest oldest refl),
    )

push_room_lem :
    (k : CacheKey) (v : Blob) (s : Listed)
    → lookup k (shown s) ≡ none
    → length (shown s) < s.capacity
    → (dropped k (lookup k (shown s)) s ≡ none)
      × (take s.capacity ((k, v) ∷ remove k (shown s)) ≡ (k, v) ∷ shown s)
push_room_lem k v s missing room =
    let roomy : ltb (length (shown s)) s.capacity ≡ true = ground arith in
    (
      rw (missing, roomy) refl,
      ap (λ l. take s.capacity ((k, v) ∷ l)) (remove_of_lookup k (shown s) missing)
          ∙ take_all s.capacity ((k, v) ∷ shown s) (omega arith),
    )

pub listed-LruMapLaws : LruMapLaws listed
unfolding insert
listed-LruMapLaws = record {
  capacity = λ s. s.capacity;
  view = shown;
  capacity_new = λ n. refl;
  view_new = λ n. take_nil n [] refl;
  len_view = λ s. refl;
  full = λ s. length-take_le s.capacity s.entries;
  get_found = λ k s. refl;
  get_view = take_front;
  get_capacity = λ k s. refl;
  push_capacity = λ k v s. refl;
  push_old = λ k v w s found. (
    rw found refl,
    take_all s.capacity ((k, v) ∷ remove k (shown s))
        (omega (arith, length-remove_old k w (shown s) found, length-take_le s.capacity s.entries)),
  );
  push_room = push_room_lem;
  push_full = push_full_lem;
  pop_none = λ s e. ap last_of e;
  pop_none_view = λ s e. ap (λ m. take s.capacity (init_of m)) e ∙ take_nil s.capacity [] refl;
  pop_oldest = λ s rest oldest e. (
    ap last_of e ∙ (last_of-append rest oldest).0,
    ap (λ m. take s.capacity (init_of m)) e
        ∙ ap (take s.capacity) (last_of-append rest oldest).1
        ∙ take_all s.capacity rest (
            omega (
              arith,
              length-take_le s.capacity s.entries,
              ap length e,
              length-append rest (oldest ∷ []),
            )),
  );
  pop_capacity = λ s. refl;
}
