-- ===== src/CodeCache/Kept.antt =====
-- One put and one get of src/code_cache.rs, and the entries after it.
use openworkers_runner.Common.{
  Option, Option-cases, ap, arith, false, inl, inr, ltb, nat_eq, none, option_eq, refl, some,
  string_eq, sym, true, ℕ, ◌-◌, ◌<◌, ◌^◌, ◌∙◌, ◌∷◌, ◌≡◌, ◌≤◌,
}
use openworkers_runner.Common.Lists.{length, take}
use openworkers_runner.Common.Maps.{Map, Unique, lookup, lookup-remove, remove}
use openworkers_runner.Common.Maps.Counting.{Unique-insert, Unique-remove}
use openworkers_runner.CodeCache.{
  Blob, CacheKey, CodeCache, cache_key_eq, cache_key_eqb_iff, get, minus_dropped, put, usize_add,
}
use openworkers_runner.CodeCache.Lru.{LruMap, LruMapLaws, to_front}
use openworkers_runner.CodeCache.Prefix.{fit, total, total-fit, total-insert_old}
use openworkers_runner.CodeCache.Evict.{
  Inv, Unique-fit, Unique-take, evict-Evicted, kept, lookup-take-none, pushed-eq,
}

minus_dropped_lt :
    (bytes : ℕ) (o : Option (CacheKey × Blob)) → bytes < 2 ^ 64 → minus_dropped bytes o < 2 ^ 64
minus_dropped_lt bytes none h = h
minus_dropped_lt bytes (some x) h = omega arith

lookup_removed : (k : CacheKey) (m : Map CacheKey Blob) → lookup k (remove k m) ≡ none
lookup_removed k m = ground (arith, lookup-remove k k m, cache_key_eqb_iff k k)

total-to_front :
    (k : CacheKey) (m : Map CacheKey Blob)
    → Unique m
    → (total (to_front k (lookup k m) m) ≡ total m) × Unique (to_front k (lookup k m) m)
total-to_front k m u = elim (Option-cases (lookup k m)) [
  | inl missing ↦ rw missing (refl, u)
  | inr (v, found) ↦
      let sum = total-insert_old k v v m u found in
      rw found (omega (arith, sum), Unique-insert k v m u)
]

module _ (lru : LruMap CacheKey Blob) (laws : LruMapLaws lru) where
  -- The entry put in, then the others in the order of their last use, as many as the capacity
  -- and then the budget leave room for.
  abbrev pub expected : CacheKey → Blob → CodeCache lru → Map CacheKey Blob
  expected k v c =
      fit c.max_bytes ((k, v) ∷ take (laws.capacity c.entries - 1) (remove k (kept lru laws c)))

  pub put-Evicted :
      (k : CacheKey) (v : Blob) (c : CodeCache lru)
      → Inv lru laws c
      → length v ≤ c.max_bytes
      → (kept lru laws (put lru k v c) ≡ expected k v c)
        × Inv lru laws (put lru k v c)
        × ((put lru k v c).max_bytes ≡ c.max_bytes)
        × (laws.capacity (put lru k v c).entries ≡ laws.capacity c.entries)
  unfolding put
  put-Evicted k v c inv fits =
      let fitting : ltb c.max_bytes (length v) ≡ false = ground arith in
      let pushed = pushed-eq lru laws k v c inv fits in
      let P = lru.push k v c.entries in
      let bytes : ℕ = minus_dropped (usize_add c.bytes (length v)) P.0 in
      let d : CodeCache lru = record c { entries = P.1; bytes = bytes } in
      let small : total (laws.view P.1) < 2 ^ 64 =
        rw (sym pushed.1) (minus_dropped_lt (usize_add c.bytes (length v)) P.0 (omega arith)) in
      let left =
        evict-Evicted lru laws (lru.len P.1) d pushed.1 small
          (rw (laws.len_view P.1) (omega arith)) in
      let shown = left.fitted ∙ ap (fit c.max_bytes) pushed.0 in
      rw fitting (
        shown,
        record {
          unique = rw shown (
              Unique-fit c.max_bytes
                ((k, v) ∷ take (laws.capacity c.entries - 1) (remove k (kept lru laws c)))
                (
                  lookup-take-none (laws.capacity c.entries - 1) k (remove k (kept lru laws c))
                      (lookup_removed k (kept lru laws c)),
                  Unique-take (laws.capacity c.entries - 1) (remove k (kept lru laws c))
                      (Unique-remove k (kept lru laws c) inv.unique),
                ));
          counted = left.recounted;
          within =
              rw (shown, left.same_budget)
                (total-fit c.max_bytes
                  ((k, v) ∷ take (laws.capacity c.entries - 1) (remove k (kept lru laws c))));
          some_room = rw (left.same_room, laws.push_capacity k v c.entries) inv.some_room;
          small = rw left.same_budget inv.small;
        },
        left.same_budget,
        left.same_room ∙ laws.push_capacity k v c.entries,
      )

  -- A blob over the budget is not put in.
  pub put_over :
      (k : CacheKey) (v : Blob) (c : CodeCache lru) → c.max_bytes < length v → put lru k v c ≡ c
  unfolding put
  put_over k v c h = let over : ltb c.max_bytes (length v) ≡ true = ground arith in rw over refl

  pub get-Inv : (k : CacheKey) (c : CodeCache lru) → Inv lru laws c → Inv lru laws (get lru k c).1
  unfolding get
  get-Inv k c inv =
      let moved = total-to_front k (kept lru laws c) inv.unique in
      let shown = laws.get_view k c.entries in
      record {
        unique = rw shown moved.1;
        counted = rw (shown, moved.0) inv.counted;
        within = rw (shown, moved.0) inv.within;
        some_room = rw (laws.get_capacity k c.entries) inv.some_room;
        small = inv.small;
      }
