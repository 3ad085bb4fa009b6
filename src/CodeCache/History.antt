-- ===== src/CodeCache/History.antt =====
-- The cache of src/code_cache.rs over any history of calls.
use openworkers_runner.Common.{
  Bool-cases, List, Option, Option-cases, [], ap, arith, if◌then◌else◌, inl, inr, leb, nat_eq, none,
  option_eq, refl, some, string_eq, suc, sym, zero, ℕ, ◌&&◌, ◌-◌, ◌<◌, ◌==◌, ◌^◌, ◌∙◌, ◌∷◌, ◌≡◌,
  ◌≤◌,
}
use openworkers_runner.Common.Lists.{length, take}
use openworkers_runner.Common.Maps.{Map, lookup, lookup-insert, lookup-remove, remove}
use openworkers_runner.CodeCache.{
  Blob, CacheKey, Call, CodeCache, cache_key_eq, cache_key_eqb_iff, get, gets, new, put, puts, run,
}
use openworkers_runner.CodeCache.Lru.{LruMap, LruMapLaws, to_front}
use openworkers_runner.CodeCache.Prefix.{fit, total}
use openworkers_runner.CodeCache.Evict.{Inv, kept}
use openworkers_runner.CodeCache.Kept.{get-Inv, put-Evicted, put_over}

-- The blob that calls leave under a key, were nothing ever evicted: the one put last, of those
-- within the budget.
unfoldable pub last_put : ℕ → CacheKey → List Call → Option Blob → Option Blob
last_put b key [] before = before
last_put b key (gets _ ∷ calls) before = last_put b key calls before
last_put b key (puts k v ∷ calls) before =
    last_put b key calls (if k == key && leb (length v) b then some v else before)

lookup-fit :
    (b : ℕ) (k : CacheKey) (w : Blob) (m : Map CacheKey Blob)
    → lookup k (fit b m) ≡ some w
    → lookup k m ≡ some w
unfolding lookup fit
lookup-fit b k w [] h = h
lookup-fit b k w ((j, v) ∷ m) h = ground (arith, lookup-fit (b - length v) k w m)

front_found :
    (b : ℕ) (k : CacheKey) (v : Blob) (m : Map CacheKey Blob)
    → length v ≤ b
    → lookup k (fit b ((k, v) ∷ m)) ≡ some v
unfolding lookup fit
front_found b k v m h = ground (arith, cache_key_eqb_iff k k)

lookup-take :
    (n : ℕ) (k : CacheKey) (w : Blob) (m : Map CacheKey Blob)
    → lookup k (take n m) ≡ some w
    → lookup k m ≡ some w
unfolding lookup
lookup-take zero k w m h = absurd (cc)
lookup-take (suc n) k w [] h = h
lookup-take (suc n) k w ((j, v) ∷ m) h = ground (arith, lookup-take n k w m)

lookup-to_front :
    (k j : CacheKey) (m : Map CacheKey Blob) → lookup j (to_front k (lookup k m) m) ≡ lookup j m
lookup-to_front k j m = elim (Option-cases (lookup k m)) [
  | inl missing ↦ rw missing refl
  | inr (v, found) ↦ rw found (ground (arith, cache_key_eqb_iff k j, lookup-insert k j v m))
]

module _ (lru : LruMap CacheKey Blob) (laws : LruMapLaws lru) (max_entries max_bytes : ℕ) where
  record Reached (c : CodeCache lru) : Type 0 where
    inv : Inv lru laws c
    budget : c.max_bytes ≡ max_bytes
    room : laws.capacity c.entries ≡ max_entries

  new-Reached : 1 ≤ max_entries → max_bytes < 2 ^ 63 → Reached (new lru max_entries max_bytes)
  unfolding new total
  new-Reached some_room small = record {
    inv = record {
      unique = rw (laws.view_new max_entries) tt;
      counted = rw (laws.view_new max_entries) refl;
      within = rw (laws.view_new max_entries) (omega arith);
      some_room = rw (laws.capacity_new max_entries) some_room;
      small = small;
    };
    budget = refl;
    room = laws.capacity_new max_entries;
  }

  put-Reached : (k : CacheKey) (v : Blob) (c : CodeCache lru) → Reached c → Reached (put lru k v c)
  put-Reached k v c r = elim (Bool-cases (leb (length v) c.max_bytes)) [
    | inl fits ↦
        let p = put-Evicted lru laws k v c r.inv (ground arith) in
        record { inv = p.1; budget = p.2 ∙ r.budget; room = p.3 ∙ r.room }
    | inr over ↦ rw (put_over lru laws k v c (ground arith)) r
  ]

  get-Reached : (k : CacheKey) (c : CodeCache lru) → Reached c → Reached (get lru k c).1
  unfolding get
  get-Reached k c r = record {
    inv = get-Inv lru laws k c r.inv;
    budget = r.budget;
    room = laws.get_capacity k c.entries ∙ r.room;
  }

  run-Reached : (calls : List Call) (c : CodeCache lru) → Reached c → Reached (run lru calls c)
  unfolding run
  run-Reached [] c r = r
  run-Reached (gets k ∷ calls) c r = run-Reached calls (get lru k c).1 (get-Reached k c r)
  run-Reached (puts k v ∷ calls) c r = run-Reached calls (put lru k v c) (put-Reached k v c r)

  -- From an empty cache on.
  abbrev after : List Call → CodeCache lru
  after calls = run lru calls (new lru max_entries max_bytes)

  -- From an empty cache of a positive capacity, over any calls, the bytes that are counted are
  -- those of the entries, no matter how usize wraps; they are within the budget, and the entries
  -- within the capacity. The budget is below 2^63.
  pub bytes-run :
      (calls : List Call)
      → 1 ≤ max_entries
      → max_bytes < 2 ^ 63
      → ((after calls).bytes ≡ total (laws.view (after calls).entries))
        × ((after calls).bytes ≤ max_bytes)
        × (lru.len (after calls).entries ≤ max_entries)
  bytes-run calls some_room small =
      let r = run-Reached calls (new lru max_entries max_bytes) (new-Reached some_room small) in
      (
        r.inv.counted,
        ground (arith, r.inv.counted, r.inv.within, r.budget),
        ground
            (arith, laws.len_view (after calls).entries, laws.full (after calls).entries, r.room),
      )

  -- After any calls, a put of a blob within the budget keeps the new entry and, in the order of
  -- their last use, as many of the other keys as the capacity and then the budget leave room for;
  -- a get of its key then finds it.
  pub get-put :
      (calls : List Call) (k : CacheKey) (v : Blob)
      → 1 ≤ max_entries
      → max_bytes < 2 ^ 63
      → length v ≤ max_bytes
      → (laws.view (put lru k v (after calls)).entries
          ≡ fit max_bytes
              ((k, v) ∷ take (max_entries - 1) (remove k (laws.view (after calls).entries))))
        × ((get lru k (put lru k v (after calls))).0 ≡ some v)
  unfolding get lookup fit
  get-put calls k v some_room small fits =
      let r = run-Reached calls (new lru max_entries max_bytes) (new-Reached some_room small) in
      let p = put-Evicted lru laws k v (after calls) r.inv (rw r.budget fits) in
      let shown = p.0 ∙ rw (r.budget, r.room) refl in
      (
        shown,
        laws.get_found k (put lru k v (after calls)).entries
            ∙ ap (lookup k) shown
            ∙ front_found max_bytes k v
                (take (max_entries - 1) (remove k (laws.view (after calls).entries))) fits,
      )

  -- An entry that is found after a put is the new one, or was there before.
  put-found :
      (key k : CacheKey) (v : Blob) (c : CodeCache lru) (before : Option Blob) (x : Blob)
      → Reached c
      → (lookup key (kept lru laws c) ≡ some x → before ≡ some x)
      → lookup key (kept lru laws (put lru k v c)) ≡ some x
      → (if k == key && leb (length v) max_bytes then some v else before) ≡ some x
  unfolding lookup
  put-found key k v c before x r known found = elim (Bool-cases (leb (length v) max_bytes)) [
    | inr over ↦
        let same = put_over lru laws k v c (ground (arith, r.budget)) in
        ground (arith, known (rw same at found))
    | inl fits ↦
        let p = put-Evicted lru laws k v c r.inv (ground (arith, r.budget)) in
        let others = take (laws.capacity c.entries - 1) (remove k (kept lru laws c)) in
        let there : lookup key ((k, v) ∷ others) ≡ some x =
          lookup-fit c.max_bytes key x ((k, v) ∷ others) (rw p.0 at found) in
        elim (Bool-cases (k == key)) [
          | inl same ↦ ground (arith, there)
          | inr other ↦
              let rest =
                lookup-take (laws.capacity c.entries - 1) key x (remove k (kept lru laws c))
                  (rw other at there) in
              ground (arith, known, rest, lookup-remove k key (kept lru laws c))
        ]
  ]

  run-found :
      (calls : List Call) (key : CacheKey) (c : CodeCache lru) (before : Option Blob) (w : Blob)
      → Reached c
      → ((x : Blob) → lookup key (kept lru laws c) ≡ some x → before ≡ some x)
      → lookup key (kept lru laws (run lru calls c)) ≡ some w
      → last_put max_bytes key calls before ≡ some w
  unfolding run last_put
  run-found [] key c before w r known h = known w h
  run-found (gets k ∷ calls) key c before w r known h =
      run-found calls key (get lru k c).1 before w (get-Reached k c r)
        (λ x found. known x (
          sym (lookup-to_front k key (kept lru laws c))
          ∙ ap (lookup key) (sym (laws.get_view k c.entries))
          ∙ found))
        h
  run-found (puts k v ∷ calls) key c before w r known h =
      run-found calls key (put lru k v c)
        (if k == key && leb (length v) max_bytes then some v else before) w (put-Reached k v c r)
        (λ x. put-found key k v c before x r (known x)) h

  -- From an empty cache of a positive capacity and with a budget below 2^63, a blob that a get
  -- finds after any calls is the one that was put last under its key, of those within the budget:
  -- an eviction leaves entries out and mixes none up.
  pub get-last_put :
      (calls : List Call) (key : CacheKey) (w : Blob)
      → 1 ≤ max_entries
      → max_bytes < 2 ^ 63
      → (get lru key (after calls)).0 ≡ some w
      → last_put max_bytes key calls none ≡ some w
  unfolding get new lookup
  get-last_put calls key w some_room small h =
      run-found calls key (new lru max_entries max_bytes) none w (new-Reached some_room small)
        (λ x found. rw (laws.view_new max_entries) at found)
        (sym (laws.get_found key (after calls).entries) ∙ h)
