-- ===== src/CodeCache/Evict.antt =====
-- The eviction of src/code_cache.rs, and the state of the cache over its calls.
use openworkers_runner.Common.{
  Bool-cases, List, Option-cases, [], ap, arith, false, inl, inr, ltb, nat_eq, none, option_eq,
  refl, some, string_eq, suc, sym, zero, ℕ, ◌++◌, ◌+◌, ◌-◌, ◌<◌, ◌^◌, ◌∙◌, ◌∷◌, ◌≡◌, ◌≤◌,
}
use openworkers_runner.Common.Lists.{length, length-append, take}
use openworkers_runner.Common.Maps.{Map, Unique, insert, lookup, remove}
use openworkers_runner.Common.Maps.Counting.{remove_of_lookup}
use openworkers_runner.CodeCache.{
  Blob, CacheKey, CodeCache, cache_key_eq, evict, minus_dropped, usize_add, usize_sub,
}
use openworkers_runner.CodeCache.Lru.{LruMap, LruMapLaws}
use openworkers_runner.CodeCache.Prefix.{
  fit, fit_all, fit_last, last-cases, total, total-append, total-insert_old,
}

module _ {ℓ} {A : Type ℓ} where
  pub take_all : (n : ℕ) (m : List A) → length m ≤ n → take n m ≡ m
  take_all zero [] h = refl
  take_all zero (x ∷ m) h = absurd (omega arith)
  take_all (suc n) [] h = refl
  take_all (suc n) (x ∷ m) h = ap (λ l. x ∷ l) (take_all n m (omega arith))

  pub take_init : (n : ℕ) (m : List A) (x : A) → length m ≡ n → take n (m ++ (x ∷ [])) ≡ m
  take_init zero [] x h = refl
  take_init zero (y ∷ m) x h = absurd (omega arith)
  take_init (suc n) [] x h = absurd (omega arith)
  take_init (suc n) (y ∷ m) x h = ap (λ l. y ∷ l) (take_init n m x (omega arith))

no_entries : (m : Map CacheKey Blob) → length m ≤ 0 → m ≡ []
no_entries [] h = refl
no_entries (x ∷ m) h = absurd (omega arith)

length-remove : (k : CacheKey) (m : Map CacheKey Blob) → length (remove k m) ≤ length m
unfolding remove
length-remove k [] = omega arith
length-remove k ((j, v) ∷ m) = ground (arith, length-remove k m)

pub length-remove_old :
    (k : CacheKey) (w : Blob) (m : Map CacheKey Blob)
    → lookup k m ≡ some w
    → length (remove k m) < length m
unfolding remove lookup
length-remove_old k w [] h = absurd (cc)
length-remove_old k w ((j, v) ∷ m) h = ground (arith, length-remove k m, length-remove_old k w m)

pub lookup-take-none :
    (n : ℕ) (k : CacheKey) (m : Map CacheKey Blob) → lookup k m ≡ none → lookup k (take n m) ≡ none
unfolding lookup
lookup-take-none zero k m h = refl
lookup-take-none (suc n) k [] h = refl
lookup-take-none (suc n) k ((j, v) ∷ m) h = ground (arith, lookup-take-none n k m)

pub Unique-take : (n : ℕ) (m : Map CacheKey Blob) → Unique m → Unique (take n m)
Unique-take zero m u = tt
Unique-take (suc n) [] u = tt
Unique-take (suc n) ((k, v) ∷ m) u = (lookup-take-none n k m u.0, Unique-take n m u.1)

pub lookup-fit-none :
    (b : ℕ) (k : CacheKey) (m : Map CacheKey Blob) → lookup k m ≡ none → lookup k (fit b m) ≡ none
unfolding lookup fit
lookup-fit-none b k [] h = refl
lookup-fit-none b k ((j, v) ∷ m) h = ground (arith, lookup-fit-none (b - length v) k m)

pub Unique-fit : (b : ℕ) (m : Map CacheKey Blob) → Unique m → Unique (fit b m)
unfolding fit
Unique-fit b [] u = tt
Unique-fit b ((k, v) ∷ m) u =
    ground (arith, lookup-fit-none (b - length v) k m u.0, Unique-fit (b - length v) m u.1)

module _ (lru : LruMap CacheKey Blob) (laws : LruMapLaws lru) where
  abbrev pub kept : CodeCache lru → Map CacheKey Blob
  kept c = laws.view c.entries

  -- The bytes are counted right and fit.
  pub record Inv (c : CodeCache lru) : Type 0 where
    pub unique : Unique (kept c)
    pub counted : c.bytes ≡ total (kept c)
    pub within : total (kept c) ≤ c.max_bytes
    pub some_room : 1 ≤ laws.capacity c.entries
    pub small : c.max_bytes < 2 ^ 63

  -- What the loop leaves: as many of the entries used last as fit.
  pub record Evicted (c d : CodeCache lru) : Type 0 where
    pub fitted : kept d ≡ fit c.max_bytes (kept c)
    pub recounted : d.bytes ≡ total (kept d)
    pub same_budget : d.max_bytes ≡ c.max_bytes
    pub same_room : laws.capacity d.entries ≡ laws.capacity c.entries

  unchanged :
      (c : CodeCache lru) → c.bytes ≡ total (kept c) → ltb c.max_bytes c.bytes ≡ false → Evicted c c
  unchanged c counted fits = record {
    fitted = sym (fit_all c.max_bytes (kept c) (ground arith));
    recounted = counted;
    same_budget = refl;
    same_room = refl;
  }

  -- One turn of the loop, and what the turns after it leave.
  turn :
      (c d : CodeCache lru) (rest : Map CacheKey Blob) (oldest : CacheKey × Blob)
      → kept c ≡ rest ++ (oldest ∷ [])
      → c.max_bytes < total (kept c)
      → laws.view (lru.pop_lru c.entries).1 ≡ rest
      → Evicted
          (record c {
            entries = (lru.pop_lru c.entries).1;
            bytes = usize_sub c.bytes (length oldest.1);
          })
          d
      → Evicted c d
  turn c d rest oldest e over popped later = record {
    fitted =
        later.fitted
        ∙ ap (fit c.max_bytes) popped
        ∙ sym (fit_last c.max_bytes rest oldest (rw (sym e) over))
        ∙ ap (fit c.max_bytes) (sym e);
    recounted = later.recounted;
    same_budget = later.same_budget;
    same_room = later.same_room ∙ laws.pop_capacity c.entries;
  }

  pub evict-Evicted :
      (fuel : ℕ) (c : CodeCache lru)
      → c.bytes ≡ total (kept c)
      → total (kept c) < 2 ^ 64
      → length (kept c) ≤ fuel
      → Evicted c (evict lru fuel c)
  unfolding evict total
  evict-Evicted zero c counted small enough =
      let nothing : kept c ≡ [] = no_entries (kept c) enough in
      unchanged c counted (ground (arith, ap total nothing))
  evict-Evicted (suc fuel) c counted small enough = elim (Bool-cases (ltb c.max_bytes c.bytes)) [
    | inr fits ↦ rw fits (unchanged c counted fits)
    | inl over ↦ elim (last-cases (kept c)) [
      | inl nothing ↦ absurd (ground (arith, ap total nothing))
      | inr (rest, oldest, e) ↦
          let popped = laws.pop_oldest c.entries rest oldest e in
          let sum : total (kept c) ≡ total rest + length oldest.1 =
            ap total e ∙ total-append rest (oldest ∷ []) ∙ omega arith in
          let long : length (kept c) ≡ length rest + 1 =
            ap length e ∙ length-append rest (oldest ∷ []) in
          rw (over, popped.0)
            (turn c
              (evict lru fuel (record c {
                entries = (lru.pop_lru c.entries).1;
                bytes = usize_sub c.bytes (length oldest.1);
              }))
              rest oldest e (ground arith) popped.1
              (evict-Evicted fuel
                (record c {
                  entries = (lru.pop_lru c.entries).1;
                  bytes = usize_sub c.bytes (length oldest.1);
                })
                (rw popped.1 (omega arith)) (rw popped.1 (omega arith))
                (rw popped.1 (omega arith))))
    ]
  ]

  -- What `push` of a key that is not there hands back, and what it keeps.
  push_new :
      (k : CacheKey) (v : Blob) (c : CodeCache lru)
      → Inv c
      → length v ≤ c.max_bytes
      → lookup k (kept c) ≡ none
      → (laws.view (lru.push k v c.entries).1
          ≡ (k, v) ∷ take (laws.capacity c.entries - 1) (kept c))
        × (minus_dropped (usize_add c.bytes (length v)) (lru.push k v c.entries).0
            ≡ total (laws.view (lru.push k v c.entries).1))
  unfolding total
  push_new k v c inv fits missing =
      elim (Bool-cases (ltb (length (kept c)) (laws.capacity c.entries))) [
        | inl room ↦
            let pushed = laws.push_room k v c.entries missing (ground arith) in
            let whole = take_all (laws.capacity c.entries - 1) (kept c) (ground arith) in
            (
              pushed.1 ∙ ap (λ l. (k, v) ∷ l) (sym whole),
              rw (pushed.0, pushed.1) (omega (arith, inv.counted, inv.within)),
            )
        | inr full ↦ elim (last-cases (kept c)) [
          | inl nothing ↦ absurd (ground (arith, ap length nothing))
          | inr (rest, oldest, e) ↦
              let pushed = laws.push_full k v c.entries rest oldest missing (ground arith) e in
              let long : length (kept c) ≡ length rest + 1 =
                ap length e ∙ length-append rest (oldest ∷ []) in
              let sum : total (kept c) ≡ total rest + length oldest.1 =
                ap total e ∙ total-append rest (oldest ∷ []) ∙ omega arith in
              let cut : take (laws.capacity c.entries - 1) (kept c) ≡ rest =
                ap (take (laws.capacity c.entries - 1)) e
                ∙ take_init (laws.capacity c.entries - 1) rest oldest
                    (ground (arith, laws.full c.entries)) in
              (
                pushed.1 ∙ ap (λ l. (k, v) ∷ l) (sym cut),
                rw (pushed.0, pushed.1) (omega (arith, inv.counted, inv.within)),
              )
        ]
      ]

  -- `push` puts the key in front of the others, as many as there is room for.
  pub pushed-eq :
      (k : CacheKey) (v : Blob) (c : CodeCache lru)
      → Inv c
      → length v ≤ c.max_bytes
      → (laws.view (lru.push k v c.entries).1
          ≡ (k, v) ∷ take (laws.capacity c.entries - 1) (remove k (kept c)))
        × (minus_dropped (usize_add c.bytes (length v)) (lru.push k v c.entries).0
            ≡ total (laws.view (lru.push k v c.entries).1))
  unfolding insert
  pushed-eq k v c inv fits = elim (Option-cases (lookup k (kept c))) [
    | inl missing ↦ rw (remove_of_lookup k (kept c) missing) (push_new k v c inv fits missing)
    | inr (w, found) ↦
        let pushed = laws.push_old k v w c.entries found in
        let whole =
          take_all (laws.capacity c.entries - 1) (remove k (kept c))
            (omega (arith, length-remove_old k w (kept c) found, laws.full c.entries)) in
        let sum = total-insert_old k v w (kept c) inv.unique found in
        (
          pushed.1 ∙ ap (λ l. (k, v) ∷ l) (sym whole),
          rw (pushed.0, pushed.1) (omega (arith, sum, inv.counted, inv.within)),
        )
  ]
