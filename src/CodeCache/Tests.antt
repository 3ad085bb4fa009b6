-- ===== src/CodeCache/Tests.antt =====
-- src/code_cache.rs on concrete calls.
use openworkers_runner.Common.{
  List, Option, [], arith, if◌then◌else◌, nat_eq, none, option_eq, refl, some, string_eq, ℕ, ◌++◌,
  ◌==◌, ◌∷◌, ◌≡◌, ◌≤◌,
}
use openworkers_runner.Common.Lists.{length, take}
use openworkers_runner.Common.Maps.{insert, lookup, remove}
use openworkers_runner.Common.Int.{int_eq, pos}
use openworkers_runner.CodeCache.{
  Blob, CacheKey, Call, cache_key_eq, cache_key_eqb, code_key, evict, get, gets, max_bytes_of, new,
  put, puts, read_env, run,
}
use openworkers_runner.CodeCache.Prefix.{fit, total}
use openworkers_runner.CodeCache.Bounded.{listed, listed-LruMapLaws, shown}
use openworkers_runner.CodeCache.History.{bytes-run, get-last_put, get-put, last_put}

abbrev key_a : CacheKey
key_a = code_key "a" (pos 1)

abbrev key_b : CacheKey
key_b = code_key "b" (pos 1)

abbrev key_c : CacheKey
key_c = code_key "c" (pos 1)

abbrev two : Blob
two = 0 ∷ 0 ∷ []

-- The blobs found under three keys after calls in a cache of five bytes and ten entries.
abbrev seen : List Call → ℕ × List (Option Blob)
unfolding run get put evict new cache_key_eqb lookup insert remove
seen calls =
    let c = run listed calls (new listed 10 5) in
    (c.bytes, (get listed key_a c).0 ∷ (get listed key_b c).0 ∷ (get listed key_c c).0 ∷ [])

evicts_oldest :
    seen (puts key_a two ∷ puts key_b two ∷ puts key_c two ∷ [])
    ≡ (4, none ∷ some two ∷ some two ∷ [])
unfolding seen
evicts_oldest = refl

rejects_over_budget :
    seen (puts key_a two ∷ puts key_b (0 ∷ 0 ∷ 0 ∷ two ++ two) ∷ [])
    ≡ (2, some two ∷ none ∷ none ∷ [])
unfolding seen
rejects_over_budget = refl

get_refreshes :
    seen (puts key_a two ∷ puts key_b two ∷ gets key_a ∷ puts key_c two ∷ [])
    ≡ (4, some two ∷ none ∷ some two ∷ [])
unfolding seen
get_refreshes = refl

replaces : seen (puts key_a two ∷ puts key_a (7 ∷ []) ∷ []) ≡ (1, some (7 ∷ []) ∷ none ∷ none ∷ [])
unfolding seen
replaces = refl

deprecated_name :
    max_bytes_of (λ name. if name == "SNAPSHOT_CACHE_MAX_BYTES" then some 123 else none) ≡ 123
unfolding max_bytes_of read_env
deprecated_name = refl

abbrev three_puts : List Call
three_puts = puts key_a two ∷ puts key_b two ∷ puts key_c two ∷ []

bytes-run_example :
    ((run listed three_puts (new listed 10 5)).bytes
      ≡ total (listed-LruMapLaws.view (run listed three_puts (new listed 10 5)).entries))
    × ((run listed three_puts (new listed 10 5)).bytes ≤ 5)
    × (length (shown (run listed three_puts (new listed 10 5)).entries) ≤ 10)
bytes-run_example = bytes-run listed listed-LruMapLaws 10 5 three_puts (omega arith) (omega arith)

get-put_example :
    (listed-LruMapLaws.view (put listed key_a two (run listed three_puts (new listed 10 5))).entries
      ≡ fit 5 (
          (key_a, two)
          ∷ take 9 (
              remove key_a
                (listed-LruMapLaws.view (run listed three_puts (new listed 10 5)).entries))))
    × ((get listed key_a (put listed key_a two (run listed three_puts (new listed 10 5)))).0
        ≡ some two)
get-put_example =
    get-put listed listed-LruMapLaws 10 5 three_puts key_a two (omega arith) (omega arith)
      (omega arith)

c_is_found : (get listed key_c (run listed three_puts (new listed 10 5))).0 ≡ some two
unfolding run get put evict new cache_key_eqb lookup insert remove
c_is_found = refl

get-last_put_example : last_put 5 key_c three_puts none ≡ some two
get-last_put_example =
    get-last_put listed listed-LruMapLaws 10 5 three_puts key_c two (omega arith) (omega arith)
      c_is_found
