-- ===== src/CodeCache/Prefix.antt =====
-- Entries weighed by their bytes, for src/code_cache.rs: the longest run from the front that fits.
use openworkers_runner.Common.{
  Bool-cases, List, [], ap, arith, false, if◌then◌else◌, inl, inr, leb, nat_eq, option_eq, refl,
  some, string_eq, true, ℕ, ◌++◌, ◌+◌, ◌-◌, ◌<◌, ◌∷◌, ◌≡◌, ◌≤◌, ◌⊎◌,
}
use openworkers_runner.Common.Lists.{length}
use openworkers_runner.Common.Maps.{Map, Unique, insert, lookup, remove}
use openworkers_runner.CodeCache.{Blob, CacheKey, cache_key_eq, cache_key_eqb_iff}
use openworkers_runner.Common.Maps.Counting.{remove_of_lookup}

unfoldable pub total : Map CacheKey Blob → ℕ
total [] = 0
total ((k, v) ∷ m) = length v + total m

-- The entries from the front on, up to the first that does not fit.
unfoldable pub fit : ℕ → Map CacheKey Blob → Map CacheKey Blob
fit budget [] = []
fit budget ((k, v) ∷ m) =
    let rest : Map CacheKey Blob = fit (budget - length v) m in
    if leb (length v) budget then (k, v) ∷ rest else []

pub total-append : (m n : Map CacheKey Blob) → total (m ++ n) ≡ total m + total n
unfolding total
total-append [] n = omega arith
total-append ((k, v) ∷ m) n = omega (arith, total-append m n)

pub fit_all : (b : ℕ) (m : Map CacheKey Blob) → total m ≤ b → fit b m ≡ m
unfolding total fit
fit_all b [] h = refl
fit_all b ((k, v) ∷ m) h =
    let fits : leb (length v) b ≡ true = ground arith in
    rw fits (ap (λ rest. (k, v) ∷ rest) (fit_all (b - length v) m (omega arith)))

-- Where the whole does not fit, the last entry makes no difference.
pub fit_last :
    (b : ℕ) (m : Map CacheKey Blob) (x : CacheKey × Blob)
    → b < total (m ++ (x ∷ []))
    → fit b (m ++ (x ∷ [])) ≡ fit b m
unfolding total fit
fit_last b [] x h = let over : leb (length x.1) b ≡ false = ground arith in rw over refl
fit_last b ((k, v) ∷ m) x h = elim (Bool-cases (leb (length v) b)) [
  | inl fits ↦ rw fits (ap (λ rest. (k, v) ∷ rest) (fit_last (b - length v) m x (ground arith)))
  | inr over ↦ rw over refl
]

pub total-fit : (b : ℕ) (m : Map CacheKey Blob) → total (fit b m) ≤ b
unfolding total fit
total-fit b [] = omega arith
total-fit b ((k, v) ∷ m) = ground (arith, total-fit (b - length v) m)

pub length-fit : (b : ℕ) (m : Map CacheKey Blob) → length (fit b m) ≤ length m
unfolding fit
length-fit b [] = omega arith
length-fit b ((k, v) ∷ m) = ground (arith, length-fit (b - length v) m)

pub last-cases {ℓ} :
    {A : Type ℓ} (m : List A) → (m ≡ []) ⊎ ((rest : List A) × (x : A) × (m ≡ rest ++ (x ∷ [])))
last-cases [] = inl refl
last-cases (y ∷ m) = elim (last-cases m) [
  | inl none_left ↦ inr ([], y, ap (λ l. y ∷ l) none_left)
  | inr (rest, x, e) ↦ inr (y ∷ rest, x, ap (λ l. y ∷ l) e)
]

pub total-insert_old :
    (k : CacheKey) (v w : Blob) (m : Map CacheKey Blob)
    → Unique m
    → lookup k m ≡ some w
    → total (insert k v m) + length w ≡ total m + length v
unfolding total lookup insert remove
total-insert_old k v w [] u h = absurd (cc)
total-insert_old k v w ((j, x) ∷ m) u h =
    ground (arith, cache_key_eqb_iff j k, total-insert_old k v w m u.1, remove_of_lookup k m)
