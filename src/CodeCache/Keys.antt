-- ===== src/CodeCache/Keys.antt =====
-- The keys of src/code_cache.rs: compiled components beside V8 code caches.
use openworkers_runner.Common.{
  String, ap, arith, nat_eq, option_eq, refl, string_eq, suc, ℕ, ◌+◌, ◌≡◌, ◌≢◌,
}
use openworkers_runner.Common.Text.{append}
use openworkers_runner.Common.Int.{int_eq, ℤ}
use openworkers_runner.CodeCache.{CacheKey, cache_key_eq, code_key, wasm_id, wasm_key}

abbrev text_length : String → ℕ
text_length String.[] = 0
text_length (String.◌∷◌ c s) = suc (text_length s)

text_length-append : (s t : String) → text_length (append s t) ≡ text_length s + text_length t
text_length-append String.[] t = omega arith
text_length-append (String.◌∷◌ c s) t = omega (arith, text_length-append s t)

-- What stands before a common end is determined.
append_cancel : (a b t : String) → append a t ≡ append b t → a ≡ b
append_cancel String.[] String.[] t e = refl
append_cancel String.[] (String.◌∷◌ d b) t e =
    absurd (omega (arith, ap text_length e, text_length-append b t))
append_cancel (String.◌∷◌ c a) String.[] t e =
    absurd (omega (arith, ap text_length e, text_length-append a t))
append_cancel (String.◌∷◌ c a) (String.◌∷◌ d b) t e =
    let head : c ≡ d = cc in
    let tail : append a t ≡ append b t = cc in rw (head, append_cancel a b t tail) refl

append_left_cancel : (p s t : String) → append p s ≡ append p t → s ≡ t
append_left_cancel String.[] s t e = e
append_left_cancel (String.◌∷◌ c p) s t e = append_left_cancel p s t (cc)

-- The component of a worker is never looked up as its code cache, whatever the engine and the
-- versions; and engines with other settings look up other components of a worker.
pub wasm_key_apart :
    (worker_id engine other : String) (v w : ℤ)
    → (wasm_key worker_id v engine ≢ code_key worker_id w)
      × (wasm_key worker_id v engine ≡ wasm_key worker_id w other → engine ≡ other)
unfolding wasm_id
wasm_key_apart worker_id engine other v w = (
  (λ e. omega (
    arith,
    ap (λ key. text_length (CacheKey.id key)) e,
    text_length-append engine (append ":" worker_id),
  )),
  (λ e. append_cancel engine other (append ":" worker_id) (
      append_left_cancel "wasm:" (append engine (append ":" worker_id))
        (append other (append ":" worker_id)) (ap CacheKey.id e))),
)
