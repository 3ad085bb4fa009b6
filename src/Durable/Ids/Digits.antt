-- ===== src/Durable/Ids/Digits.antt =====
-- The digits of a hexadecimal code, for the interface of src/durable/id.rs.
use Prim.Native.Char.{Char, code}
use openworkers_runner.Common.{
  Bool, Bool-cases, Option, String, arith, eq_iff, false, if◌then◌else◌, inl, inr, leb, ltb, nat_eq,
  nat_eqb, none, not, option_eq, option_eqb, option_eqb_iff, refl, some, string_eq, suc, sym, true,
  zero, ℕ, ◌&&◌, ◌+◌, ◌-◌, ◌<◌, ◌==◌, ◌∙◌, ◌≡◌, ◌≤◌,
}
use openworkers_runner.Common.Text.{char_or, lower_char}

-- A test of the numbers below a bound.
abbrev all_below : ℕ → (ℕ → Bool) → Bool
all_below zero p = true
all_below (suc n) p = p n && all_below n p

below : (n : ℕ) (p : ℕ → Bool) → all_below n p ≡ true → (k : ℕ) → k < n → p k ≡ true
below zero p h k lt = absurd (omega arith)
below (suc n) p h k lt = elim (Bool-cases (nat_eqb k n)) [
  | inl last ↦ let same : k ≡ n = ground arith in rw same (ground arith)
  | inr other ↦ below n p (ground arith) k (ground arith)
]

abbrev pub digits : String
digits = "0123456789abcdef"

abbrev pub digit : ℕ → Char
digit n = char_or "0" n digits

abbrev one : Char → String
one c = String.◌∷◌ c String.[]

-- The place of a character in a text, from a number on.
unfoldable pub place : Char → String → ℕ → Option ℕ
place c String.[] n = none
place c (String.◌∷◌ d s) n =
    let rest : Option ℕ = place c s (suc n) in if one c == one d then some n else rest

abbrev pub value : Char → Option ℕ
value c = place (lower_char c) digits 0

place_lem :
    (c : Char) (s : String) (n k : ℕ) → place c s n ≡ some k → (n ≤ k) × (c ≡ char_or "0" (k - n) s)
unfolding place
place_lem c String.[] n k h = absurd (cc)
place_lem c (String.◌∷◌ d s) n k h = elim (Bool-cases (one c == one d)) [
  | inl hit ↦
      let first : k ≡ n = ground arith in
      let zeroth : k - n ≡ 0 = omega arith in
      let same : one c ≡ one d = (eq_iff (one c) (one d)).0 hit in (omega arith, rw zeroth (cc))
  | inr miss ↦
      let later = place_lem c s (suc n) k (ground arith) in
      let next : k - n ≡ suc (k - suc n) = omega (arith, later.0) in
      (omega (arith, later.0), rw next later.1)
]

abbrev is_upper : Char → Bool
is_upper c = leb b'A' (code c) && leb (code c) b'Z'

char_eq : (c d : Char) → (one c == one d) ≡ true → c ≡ d
char_eq c d h = let same : one c ≡ one d = (eq_iff (one c) (one d)).0 h in cc

pub value-digit : (n : ℕ) → n < 16 → value (digit n) ≡ some n
unfolding place option_eqb
value-digit n h = ground (
  arith,
  below 16 (λ k. option_eqb (value (digit k)) (some k)) refl n h,
  option_eqb_iff (value (digit n)) (some n),
)

pub lower_char-digit : (n : ℕ) → n < 16 → lower_char (digit n) ≡ digit n
lower_char-digit n h =
    char_eq (lower_char (digit n)) (digit n)
      (below 16 (λ k. one (lower_char (digit k)) == one (digit k)) refl n h)

pub digit_small : (n : ℕ) → n < 16 → code (digit n) < 128
digit_small n h =
    let small : ltb (code (digit n)) 128 ≡ true =
      below 16 (λ k. ltb (code (digit k)) 128) refl n h in
    ground arith

abbrev chars : String → ℕ
chars String.[] = 0
chars (String.◌∷◌ c s) = suc (chars s)

place_lt : (c : Char) (s : String) (n k : ℕ) → place c s n ≡ some k → k < n + chars s
unfolding place
place_lt c String.[] n k h = absurd (cc)
place_lt c (String.◌∷◌ d s) n k h = ground (arith, place_lt c s (suc n) k)

pub value_lem : (c : Char) (n : ℕ) → value c ≡ some n → (n < 16) × (digit n ≡ lower_char c)
value_lem c n h =
    let found = place_lem (lower_char c) digits 0 n h in
    let whole : n - 0 ≡ n = omega arith in
    (place_lt (lower_char c) digits 0 n h, sym (rw whole at (found.1)))

abbrev alphabet : String
alphabet = "abcdefghijklmnopqrstuvwxyz"

-- The lower case of a letter is no upper case letter.
letter_low : (c : Char) (k : ℕ) → k < 26 → is_upper (char_or c k alphabet) ≡ false
letter_low c k h =
    let low : not (is_upper (char_or c k alphabet)) ≡ true =
      below 26 (λ j. not (is_upper (char_or c j alphabet))) refl k h in
    ground arith

pub lower_char_twice : (c : Char) → lower_char (lower_char c) ≡ lower_char c
lower_char_twice c = elim (Bool-cases (is_upper c)) [
  | inr other ↦ rw (other, other) refl
  | inl upper ↦
      let low : is_upper (char_or c (code c - b'A') alphabet) ≡ false =
        letter_low c (code c - b'A') (ground arith) in
      rw (upper, low) refl
]

pub value_small : (c : Char) (n : ℕ) → value c ≡ some n → code c < 128
value_small c n h = elim (Bool-cases (is_upper c)) [
  | inl upper ↦ ground arith
  | inr other ↦
      let found = value_lem c n h in
      let same : digit n ≡ c = found.1 ∙ rw other refl in rw (sym same) (digit_small n found.0)
]
