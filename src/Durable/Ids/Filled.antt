-- ===== src/Durable/Ids/Filled.antt =====
-- A hexadecimal code and a MAC over lists, which show that the interface of src/durable/id.rs can be
-- filled. The MAC is no good one.
use Prim.Native.Char.{Char, code}
use openworkers_runner.Common.{
  Bool, List, Option, Option-cases, String, [], ap, arith, false, inl, inr, nat_eq, nat_eqb,
  nat_eqb_iff, none, option_eq, refl, some, string_eq, suc, true, zero, ℕ, ◌%◌, ◌&&◌, ◌*◌, ◌+◌, ◌/◌,
  ◌<◌, ◌↔◌, ◌∷◌, ◌≡◌,
}
use openworkers_runner.Common.Lists.{length, take}
use openworkers_runner.Common.Text.{byte_length, char_bytes, to_ascii_lowercase}
use openworkers_runner.Durable.Ids.Interface.{Bytes, Crates, CratesLaws}
use openworkers_runner.Durable.Ids.Digits.{
  digit, digit_small, lower_char-digit, lower_char_twice, value, value-digit, value_lem,
  value_small,
}

unfoldable pub list_eqb : List ℕ → List ℕ → Bool
list_eqb [] [] = true
list_eqb [] (y ∷ ys) = false
list_eqb (x ∷ xs) [] = false
list_eqb (x ∷ xs) (y ∷ ys) = nat_eqb x y && list_eqb xs ys

list_eqb_iff : (xs ys : List ℕ) → (list_eqb xs ys ≡ true) ↔ (xs ≡ ys)
unfolding list_eqb
list_eqb_iff [] [] = ground arith
list_eqb_iff [] (y ∷ ys) = ground arith
list_eqb_iff (x ∷ xs) [] = ground arith
list_eqb_iff (x ∷ xs) (y ∷ ys) = ground (arith, nat_eqb_iff x y, list_eqb_iff xs ys)

-- hex::encode and hex::decode.
unfoldable pub hex_encode : List ℕ → String
hex_encode [] = String.[]
hex_encode (b ∷ bytes) =
    String.◌∷◌ (digit (b / 16)) (String.◌∷◌ (digit (b % 16)) (hex_encode bytes))

abbrev pub one_byte : Option ℕ → Option ℕ → Option (List ℕ) → Option (List ℕ)
one_byte none low rest = none
one_byte (some high) none rest = none
one_byte (some high) (some low) none = none
one_byte (some high) (some low) (some bytes) = some ((high * 16 + low) ∷ bytes)

unfoldable pub hex_decode : String → Option (List ℕ)
hex_decode String.[] = some []
hex_decode (String.◌∷◌ c String.[]) = none
hex_decode (String.◌∷◌ c (String.◌∷◌ d s)) = one_byte (value c) (value d) (hex_decode s)

decode-encode : (bytes : List ℕ) → Bytes bytes → hex_decode (hex_encode bytes) ≡ some bytes
unfolding hex_encode hex_decode
decode-encode [] b = refl
decode-encode (x ∷ bytes) b =
    let whole : x / 16 * 16 + x % 16 ≡ x = omega arith in
    rw
      (
        value-digit (x / 16) (omega (arith, b.0)),
        value-digit (x % 16) (omega arith),
        decode-encode bytes b.1,
        whole,
      )
      refl

char_bytes_small : (n : ℕ) → n < 128 → char_bytes n ≡ 1
char_bytes_small n h = ground arith

encode-length : (bytes : List ℕ) → Bytes bytes → byte_length (hex_encode bytes) ≡ 2 * length bytes
unfolding hex_encode byte_length
encode-length [] b = refl
encode-length (x ∷ bytes) b =
    let high = digit_small (x / 16) (omega (arith, b.0)) in
    let low = digit_small (x % 16) (omega arith) in
    omega (
      arith,
      char_bytes_small (code (digit (x / 16))) high,
      char_bytes_small (code (digit (x % 16))) low,
      encode-length bytes b.1,
    )

encode-lower :
    (bytes : List ℕ) → Bytes bytes → to_ascii_lowercase (hex_encode bytes) ≡ hex_encode bytes
unfolding hex_encode
encode-lower [] b = refl
encode-lower (x ∷ bytes) b =
    rw
      (
        lower_char-digit (x / 16) (omega (arith, b.0)),
        lower_char-digit (x % 16) (omega arith),
        encode-lower bytes b.1,
      )
      refl

decode-case : (text : String) → hex_decode (to_ascii_lowercase text) ≡ hex_decode text
unfolding hex_decode
decode-case String.[] = refl
decode-case (String.◌∷◌ c String.[]) = refl
decode-case (String.◌∷◌ c (String.◌∷◌ d s)) =
    rw (lower_char_twice c, lower_char_twice d, decode-case s) refl

-- What two digits and the digits after them give.
one_byte_lem :
    (c d : Char) (rest : Option (List ℕ)) (bytes : List ℕ)
    → one_byte (value c) (value d) rest ≡ some bytes
    → (high : ℕ) × (low : ℕ) × (others : List ℕ) × (value c ≡ some high)
      × (value d ≡ some low)
      × (rest ≡ some others)
      × (bytes ≡ (high * 16 + low) ∷ others)
one_byte_lem c d rest bytes h = elim (Option-cases (value c)) [
  | inl e ↦ absurd (ground (arith, ap (λ v. one_byte v (value d) rest) e))
  | inr (high, e) ↦ elim (Option-cases (value d)) [
    | inl f ↦ absurd (ground (arith, ap (λ v. one_byte (some high) v rest) f, rw e at h))
    | inr (low, f) ↦ elim (Option-cases rest) [
      | inl g ↦ absurd (ground (arith, rw (e, f, g) at h))
      | inr (others, g) ↦ (high, low, others, e, f, g, ground (arith, rw (e, f, g) at h))
    ]
  ]
]

decode-some :
    (text : String) (bytes : List ℕ)
    → hex_decode text ≡ some bytes
    → Bytes bytes
      × (byte_length text ≡ 2 * length bytes)
      × (hex_encode bytes ≡ to_ascii_lowercase text)
unfolding hex_decode hex_encode byte_length
decode-some String.[] bytes h = let e : bytes ≡ [] = cc in rw e (tt, refl, refl)
decode-some (String.◌∷◌ c String.[]) bytes h = absurd (cc)
decode-some (String.◌∷◌ c (String.◌∷◌ d s)) bytes h =
    let (high, low, others, e, f, g, whole) = one_byte_lem c d (hex_decode s) bytes h in
    let rest = decode-some s others g in
    let upper = value_lem c high e in
    let lower = value_lem d low f in
    let quotient : (high * 16 + low) / 16 ≡ high = omega (arith, lower.0) in
    let remainder : (high * 16 + low) % 16 ≡ low = omega (arith, lower.0) in
    rw whole (
      (omega (arith, upper.0, lower.0), rest.0),
      omega (
        arith,
        char_bytes_small (code c) (value_small c high e),
        char_bytes_small (code d) (value_small d low f),
        rest.1,
      ),
      rw (quotient, remainder, upper.1, lower.1, rest.2) refl,
    )

abbrev pub repeat_byte : ℕ → ℕ → List ℕ
repeat_byte zero b = []
repeat_byte (suc n) b = b ∷ repeat_byte n b

length-repeat_byte : (n b : ℕ) → length (repeat_byte n b) ≡ n
length-repeat_byte zero b = refl
length-repeat_byte (suc n) b = omega (arith, length-repeat_byte n b)

Bytes-repeat_byte : (n b : ℕ) → b < 256 → Bytes (repeat_byte n b)
Bytes-repeat_byte zero b h = tt
Bytes-repeat_byte (suc n) b h = (h, Bytes-repeat_byte n b h)

abbrev pub sum_of : List ℕ → ℕ
sum_of [] = 0
sum_of (x ∷ xs) = x + 3 * sum_of xs

abbrev pub weak_digest : List ℕ → List ℕ → List ℕ
weak_digest key input = repeat_byte 32 ((sum_of key + sum_of input) % 256)

abbrev pub weak_crates : Crates
weak_crates = record {
  digest = weak_digest;
  verify_left = λ key input tag. list_eqb tag (take (length tag) (weak_digest key input));
  encode = hex_encode;
  decode = hex_decode;
}

pub weak_crates-CratesLaws : CratesLaws weak_crates
weak_crates-CratesLaws = record {
  digest_length = λ key input. length-repeat_byte 32 ((sum_of key + sum_of input) % 256);
  digest_bytes =
      λ key input. Bytes-repeat_byte 32 ((sum_of key + sum_of input) % 256) (omega arith);
  verify_left_iff =
      λ key input tag _ _. list_eqb_iff tag (take (length tag) (weak_digest key input));
  decode_encode = decode-encode;
  encode_length = encode-length;
  encode_lower = encode-lower;
  decoded = decode-some;
  decode_case = decode-case;
}
