-- ===== src/Durable/Ids/Interface.antt =====
-- The interface of the crates hmac, sha2 and hex that src/durable/id.rs uses, and what their
-- documentation says. hex writes lower case and reads both.
use openworkers_runner.Common.{
  Bool, List, Option, String, nat_eq, option_eq, some, string_eq, true, ℕ, ◌*◌, ◌<◌, ◌↔◌, ◌≡◌, ◌≤◌,
}
use openworkers_runner.Common.Lists.{All, length, take}
use openworkers_runner.Common.Text.{byte_length, to_ascii_lowercase}

abbrev pub Bytes : List ℕ → Type 0
Bytes = All (λ b. b < 256)

-- `verify_left` is verify_truncated_left: of a key, the input and a tag.
pub record Crates : Type 0 where
  pub digest : List ℕ → List ℕ → List ℕ
  pub verify_left : List ℕ → List ℕ → List ℕ → Bool
  pub encode : List ℕ → String
  pub decode : String → Option (List ℕ)

pub record CratesLaws (crates : Crates) : Type 0 where
  pub digest_length : (key input : List ℕ) → length (crates.digest key input) ≡ 32
  pub digest_bytes : (key input : List ℕ) → Bytes (crates.digest key input)
  pub verify_left_iff :
      (key input tag : List ℕ)
      → 0 < length tag
      → length tag ≤ 32
      → (crates.verify_left key input tag ≡ true)
        ↔ (tag ≡ take (length tag) (crates.digest key input))
  pub decode_encode :
      (bytes : List ℕ) → Bytes bytes → crates.decode (crates.encode bytes) ≡ some bytes
  pub encode_length :
      (bytes : List ℕ) → Bytes bytes → byte_length (crates.encode bytes) ≡ 2 * length bytes
  pub encode_lower :
      (bytes : List ℕ)
      → Bytes bytes
      → to_ascii_lowercase (crates.encode bytes) ≡ crates.encode bytes
  pub decoded :
      (text : String) (bytes : List ℕ)
      → crates.decode text ≡ some bytes
      → Bytes bytes
        × (byte_length text ≡ 2 * length bytes)
        × (crates.encode bytes ≡ to_ascii_lowercase text)
  pub decode_case : (text : String) → crates.decode (to_ascii_lowercase text) ≡ crates.decode text
