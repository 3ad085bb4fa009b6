-- ===== src/Durable/Ids.antt =====
-- src/durable/id.rs: the ids of Durable Objects. The crates hmac with sha2, hex and uuid are
-- parameters; bytes are numbers below 256.
pub mod Interface
pub mod Parsed
pub mod Digits
pub mod Filled
mod Tests
use openworkers_runner.Common.{
  List, Option, String, [], if◌then◌else◌, nat_eq, nat_eqb, none, option_eq, some, string_eq, ℕ,
  ◌*◌, ◌++◌, ◌∷◌,
}
use openworkers_runner.Common.Lists.{drop, take}
use openworkers_runner.Common.Text.{byte_length}
use openworkers_runner.Durable.Ids.Interface.{Crates}

-- Bytes of each half of an id.
abbrev pub part : ℕ
part = 16

abbrev pub id_label : List ℕ
id_label = b'i' ∷ b'd' ∷ []

abbrev pub name_label : List ℕ
name_label = b'n' ∷ b'a' ∷ b'm' ∷ b'e' ∷ []

-- What the MAC of a label and data reads.
unfoldable pub mac_input : List ℕ → List ℕ → List ℕ
mac_input label content = label ++ (0 ∷ content)

module _ (crates : Crates) where
  unfoldable pub with_tag : List ℕ → List ℕ → String
  unfolding mac_input
  with_tag key body =
      let tag : List ℕ = crates.digest key (mac_input id_label body) in
      crates.encode (body ++ take part tag)

  -- `name` by its bytes.
  unfoldable pub from_name : List ℕ → List ℕ → String
  unfolding mac_input with_tag
  from_name key name =
      let body : List ℕ = crates.digest key (mac_input name_label name) in
      with_tag key (take part body)

  -- From the bytes of a new uuid.
  unfoldable pub unique : List ℕ → List ℕ → String
  unfolding with_tag
  unique key uuid = with_tag key uuid

  -- The halves at `split_at(PART)`, and the check of the tag.
  abbrev pub parse_bytes : List ℕ → Option (List ℕ) → Option String
  unfolding mac_input
  parse_bytes key none = none
  parse_bytes key (some bytes) =
      if crates.verify_left key (mac_input id_label (take part bytes)) (drop part bytes)
      then some (crates.encode bytes)
      else none

  unfoldable pub parse : List ℕ → String → Option String
  parse key text =
      if nat_eqb (byte_length text) (part * 4) then parse_bytes key (crates.decode text) else none
