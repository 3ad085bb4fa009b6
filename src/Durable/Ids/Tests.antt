-- ===== src/Durable/Ids/Tests.antt =====
-- src/durable/id.rs on concrete keys and names.
use openworkers_runner.Common.{
  List, Option, String, [], arith, nat_eq, none, option_eq, refl, some, string_eq, ℕ, ◌↔◌, ◌∷◌, ◌≡◌,
}
use openworkers_runner.Common.Lists.{length}
use openworkers_runner.Common.Text.{byte_length, to_ascii_lowercase}
use openworkers_runner.Durable.Ids.{from_name, mac_input, parse, unique, with_tag}
use openworkers_runner.Durable.Ids.Interface.{Bytes}
use openworkers_runner.Durable.Ids.Digits.{place}
use openworkers_runner.Durable.Ids.Filled.{
  hex_decode, hex_encode, list_eqb, repeat_byte, weak_crates, weak_crates-CratesLaws,
}
use openworkers_runner.Durable.Ids.Parsed.{parse_iff, parse_own}

abbrev some_key : List ℕ
some_key = repeat_byte 32 7

abbrev other_key : List ℕ
other_key = repeat_byte 32 8

abbrev room_name : List ℕ
room_name = b'r' ∷ b'o' ∷ b'o' ∷ b'm' ∷ []

abbrev room_id : String
room_id = "ececececececececececececececececd5d5d5d5d5d5d5d5d5d5d5d5d5d5d5d5"

abbrev upper_id : String
upper_id = "ECECECECECECECECECECECECECECECECD5D5D5D5D5D5D5D5D5D5D5D5D5D5D5D5"

abbrev parses : List ℕ → String → Option String
unfolding parse byte_length hex_decode hex_encode place list_eqb mac_input
parses key text = parse weak_crates key text

from_name_test : from_name weak_crates some_key room_name ≡ room_id
unfolding from_name with_tag mac_input hex_encode
from_name_test = refl

short_ids : (parses some_key "" ≡ none) × (parses some_key "room" ≡ none)
unfolding parses
short_ids = (refl, refl)

-- In upper case, under another key, and with one digit changed.
upper_is_taken : parses some_key upper_id ≡ some room_id
unfolding parses
upper_is_taken = refl

other_key_refuses : parses other_key room_id ≡ none
unfolding parses
other_key_refuses = refl

changed_id :
    parses some_key "ECECECECECECECECECECECECECECECECD5D5D5D5D5D5D5D5D5D5D5D5D5D5D5D4" ≡ none
unfolding parses
changed_id = refl

parse_iff_example : (parse weak_crates some_key upper_id ≡ some room_id) ↔ (
    (body : List ℕ) × Bytes body
    × (length body ≡ 16)
    × (with_tag weak_crates some_key body ≡ room_id)
    × (to_ascii_lowercase upper_id ≡ room_id))
parse_iff_example = parse_iff weak_crates weak_crates-CratesLaws some_key upper_id room_id

abbrev some_uuid : List ℕ
some_uuid = repeat_byte 16 9

some_uuid-Bytes : Bytes some_uuid
some_uuid-Bytes = ground arith

parse_own_example :
    (parse weak_crates some_key (from_name weak_crates some_key room_name)
      ≡ some (from_name weak_crates some_key room_name))
    × (parse weak_crates some_key (unique weak_crates some_key some_uuid)
        ≡ some (unique weak_crates some_key some_uuid))
parse_own_example =
    parse_own weak_crates weak_crates-CratesLaws some_key room_name some_uuid some_uuid-Bytes refl
