-- ===== src/D1/Keys.antt =====
-- src/d1/mod.rs: the keys of the storage of objects. The parser of a UUID, which gives it in its
-- canonical form, is a parameter.
use Prim.Native.Char.{code}
use openworkers_runner.Common.{
  Bool, Bool-cases, Option, Option-cases, String, ap, arith, false, if◌then◌else◌, inl, inr, leb,
  nat_eq, nat_eqb, none, option_eq, refl, some, string_eq, sym, true, ℕ, ◌&&◌, ◌==◌, ◌||◌, ◌≡◌,
}
use openworkers_runner.Common.Text.{append, byte_length, contains_code, split_once, strip_prefix}

abbrev pub is_hex_code : ℕ → Bool
is_hex_code n = (leb b'0' n && leb n b'9') || (leb b'a' n && leb n b'f')

unfoldable pub is_hex : String → Bool
is_hex String.[] = true
is_hex (String.◌∷◌ c text) = is_hex_code (code c) && is_hex text

abbrev pub key_of : String → String → Option String → Option String
key_of objects object_id none = none
key_of objects object_id (some namespace_id) =
    some (append objects (append "/" (append namespace_id (append "/" object_id))))

unfoldable pub object_key : (String → Option String) → String → String → Option String
unfolding is_hex
object_key parse_uuid namespace_id object_id =
    let key : Option String = key_of "objects" object_id (parse_uuid namespace_id) in
    if nat_eqb (byte_length object_id) 64 && is_hex object_id then key else none

abbrev pub strip_slash : Option String → Option String
strip_slash none = none
strip_slash (some rest) = strip_prefix "/" rest

abbrev pub split_key : Option String → Option (String × String)
split_key none = none
split_key (some rest) = split_once b'/' rest

unfoldable pub parse_object_key : String → Option (String × String)
parse_object_key key = split_key (strip_slash (strip_prefix "objects" key))

-- A text without a slash comes first in the split.
split-first :
    (name rest : String)
    → contains_code b'/' name ≡ false
    → split_once b'/' (append name (append "/" rest)) ≡ some (name, rest)
unfolding split_once
split-first String.[] rest h = refl
split-first (String.◌∷◌ c name) rest h =
    let later = split-first name rest (ground arith) in
    let other : (code c == b'/') ≡ false = ground arith in rw (other, later) refl

-- A key that is made names its object, which is 64 lowercase hexadecimal digits, and is read back
-- as the canonical form of the namespace and the object. A UUID in canonical form has no slash.
pub parse-object_key :
    (parse_uuid : String → Option String) (namespace_id object_id key : String)
    → ((text canonical : String)
        → parse_uuid text ≡ some canonical
        → contains_code b'/' canonical ≡ false)
    → object_key parse_uuid namespace_id object_id ≡ some key
    → (canonical : String) × (parse_uuid namespace_id ≡ some canonical)
      × (parse_object_key key ≡ some (canonical, object_id))
      × (byte_length object_id ≡ 64)
      × (is_hex object_id ≡ true)
unfolding object_key parse_object_key strip_prefix
parse-object_key parse_uuid namespace_id object_id key plain h =
    elim (Bool-cases (nat_eqb (byte_length object_id) 64 && is_hex object_id)) [
      | inr bad ↦ absurd (ground arith)
      | inl good ↦ elim (Option-cases (parse_uuid namespace_id)) [
        | inl unknown ↦ absurd (ground (arith, ap (key_of "objects" object_id) unknown))
        | inr (canonical, found) ↦
            let made : append "objects/" (append canonical (append "/" object_id)) ≡ key =
              ground (arith, ap (key_of "objects" object_id) found) in
            (
              canonical,
              found,
              rw (sym made) (split-first canonical object_id (plain namespace_id canonical found)),
              ground arith,
              ground arith,
            )
      ]
    ]
