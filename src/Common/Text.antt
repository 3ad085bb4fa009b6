-- ===== src/Common/Text.antt =====
-- Rust's operations on texts, for texts whose case and separators are ASCII.
use Prim.Native.Char.{Char, code}
use mathlib.Core.Option
use openworkers_runner.Common.Tests.{
  Bool-cases, Option-cases, if◌then◌else◌, leb, ltb, nat_eq, option_eq, string_eq, ◌==◌,
}
use Prim.Native.Nat.{ℕ, zero, suc, ◌+◌, ◌-◌}
use Prim.Native.String.{String}
use mathlib.Core.Path.{◌≡◌, refl, ap, ◌∙◌}
use mathlib.Core.Bool.{Bool, true, false, ◌&&◌, ◌||◌}
use mathlib.Core.Option.{Option, none, some}
use mathlib.Core.List.{List, [], ◌∷◌}
use mathlib.Core.Logic.{inl, inr}
use native.Mathlib.Omega.{arith}
use text.Mathlib.TextEquality.{eq_iff}

abbrev pub append : String → String → String
append String.[] t = t
append (String.◌∷◌ c s) t = String.◌∷◌ c (append s t)

abbrev pub is_empty_text : String → Bool
is_empty_text String.[] = true
is_empty_text (String.◌∷◌ c s) = false

-- `len`: the bytes of the text in UTF-8.
abbrev pub char_bytes : ℕ → ℕ
char_bytes n = if ltb n 0x80 then 1 else if ltb n 0x800 then 2 else if ltb n 0x1_0000 then 3 else 4

unfoldable pub byte_length : String → ℕ
byte_length String.[] = 0
byte_length (String.◌∷◌ c s) = char_bytes (code c) + byte_length s

abbrev pub contains_code : ℕ → String → Bool
contains_code n String.[] = false
contains_code n (String.◌∷◌ c s) = code c == n || contains_code n s

unfoldable pub strip_prefix : String → String → Option String
strip_prefix String.[] s = some s
strip_prefix (String.◌∷◌ p ps) String.[] = none
strip_prefix (String.◌∷◌ p ps) (String.◌∷◌ c s) =
    if code p == code c then strip_prefix ps s else none

unfoldable pub strip_suffix : String → String → Option String
strip_suffix suffix String.[] = if suffix == "" then some "" else none
strip_suffix suffix (String.◌∷◌ c s) =
    let rest : Option String = Option.map (λ name. String.◌∷◌ c name) (strip_suffix suffix s) in
    if String.◌∷◌ c s == suffix then some "" else rest

pub strip_suffix_lem :
    (suffix s name : String) → strip_suffix suffix s ≡ some name → s ≡ append name suffix
unfolding strip_suffix
strip_suffix_lem suffix String.[] name e = elim (Bool-cases (suffix == "")) [
  | inl hit ↦
      let n : name ≡ "" = ground arith in
      let t : suffix ≡ "" = (eq_iff suffix "").0 hit in rw (n, t) refl
  | inr miss ↦ absurd (ground arith)
]
strip_suffix_lem suffix (String.◌∷◌ c s) name e = elim (Bool-cases (String.◌∷◌ c s == suffix)) [
  | inl whole ↦ let n : name ≡ "" = ground arith in rw n ((eq_iff (String.◌∷◌ c s) suffix).0 whole)
  | inr partly ↦ elim (Option-cases (strip_suffix suffix s)) [
    | inl missing ↦ ground arith
    | inr (rest, found) ↦
        let whole : name ≡ String.◌∷◌ c rest = ground arith in
        ap (String.◌∷◌ c) (strip_suffix_lem suffix s rest found) ∙ rw whole refl
  ]
]

-- The character at a position, or another one past the end.
abbrev pub char_or : Char → ℕ → String → Char
char_or c n String.[] = c
char_or c zero (String.◌∷◌ d s) = d
char_or c (suc n) (String.◌∷◌ d s) = char_or c n s

abbrev pub lower_char : Char → Char
lower_char c =
    if leb b'A' (code c) && leb (code c) b'Z'
    then char_or c (code c - b'A') "abcdefghijklmnopqrstuvwxyz"
    else c

abbrev pub to_ascii_lowercase : String → String
to_ascii_lowercase String.[] = String.[]
to_ascii_lowercase (String.◌∷◌ c s) = String.◌∷◌ (lower_char c) (to_ascii_lowercase s)

-- `trim_end_matches` of one character.
abbrev pub cons_unless : ℕ → Char → String → String
cons_unless n c String.[] = if code c == n then String.[] else String.◌∷◌ c String.[]
cons_unless n c (String.◌∷◌ d s) = String.◌∷◌ c (String.◌∷◌ d s)

unfoldable pub trim_end_matches : ℕ → String → String
trim_end_matches n String.[] = String.[]
trim_end_matches n (String.◌∷◌ c s) = cons_unless n c (trim_end_matches n s)

abbrev pub cons_first : Char → List String → List String
cons_first c [] = String.◌∷◌ c String.[] ∷ []
cons_first c (part ∷ rest) = String.◌∷◌ c part ∷ rest

-- `split` at one character.
unfoldable pub split : ℕ → String → List String
split n String.[] = String.[] ∷ []
split n (String.◌∷◌ c s) =
    let rest : List String = split n s in
    if code c == n then String.[] ∷ rest else cons_first c rest

abbrev pub cons_once : Char → Option (String × String) → Option (String × String)
cons_once c none = none
cons_once c (some (before, after)) = some (String.◌∷◌ c before, after)

-- `split_once` at the first occurrence of one character.
unfoldable pub split_once : ℕ → String → Option (String × String)
split_once n String.[] = none
split_once n (String.◌∷◌ c s) =
    let rest : Option (String × String) = split_once n s in
    if code c == n then some (String.[], s) else cons_once c rest

-- White space of ASCII: tab to carriage return, and the space.
abbrev pub is_white : Char → Bool
is_white c = (leb 9 (code c) && leb (code c) 13) || code c == 32

abbrev pub trim_start : String → String
trim_start String.[] = String.[]
trim_start (String.◌∷◌ c s) =
    let rest : String = trim_start s in if is_white c then rest else String.◌∷◌ c s

abbrev pub cons_unless_white : Char → String → String
cons_unless_white c String.[] = if is_white c then String.[] else String.◌∷◌ c String.[]
cons_unless_white c (String.◌∷◌ d s) = String.◌∷◌ c (String.◌∷◌ d s)

abbrev pub trim_end : String → String
trim_end String.[] = String.[]
trim_end (String.◌∷◌ c s) = cons_unless_white c (trim_end s)

unfoldable pub trim : String → String
trim s = trim_end (trim_start s)
