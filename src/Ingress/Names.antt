-- ===== src/Ingress/Names.antt =====
-- src/ingress.rs: hosts and paths as texts.
use Prim.Native.Char.{code}
use mathlib.Core.Option
use openworkers_runner.Common.{
  Bool, List, Option, String, [], false, if◌then◌else◌, leb, nat_eq, none, not, option_eq, some,
  string_eq, true, ◌&&◌, ◌==◌, ◌||◌, ◌∷◌,
}
use openworkers_runner.Common.Lists.{any, contains, filter}
use openworkers_runner.Common.Text.{contains_code, is_empty_text, split, strip_prefix, strip_suffix}

-- `worker_upload`.
abbrev pub is_id : Option String → Bool
is_id none = false
is_id (some id) = not (is_empty_text id) && not (contains_code b'/' id)

abbrev pub then_suffix : String → Option String → Option String
then_suffix suffix none = none
then_suffix suffix (some rest) = strip_suffix suffix rest

unfoldable pub worker_upload : String → Bool
worker_upload path = is_id (then_suffix "/upload" (strip_prefix "/api/v1/workers/" path))

abbrev pub first_of {ℓ} : {A : Type ℓ} → Option A → Option A → Option A
first_of none other = other
first_of (some a) other = some a

-- The `find_map` of `worker_route`.
unfoldable pub under_domain : String → List String → Option String
under_domain host [] = none
under_domain host (domain ∷ rest) =
    let later : Option String = under_domain host rest in
    first_of (then_suffix "." (strip_suffix domain host)) later

-- The header that names a worker: by its UUID or by its name.
unfoldable pub named : (String → Bool) → Option String → Option (String × String)
named is_uuid none = none
named is_uuid (some name) =
    if is_empty_text name || contains_code b'.' name
    then none
    else if is_uuid name
    then some ("x-worker-id", name)
    else some ("x-worker-name", name)

unfoldable pub worker_route : (String → Bool) → String → List String → Option (String × String)
unfolding named
worker_route is_uuid host domains = named is_uuid (under_domain host domains)

abbrev pub probed_dot_files : List String
probed_dot_files =
    "env" ∷ "git" ∷ "svn" ∷ "hg" ∷ "ssh" ∷ "aws" ∷ "htpasswd" ∷ "htaccess" ∷ "ds_store" ∷ []

abbrev pub probed_keys : List String
probed_keys = "rsa" ∷ "dsa" ∷ "ecdsa" ∷ "ed25519" ∷ []

abbrev pub or_whole : String → Option String → String
or_whole name none = name
or_whole name (some cut) = cut

-- The last segment, a private key.
abbrev pub is_key : Option String → Bool
is_key none = false
is_key (some kind) = contains (or_whole kind (strip_suffix ".pub" kind)) probed_keys

abbrev pub last_is_key : List String → Bool
last_is_key [] = false
last_is_key (segment ∷ []) = is_key (strip_prefix "id_" segment)
last_is_key (segment ∷ next ∷ rest) = last_is_key (next ∷ rest)

abbrev pub stem_is_probed : Option (List String) → Bool
stem_is_probed none = false
stem_is_probed (some []) = false
stem_is_probed (some (stem ∷ rest)) = contains stem probed_dot_files

unfoldable pub is_dot_file : String → Bool
is_dot_file segment = stem_is_probed (Option.map (split b'.') (strip_prefix "." segment))

-- What stands after the last dot, if there is one.
abbrev pub last_after_first : List String → Option String
last_after_first [] = none
last_after_first (part ∷ []) = none
last_after_first (part ∷ last ∷ []) = some last
last_after_first (part ∷ next ∷ other ∷ rest) = last_after_first (next ∷ other ∷ rest)

abbrev pub is_digit_or_nothing : String → Bool
is_digit_or_nothing String.[] = true
is_digit_or_nothing (String.◌∷◌ c String.[]) = leb b'0' (code c) && leb (code c) b'9'
is_digit_or_nothing (String.◌∷◌ c (String.◌∷◌ d s)) = false

abbrev pub is_version : Option String → Bool
is_version none = false
is_version (some version) = is_digit_or_nothing version

abbrev pub is_php_extension : Option String → Bool
is_php_extension none = false
is_php_extension (some extension) =
    extension == "phtml" || is_version (strip_prefix "php" extension)

unfoldable pub is_php : String → Bool
is_php segment = is_php_extension (last_after_first (split b'.' segment))

abbrev pub is_system_file : List String → Bool
is_system_file (dir ∷ name ∷ []) = dir == "etc" && (name == "passwd" || name == "shadow")
is_system_file _ = false

-- `scanner_probe`, on the decoded path in lowercase.
unfoldable pub scanner_probe : String → Bool
unfolding is_dot_file is_php
scanner_probe path =
    let segments : List String = filter (λ s. not (is_empty_text s)) (split b'/' path) in
    if is_system_file segments
    then true
    else last_is_key segments || any (λ s. is_dot_file s || is_php s) segments
