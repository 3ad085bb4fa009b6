-- ===== src/D1/Usages.antt =====
-- src/d1/mod.rs: what the objects of one Durable Object namespace hold. u64 wraps.
use openworkers_runner.Common.{
  List, Option, String, [], arith, eq_iff, get_or, if◌then◌else◌, is_some, leb, nat_eq, none,
  option_eq, refl, some, string_eq, true, ℕ, ◌%◌, ◌+◌, ◌-◌, ◌/◌, ◌<◌, ◌^◌, ◌↔◌, ◌∷◌, ◌≡◌, ◌≤◌,
}
use openworkers_runner.Common.Text.{strip_suffix}
use openworkers_runner.Common.Maps.{Map, Unique, insert, lookup, remove}
use openworkers_runner.Common.Maps.Counting.{Unique-insert, remove_of_lookup}
use openworkers_runner.Common.Maps.Weights.{weigh}

pub record Usage : Type 0 where
  pub objects : Map String ℕ
  pub total : ℕ

abbrev pub no_usage : Usage
no_usage = record { objects = []; total = 0 }

unfoldable pub set : String → ℕ → Usage → Usage
set object_id bytes u = record {
  objects = insert object_id bytes u.objects;
  total = (u.total + 2 ^ 64 - get_or (lookup object_id u.objects) 0 + bytes) % 2 ^ 64;
}

-- The object of a file of the directory.
unfoldable pub object_of : String → Option String
object_of name = elim (strip_suffix ".sqlite" name) [
  | some object_id ↦ some object_id
  | none ↦ strip_suffix ".sqlite-wal" name
]

abbrev pub add_file : Option String → ℕ → Usage → Usage
add_file none bytes u = u
add_file (some object_id) bytes u = set object_id (get_or (lookup object_id u.objects) 0 + bytes) u

-- The files of the directory by name and length, in the order of read_dir.
unfoldable pub scan : List (String × ℕ) → Usage → Usage
unfolding object_of
scan [] u = u
scan ((name, bytes) ∷ entries) u = scan entries (add_file (object_of name) bytes u)

-- The sizes after the calls of objects.
unfoldable pub set_all : List (String × ℕ) → Usage → Usage
unfolding set
set_all [] u = u
set_all ((object_id, bytes) ∷ calls) u = set_all calls (set object_id bytes u)

-- What the objects hold, and of what limit.
pub data Full : Type 0 where
  holds : ℕ → ℕ → Full

unfoldable pub full : ℕ → Usage → Option Full
full limit u = if leb limit u.total then some (holds (u.total / 2 ^ 20) (limit / 2 ^ 20)) else none

-- An independent count: the bytes of the files that belong to objects.
abbrev pub bytes_if : Option String → ℕ → ℕ
bytes_if none bytes = 0
bytes_if (some _) bytes = bytes

abbrev pub stored : List (String × ℕ) → ℕ
stored [] = 0
stored ((name, bytes) ∷ entries) = bytes_if (object_of name) bytes + stored entries

abbrev pub sum_of : List (String × ℕ) → ℕ
sum_of [] = 0
sum_of ((_, bytes) ∷ calls) = bytes + sum_of calls

abbrev pub held : Map String ℕ → ℕ
held = weigh (λ bytes. bytes)

held-remove :
    (k : String) (m : Map String ℕ) → Unique m → held (remove k m) + get_or (lookup k m) 0 ≡ held m
unfolding weigh remove lookup
held-remove k [] u = omega arith
held-remove k ((j, v) ∷ m) u = ground (arith, eq_iff j k, held-remove k m u.1, remove_of_lookup k m)

record Counted (u : Usage) : Type 0 where
  distinct : Unique u.objects
  exact : u.total ≡ held u.objects

set-Counted :
    (object_id : String) (bytes : ℕ) (u : Usage)
    → held u.objects + bytes < 2 ^ 64 + get_or (lookup object_id u.objects) 0
    → Counted u
    → Counted (set object_id bytes u)
      × (held (set object_id bytes u).objects + get_or (lookup object_id u.objects) 0
          ≡ held u.objects + bytes)
unfolding set weigh insert
set-Counted object_id bytes u small c =
    let left = held-remove object_id u.objects c.distinct in
    (
      record {
        distinct = Unique-insert object_id bytes u.objects c.distinct;
        exact = omega (arith, left, c.exact);
      },
      omega (arith, left),
    )

bytes_if_le : (o : Option String) (bytes : ℕ) → bytes_if o bytes ≤ bytes
bytes_if_le none bytes = omega arith
bytes_if_le (some _) bytes = omega arith

stored_le : (entries : List (String × ℕ)) → stored entries ≤ sum_of entries
stored_le [] = omega arith
stored_le ((name, bytes) ∷ entries) =
    omega (arith, bytes_if_le (object_of name) bytes, stored_le entries)

add_file-Counted :
    (o : Option String) (bytes : ℕ) (u : Usage)
    → held u.objects + bytes < 2 ^ 64
    → Counted u
    → Counted (add_file o bytes u)
      × (held (add_file o bytes u).objects ≡ held u.objects + bytes_if o bytes)
add_file-Counted none bytes u small c = (c, omega arith)
add_file-Counted (some object_id) bytes u small c =
    let known = get_or (lookup object_id u.objects) 0 in
    let done = set-Counted object_id (known + bytes) u (omega arith) c in
    (done.0, omega (arith, done.1))

scan-Counted :
    (entries : List (String × ℕ)) (u : Usage)
    → held u.objects + sum_of entries < 2 ^ 64
    → Counted u
    → Counted (scan entries u) × (held (scan entries u).objects ≡ held u.objects + stored entries)
unfolding scan
scan-Counted [] u small c = (c, omega arith)
scan-Counted ((name, bytes) ∷ entries) u small c =
    let one = add_file-Counted (object_of name) bytes u (omega arith) c in
    let few : bytes_if (object_of name) bytes ≤ bytes = bytes_if_le (object_of name) bytes in
    let rest =
      scan-Counted entries (add_file (object_of name) bytes u) (omega (arith, one.1)) one.0 in
    (rest.0, omega (arith, rest.1, one.1))

set_all-Counted :
    (calls : List (String × ℕ)) (u : Usage)
    → held u.objects + sum_of calls < 2 ^ 64
    → Counted u
    → Counted (set_all calls u)
unfolding set_all
set_all-Counted [] u small c = c
set_all-Counted ((object_id, bytes) ∷ calls) u small c =
    let one = set-Counted object_id bytes u (omega arith) c in
    set_all-Counted calls (set object_id bytes u) (omega (arith, one.1)) one.0

-- From the scan of a directory on, which counts exactly the bytes of the .sqlite and .sqlite-wal
-- files, and after the sizes that any calls of objects report, the total of a namespace is the sum
-- of what its objects hold, so that a namespace is full exactly if that sum reaches the limit. All
-- the sizes together are below 2^64.
pub set_all-scan :
    (entries calls : List (String × ℕ)) (limit : ℕ)
    → sum_of entries + sum_of calls < 2 ^ 64
    → ((scan entries no_usage).total ≡ stored entries)
      × ((set_all calls (scan entries no_usage)).total
          ≡ held (set_all calls (scan entries no_usage)).objects)
      × ((is_some (full limit (set_all calls (scan entries no_usage))) ≡ true)
          ↔ (limit ≤ held (set_all calls (scan entries no_usage)).objects))
unfolding full weigh
set_all-scan entries calls limit small =
    let none_yet : Counted no_usage = record { distinct = tt; exact = refl } in
    let scanned = scan-Counted entries no_usage (omega arith) none_yet in
    let fewer : stored entries ≤ sum_of entries = stored_le entries in
    let after =
      set_all-Counted calls (scan entries no_usage) (omega (arith, scanned.1)) scanned.0 in
    (omega (arith, scanned.0.exact, scanned.1), after.exact, ground (arith, after.exact))
