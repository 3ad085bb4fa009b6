-- ===== src/D1/Tests.antt =====
-- src/d1/mod.rs on concrete calls.
use openworkers_runner.Common.{
  Bool, Bool-cases, List, Option, String, [], arith, false, if◌then◌else◌, inl, inr, is_some,
  nat_eq, none, option_eq, refl, some, string_eq, true, ℕ, ◌++◌, ◌==◌, ◌↔◌, ◌∷◌, ◌≡◌, ◌≤◌,
}
use openworkers_runner.Common.Maps.{adjust, insert, lookup, remove}
use openworkers_runner.Common.Text.{append, byte_length, contains_code, strip_suffix}
use openworkers_runner.D1.{Config, Handle, Service, close_idle, handle, unsaved}
use openworkers_runner.D1.Passes.{
  Event, abandons, closes_idle, commits_in, enters, hooks, lands, locks, pass_begins, pass_ends,
  pass_reads, pass_starts, ran_leaves, remove_files, reset_to_snapshot, resets, run, start_pass,
  step, ticks, unlocks,
}
use openworkers_runner.D1.Usages.{
  full, held, no_usage, object_of, scan, set, set_all, set_all-scan, stored,
}
use openworkers_runner.D1.Keys.{is_hex, object_key, parse-object_key, parse_object_key}
use openworkers_runner.D1.Kept.{started}

abbrev small : Config
small = record {
  max_queue = 1;
  max_open = 1;
  idle = 0;
  min_free_bytes = 100;
  pause_after = 60_000;
  archive_on = true;
}

abbrev fresh : Service
fresh = started (λ _. none) (λ _. 0)

abbrev one_call : String → List Event
one_call id = enters id ∷ locks id ∷ hooks id ∷ lands id ∷ unlocks id ∷ ran_leaves id ∷ []

abbrev one_pass : List Event
one_pass = pass_starts ∷ pass_begins ∷ pass_reads ∷ pass_ends true ∷ []

-- The transactions of the file and of the snapshot, and whether an entry has unsaved commits.
abbrev state_of : String → Option Handle → Service → ℕ × ℕ × Option Bool
state_of id none s = (commits_in (s.files id), s.archive id, none)
state_of id (some h) s = (commits_in (s.files id), s.archive id, some (unsaved h))

abbrev replay : List Event → ℕ × ℕ × Option Bool
unfolding run step lookup insert remove adjust handle close_idle remove_files reset_to_snapshot
    start_pass
replay events = let s = run small events fresh in state_of "a" (lookup "a" s.databases) s

saved_by_a_pass : replay (one_call "a" ++ one_pass) ≡ (1, 1, some false)
unfolding replay
saved_by_a_pass = refl

kept_while_unsaved : replay (one_call "a" ++ (closes_idle ∷ enters "b" ∷ [])) ≡ (1, 0, some true)
unfolding replay
kept_while_unsaved = refl

evicted_once_saved : replay (one_call "a" ++ one_pass ++ (enters "b" ∷ [])) ≡ (1, 1, none)
unfolding replay
evicted_once_saved = refl

restored_after_reset :
    replay (one_call "a" ++ one_pass ++ (resets "a" ∷ enters "a" ∷ locks "a" ∷ []))
    ≡ (1, 1, some false)
unfolding replay
restored_after_reset = refl

-- A snapshot that begins between the hook and the landing counts the transaction as saved.
abbrev hook_race : List Event
hook_race =
    one_call "a"
    ++ (enters "a"
        ∷ locks "a"
        ∷ hooks "a"
        ∷ pass_starts
        ∷ pass_begins
        ∷ pass_reads
        ∷ lands "a"
        ∷ unlocks "a"
        ∷ pass_ends true
        ∷ ran_leaves "a"
        ∷ [])

counted_too_early : replay (hook_race ++ (closes_idle ∷ [])) ≡ (2, 1, none)
unfolding replay
counted_too_early = refl

-- A caller that stops waiting leaves its place in the queue taken.
abbrev queue_of : Option Handle → Option (ℕ × ℕ)
queue_of none = none
queue_of (some h) = some (h.waiting, h.refusing)

abandoned_call :
    queue_of (lookup "a" (run small (enters "a" ∷ abandons "a" ∷ enters "a" ∷ []) fresh).databases)
    ≡ some (2, 1)
unfolding run step lookup insert remove adjust handle
abandoned_call = refl

abbrev changed : List Event
changed = one_call "a" ++ (closes_idle ∷ enters "b" ∷ ticks ∷ [])

abbrev directory : List (String × ℕ)
directory = ("a.sqlite", 100) ∷ ("a.sqlite-wal", 20) ∷ ("a.sqlite-shm", 7) ∷ ("b.sqlite", 5) ∷ []

directory_scanned : (scan directory no_usage).total ≡ 125
unfolding scan set object_of strip_suffix lookup insert remove
directory_scanned = refl

set_all-scan_example :
    ((scan directory no_usage).total ≡ stored directory)
    × ((set_all (("a", 60) ∷ []) (scan directory no_usage)).total
        ≡ held (set_all (("a", 60) ∷ []) (scan directory no_usage)).objects)
    × ((is_some (full 65 (set_all (("a", 60) ∷ []) (scan directory no_usage))) ≡ true)
        ↔ (65 ≤ held (set_all (("a", 60) ∷ []) (scan directory no_usage)).objects))
set_all-scan_example = set_all-scan directory (("a", 60) ∷ []) 65 (omega arith)

-- A namespace id is parsed by crate uuid, here by a reader of one id alone.
abbrev one_uuid : String → Option String
one_uuid text = if text == "NS" then some "ns" else none

abbrev sixty_four : String
sixty_four = "0123456789abcdef0123456789abcdef0123456789abcdef0123456789abcdef"

key_made : object_key one_uuid "NS" sixty_four ≡ some (append "objects/ns/" sixty_four)
unfolding object_key is_hex byte_length
key_made = refl

key_refused : object_key one_uuid "NS" "../../etc" ≡ none
unfolding object_key is_hex byte_length
key_refused = refl

one_uuid_plain :
    (text canonical : String)
    → one_uuid text ≡ some canonical
    → contains_code b'/' canonical ≡ false
one_uuid_plain text canonical h = elim (Bool-cases (text == "NS")) [
  | inl hit ↦ let same : canonical ≡ "ns" = ground arith in rw same refl
  | inr miss ↦ absurd (ground arith)
]

abbrev some_object : String
some_object = append "objects/ns/" sixty_four

parse-object_key_example :
    (canonical : String) × (one_uuid "NS" ≡ some canonical)
    × (parse_object_key some_object ≡ some (canonical, sixty_four))
    × (byte_length sixty_four ≡ 64)
    × (is_hex sixty_four ≡ true)
parse-object_key_example =
    parse-object_key one_uuid "NS" sixty_four some_object one_uuid_plain key_made
