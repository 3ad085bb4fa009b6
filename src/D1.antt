-- ===== src/D1.antt =====
-- src/d1/mod.rs: the databases that are open, their queues and their snapshots. A file is the
-- number of the transactions in it, and so is its latest snapshot; instants are milliseconds. A
-- commit is two steps, as the hook of SQLite runs before the transaction lands in the file.
pub mod Keys
pub mod Usages
pub mod Passes
pub mod Unsaved
pub mod Swept
pub mod Covered
pub mod Listing
pub mod Snapshots
pub mod Kept
mod Tests
use openworkers_runner.Common.{
  Bool, List, Option, String, [], false, get_or, if◌then◌else◌, is_some, leb, ltb, nat_eq, nat_eqb,
  none, not, option_eq, some, string_eq, suc, zero, ℕ, ◌&&◌, ◌+◌, ◌-◌, ◌==◌, ◌||◌, ◌∷◌,
}
use openworkers_runner.Common.Maps.{Map, adjust, insert, lookup, remove}

pub record Config : Type 0 where
  pub max_queue : ℕ
  pub max_open : ℕ
  pub idle : ℕ
  pub min_free_bytes : ℕ
  pub pause_after : ℕ
  pub archive_on : Bool

-- `busy`: a call holds the lock of the connection. `calls` and `listed` are the clones of the Arc
-- that calls and a snapshot pass hold, `refusing` the calls that will give their place back, and
-- `pending` the transactions that were counted and are not in the file yet.
pub record Handle : Type 0 where
  pub busy : Bool
  pub connected : Bool
  pub waiting : ℕ
  pub refusing : ℕ
  pub calls : ℕ
  pub listed : ℕ
  pub last_used : ℕ
  pub commits : ℕ
  pub saved : ℕ
  pub unsaved_since : Option ℕ
  pub pending : ℕ

abbrev pub unsaved : Handle → Bool
unsaved h = not (nat_eqb h.commits h.saved)

abbrev pub is_open : Handle → Bool
is_open h = h.busy || h.connected

abbrev pub close : Handle → Handle
close h = record h { connected = if h.busy then h.connected else false }

abbrev pub strong_count : Handle → ℕ
strong_count h = 1 + h.calls + h.listed

abbrev pub new_handle : ℕ → Handle
new_handle now = record {
  busy = false;
  connected = false;
  waiting = 0;
  refusing = 0;
  calls = 0;
  listed = 0;
  last_used = now;
  commits = 0;
  saved = 0;
  unsaved_since = none;
  pending = 0;
}

-- A snapshot under way: the commits it will cover, when it started, and what it read.
pub record Snapshot : Type 0 where
  pub covered : ℕ
  pub started : ℕ
  pub content : Option ℕ

pub record Service : Type 0 where
  pub disk_low : Bool
  pub databases : Map String Handle
  pub pass : List String
  pub current : Option Snapshot
  pub files : String → Option ℕ
  pub archive : String → ℕ
  pub now : ℕ

abbrev pub open_count : Map String Handle → ℕ
open_count [] = 0
open_count ((_, h) ∷ m) = (if is_open h then 1 else 0) + open_count m

-- `min_by_key`: the first of the entries used longest ago.
abbrev pub older : String × Handle → Option (String × Handle) → Option (String × Handle)
older a none = some a
older a (some b) = if leb a.1.last_used b.1.last_used then some a else some b

abbrev pub oldest : Map String Handle → Option (String × Handle)
oldest [] = none
oldest ((id, h) ∷ m) =
    let rest : Option (String × Handle) = oldest m in
    if nat_eqb (strong_count h) 1 && is_open h then older (id, h) rest else rest

abbrev pub evict : Option (String × Handle) → Map String Handle → Map String Handle
evict none m = m
evict (some (id, h)) m = if unsaved h then adjust id close m else remove id m

-- `handle`, whose clone the call holds.
unfoldable pub handle : Config → String → ℕ → Map String Handle → Map String Handle
handle config id now databases =
    let made : Map String Handle =
      if leb config.max_open (open_count databases)
      then evict (oldest databases) databases
      else databases in
    if is_some (lookup id databases) then databases else insert id (new_handle now) made

abbrev pub enter : Config → Handle → Handle
enter config h = record h {
  waiting = suc h.waiting;
  calls = suc h.calls;
  refusing = if leb config.max_queue h.waiting then suc h.refusing else h.refusing;
}

-- The end of a call that was refused.
abbrev pub leave_refused : Handle → Handle
leave_refused h = elim h.refusing [
  | zero ↦ h
  | suc n ↦ record h { refusing = n; waiting = h.waiting - 1; calls = h.calls - 1 }
]

-- The end of a call that ran: its place, the time, and what is saved where no archive is.
abbrev pub leave_ran : Config → ℕ → Handle → Handle
leave_ran config now h =
    if ltb (h.refusing + (if h.busy then 1 else 0)) h.calls
    then (let saved : ℕ = if config.archive_on then h.saved else h.commits in
        record h {
          waiting = h.waiting - 1;
          calls = h.calls - 1;
          last_used = now;
          saved = saved;
          unsaved_since =
              if nat_eqb h.commits saved
              then h.unsaved_since
              else some (get_or h.unsaved_since now);
        })
    else h

-- A caller that stops waiting for its call: the future is dropped at the await, and a statement
-- that runs holds the connection on.
abbrev pub abandon : Handle → Handle
abandon h = record h { calls = if ltb h.refusing h.calls then h.calls - 1 else h.calls }

-- Why writes are refused.
pub data Pause : Type 0 where
  disk_full : Pause
  no_snapshot : ℕ → Pause

unfoldable pub paused : Config → Service → Handle → Option Pause
paused config s h =
    if s.disk_low
    then some disk_full
    else if config.archive_on
    then elim h.unsaved_since [
      | none ↦ none
      | some since ↦
          if leb config.pause_after (s.now - since)
          then some (no_snapshot (s.now - since))
          else none
    ]
    else none

abbrev pub idle_now : Config → ℕ → Handle → Bool
idle_now config now h = nat_eqb (strong_count h) 1 && leb config.idle (now - h.last_used)

-- The `retain` of close_idle, which closes the idle connections on its way.
unfoldable pub close_idle : Config → ℕ → Map String Handle → Map String Handle
close_idle config now [] = []
close_idle config now ((id, h) ∷ m) =
    let rest : Map String Handle = close_idle config now m in
    if idle_now config now h
    then (if unsaved h then (id, close h) ∷ rest else rest)
    else (id, h) ∷ rest

-- restore_if_missing, and the open that makes a file.
abbrev pub file_of_open : Config → ℕ → Option ℕ → Option ℕ
file_of_open config snapshot (some commits) = some commits
file_of_open config snapshot none = some (if config.archive_on then snapshot else 0)

-- The handles of the snapshot pass: every entry with unsaved commits.
abbrev pub unsaved_ids : Map String Handle → List String
unsaved_ids [] = []
unsaved_ids ((id, h) ∷ m) = if unsaved h then id ∷ unsaved_ids m else unsaved_ids m

abbrev pub list_one : Handle → Handle
list_one h = if unsaved h then record h { listed = suc h.listed } else h

abbrev pub list_unsaved : Map String Handle → Map String Handle
list_unsaved [] = []
list_unsaved ((id, h) ∷ m) = (id, list_one h) ∷ list_unsaved m

abbrev pub saved_now : Snapshot → Handle → Handle
saved_now snapshot h = record h {
  listed = h.listed - 1;
  saved = snapshot.covered;
  unsaved_since = if nat_eqb h.commits snapshot.covered then none else some snapshot.started;
}

abbrev pub set_at {ℓ} : {A : Type ℓ} → String → A → (String → A) → String → A
set_at id a f key = if id == key then a else f key
