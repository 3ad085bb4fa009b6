-- ===== src/D1/Passes.antt =====
-- src/d1/mod.rs: the calls, the snapshot pass and the sweeps of the service, as steps in any order.
-- A step that nothing in the service can take changes nothing.
use openworkers_runner.Common.{
  Bool, List, Option, Result, String, [], err, false, get_or, if◌then◌else◌, ltb, nat_eq, nat_eqb,
  none, not, ok, option_eq, some, string_eq, suc, true, ℕ, ◌&&◌, ◌-◌, ◌∷◌,
}
use openworkers_runner.Common.Lists.{is_empty}
use openworkers_runner.Common.Maps.{adjust, lookup, remove}
use openworkers_runner.D1.{
  Config, Handle, Service, Snapshot, abandon, close_idle, enter, file_of_open, handle, leave_ran,
  leave_refused, list_unsaved, saved_now, set_at, strong_count, unsaved_ids,
}

-- `locks` and `unlocks` are of the connection, of a call that was not refused. `hooks`, `lands` and
-- `rolls_back` are of a transaction of the call that holds it.
pub data Event : Type 0 where
  enters refused_leaves locks hooks lands rolls_back unlocks ran_leaves abandons : String → Event
  closes_idle : Event
  removes_files resets : String → Event
  checks_disk : ℕ → Event
  pass_starts pass_begins pass_reads : Event
  pass_ends : Bool → Event
  ticks : Event

abbrev pub commits_in : Option ℕ → ℕ
commits_in none = 0
commits_in (some commits) = commits

abbrev pub in_use : Option Handle → Bool
in_use none = false
in_use (some h) = ltb 1 (strong_count h)

pub data ResetError : Type 0 where
  snapshots_off : ResetError
  database_in_use : ResetError

unfoldable pub remove_files : String → Service → Bool × Service
remove_files id s =
    if in_use (lookup id s.databases)
    then (false, s)
    else (true, record s { databases = remove id s.databases; files = set_at id none s.files })

unfoldable pub reset_to_snapshot :
    Config → String → Service → Result {0, 0} Unit ResetError × Service
reset_to_snapshot config id s =
    if not config.archive_on
    then (err snapshots_off, s)
    else if in_use (lookup id s.databases)
    then (err database_in_use, s)
    else (ok tt, record s { databases = remove id s.databases; files = set_at id none s.files })

abbrev pub lock : Handle → Handle
lock h = record h { busy = true; connected = true }

-- The lock, and the file where the connection has to be opened.
abbrev pub lock_by : Config → String → Option Handle → Service → Service
lock_by config id none s = s
lock_by config id (some h) s =
    if not h.busy && ltb h.refusing h.calls
    then record s {
      databases = adjust id lock s.databases;
      files =
          set_at id
            (if h.connected then s.files id else file_of_open config (s.archive id) (s.files id))
            s.files;
    }
    else s

abbrev pub hook : Handle → Handle
hook h = if h.busy then record h { commits = suc h.commits; pending = suc h.pending } else h

abbrev pub settle : Handle → Handle
settle h = record h { pending = h.pending - 1 }

abbrev pub land_by : String → Option Handle → Service → Service
land_by id none s = s
land_by id (some h) s =
    if ltb 0 h.pending
    then record s {
      databases = adjust id settle s.databases;
      files = set_at id (some (suc (commits_in (s.files id)))) s.files;
    }
    else s

abbrev pub unlock : Handle → Handle
unlock h = record h { busy = if nat_eqb h.pending 0 then false else h.busy }

abbrev pub commits_of : Option Handle → ℕ
commits_of none = 0
commits_of (some h) = h.commits

-- `snapshot`, up to the read of `commits`.
abbrev pub begin_snapshot : List String → Option Snapshot → Service → Service
begin_snapshot [] current s = s
begin_snapshot (id ∷ pass) (some snapshot) s = s
begin_snapshot (id ∷ pass) none s = record s {
  current =
      some
        (record { covered = commits_of (lookup id s.databases); started = s.now; content = none });
}

-- take_snapshot
abbrev pub read_snapshot : List String → Option Snapshot → Service → Service
read_snapshot [] current s = s
read_snapshot (id ∷ pass) none s = s
read_snapshot (id ∷ pass) (some snapshot) s = record s {
  current =
      some (record snapshot { content = some (get_or snapshot.content (commits_in (s.files id))) });
}

abbrev pub drop_listed : Handle → Handle
drop_listed h = record h { listed = h.listed - 1 }

-- Once the archive saved it, or something failed.
abbrev pub end_saved : String → List String → Snapshot → Option ℕ → Service → Service
end_saved id pass snapshot none s = s
end_saved id pass snapshot (some content) s = record s {
  databases = adjust id (saved_now snapshot) s.databases;
  archive = set_at id content s.archive;
  pass = pass;
  current = none;
}

abbrev pub end_snapshot : Bool → List String → Option Snapshot → Service → Service
end_snapshot saved [] current s = s
end_snapshot saved (id ∷ pass) none s = s
end_snapshot true (id ∷ pass) (some snapshot) s = end_saved id pass snapshot snapshot.content s
end_snapshot false (id ∷ pass) (some snapshot) s = record s {
  databases = adjust id drop_listed s.databases;
  pass = pass;
  current = none;
}

-- No snapshot is under way when a pass starts.
unfoldable pub start_pass : Config → Service → Service
start_pass config s =
    if config.archive_on && is_empty s.pass
    then record s {
      databases = list_unsaved s.databases;
      pass = unsaved_ids s.databases;
      current = none;
    }
    else s

unfoldable pub step : Config → Event → Service → Service
unfolding handle close_idle remove_files reset_to_snapshot start_pass
step config (enters id) s = record s {
  databases = adjust id (enter config) (handle config id s.now s.databases);
}
step config (refused_leaves id) s = record s { databases = adjust id leave_refused s.databases }
step config (locks id) s = lock_by config id (lookup id s.databases) s
step config (hooks id) s = record s { databases = adjust id hook s.databases }
step config (lands id) s = land_by id (lookup id s.databases) s
step config (rolls_back id) s = record s { databases = adjust id settle s.databases }
step config (unlocks id) s = record s { databases = adjust id unlock s.databases }
step config (ran_leaves id) s = record s {
  databases = adjust id (leave_ran config s.now) s.databases;
}
step config (abandons id) s = record s { databases = adjust id abandon s.databases }
step config closes_idle s = record s { databases = close_idle config s.now s.databases }
step config (removes_files id) s = (remove_files id s).1
step config (resets id) s = (reset_to_snapshot config id s).1
step config (checks_disk free) s = record s { disk_low = ltb free config.min_free_bytes }
step config pass_starts s = start_pass config s
step config pass_begins s = begin_snapshot s.pass s.current s
step config pass_reads s = read_snapshot s.pass s.current s
step config (pass_ends saved) s = end_snapshot saved s.pass s.current s
step config ticks s = record s { now = suc s.now }

unfoldable pub run : Config → List Event → Service → Service
unfolding step
run config [] s = s
run config (event ∷ events) s = run config events (step config event s)

abbrev pub pending_of : Option Handle → ℕ
pending_of none = 0
pending_of (some h) = h.pending

-- No caller stops waiting for its call, and no snapshot begins between the hook of a transaction of its database and the landing.
abbrev pub settled_at : List String → Service → Bool
settled_at [] s = true
settled_at (id ∷ pass) s = nat_eqb (pending_of (lookup id s.databases)) 0

abbrev pub settled_in : Event → Service → Bool
settled_in pass_begins s = settled_at s.pass s
settled_in (abandons id) s = false
settled_in event s = true

unfoldable pub undisturbed : Config → List Event → Service → Bool
unfolding step
undisturbed config [] s = true
undisturbed config (event ∷ events) s =
    settled_in event s && undisturbed config events (step config event s)
