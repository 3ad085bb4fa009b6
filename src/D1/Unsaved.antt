-- ===== src/D1/Unsaved.antt =====
-- The commits of src/d1/mod.rs that no snapshot holds: what is kept of each database.
use mathlib.Core.Option
use openworkers_runner.Common.{
  Bool, Bool-cases, List, Option, String, [], arith, if◌then◌else◌, inl, inr, is_some, ltb, nat_eq,
  none, option_eq, refl, some, string_eq, true, ℕ, ◌+◌, ◌==◌, ◌||◌, ◌∷◌, ◌≡◌, ◌≤◌,
}
use openworkers_runner.Common.Maps.{Unique, adjust, lookup, lookup-adjust}
use openworkers_runner.Common.Maps.Counting.{Unique-adjust}
use openworkers_runner.D1.{
  Config, Handle, Service, Snapshot, close, enter, leave_ran, leave_refused,
}
use openworkers_runner.D1.Passes.{commits_in, hook, settle, unlock}

abbrev pub times : String → List String → ℕ
times id [] = 0
times id (other ∷ ids) = (if other == id then 1 else 0) + times id ids

-- The snapshot under way of a database, which is the first of the pass.
abbrev pub flight : List String → Option Snapshot → String → Option Snapshot
flight [] current id = none
flight (first ∷ pass) current id = if first == id then current else none

-- A handle that shows that its file was there.
abbrev pub live : Handle → Bool
live h = h.busy || h.connected || ltb 0 h.commits || ltb 0 h.listed

-- What a snapshot under way will hold, with the transactions that are on their way to the file.
abbrev pub Reads : Option ℕ → ℕ → Handle → Option ℕ → Type 0
Reads none covered h file = Unit
Reads (some content) covered h file = commits_in file + h.pending + covered ≤ content + h.commits

abbrev pub Flies : Option Snapshot → Handle → Option ℕ → Type 0
Flies none h file = Unit
Flies (some snapshot) h file =
    (snapshot.covered + h.pending ≤ h.commits)
    × (is_some file ≡ true)
    × Reads snapshot.content snapshot.covered h file

pub record HandleOk (h : Handle) (file : Option ℕ) (saved n : ℕ) (fl : Option Snapshot)
    : Type 0 where
  pub covers : commits_in file + h.pending + h.saved ≤ saved + h.commits
  pub counted : h.pending + h.saved ≤ h.commits
  pub there : live h ≡ true → is_some file ≡ true
  pub held : n ≤ h.listed
  pub flies : Flies fl h file

abbrev pub AtOk : Option Handle → Option ℕ → ℕ → ℕ → Option Snapshot → Type 0
AtOk none file saved n fl = (commits_in file ≤ saved) × (n ≡ 0)
AtOk (some h) file saved n fl = HandleOk h file saved n fl

abbrev pub At : Service → String → Type 0
At s id =
    AtOk (lookup id s.databases) (s.files id) (s.archive id) (times id s.pass)
      (flight s.pass s.current id)

pub record Inv (s : Service) : Type 0 where
  pub unique : Unique s.databases
  pub at_each : (id : String) → At s id

-- A change of a handle alone, which takes nothing of what is unsaved.
pub record Keeps (f : Handle → Handle) : Type 0 where
  pub same_saved : (h : Handle) → (f h).saved ≡ h.saved
  pub same_listed : (h : Handle) → (f h).listed ≡ h.listed
  pub slack : (h : Handle) → (f h).pending + h.commits ≤ h.pending + (f h).commits
  pub stays_live : (h : Handle) → live (f h) ≡ true → live h ≡ true

change_read :
    (f : Handle → Handle) (content : Option ℕ) (covered : ℕ) (h : Handle) (file : Option ℕ)
    → Keeps f
    → Reads content covered h file
    → Reads content covered (f h) file
change_read f none covered h file k reads = tt
change_read f (some content) covered h file k reads = omega (arith, k.slack h, reads)

change_flight :
    (f : Handle → Handle) (fl : Option Snapshot) (h : Handle) (file : Option ℕ)
    → Keeps f
    → Flies fl h file
    → Flies fl (f h) file
change_flight f none h file k flies = tt
change_flight f (some snapshot) h file k flies = (
  omega (arith, k.slack h, flies.0),
  flies.1,
  change_read f snapshot.content snapshot.covered h file k flies.2,
)

pub change-HandleOk :
    (f : Handle → Handle) (h : Handle) (file : Option ℕ) (saved n : ℕ) (fl : Option Snapshot)
    → Keeps f
    → HandleOk h file saved n fl
    → HandleOk (f h) file saved n fl
change-HandleOk f h file saved n fl k good = record {
  covers = omega (arith, k.slack h, k.same_saved h, good.covers);
  counted = omega (arith, k.slack h, k.same_saved h, good.counted);
  there = λ alive. good.there (k.stays_live h alive);
  held = omega (arith, k.same_listed h, good.held);
  flies = change_flight f fl h file k good.flies;
}

pub adjust-AtOk :
    (f : Handle → Handle) (o : Option Handle) (file : Option ℕ) (saved n : ℕ) (fl : Option Snapshot)
    → Keeps f
    → AtOk o file saved n fl
    → AtOk (Option.map f o) file saved n fl
adjust-AtOk f none file saved n fl k good = good
adjust-AtOk f (some h) file saved n fl k good = change-HandleOk f h file saved n fl k good

-- A write to one handle, where only that database is affected.
pub adjust-Inv :
    (id : String) (f : Handle → Handle) (s : Service)
    → Keeps f
    → Inv s
    → Inv (record s { databases = adjust id f s.databases })
adjust-Inv id f s k i = record {
  unique = Unique-adjust id f s.databases i.unique;
  at_each = λ j. rw (lookup-adjust id j f s.databases) (elim (Bool-cases (id == j)) [
    | inl hit ↦ rw hit (
        adjust-AtOk f (lookup j s.databases) (s.files j) (s.archive j) (times j s.pass)
          (flight s.pass s.current j) k (i.at_each j))
    | inr miss ↦ rw miss (i.at_each j)
  ]);
}

pub enter-Keeps : (config : Config) → Keeps (enter config)
enter-Keeps config = record {
  same_saved = λ h. refl;
  same_listed = λ h. refl;
  slack = λ h. omega arith;
  stays_live = λ h alive. alive;
}

pub leave_refused-Keeps : Keeps leave_refused
leave_refused-Keeps = record {
  same_saved = λ h. ground arith;
  same_listed = λ h. ground arith;
  slack = λ h. ground arith;
  stays_live = λ h alive. ground arith;
}

pub leave_ran-Keeps :
    (config : Config) (now : ℕ) → config.archive_on ≡ true → Keeps (leave_ran config now)
leave_ran-Keeps config now on = record {
  same_saved = λ h. ground arith;
  same_listed = λ h. ground arith;
  slack = λ h. ground arith;
  stays_live = λ h alive. ground arith;
}

pub hook-Keeps : Keeps hook
hook-Keeps = record {
  same_saved = λ h. ground arith;
  same_listed = λ h. ground arith;
  slack = λ h. ground arith;
  stays_live = λ h alive. ground arith;
}

pub settle-Keeps : Keeps settle
settle-Keeps = record {
  same_saved = λ h. refl;
  same_listed = λ h. refl;
  slack = λ h. omega arith;
  stays_live = λ h alive. alive;
}

pub unlock-Keeps : Keeps unlock
unlock-Keeps = record {
  same_saved = λ h. refl;
  same_listed = λ h. refl;
  slack = λ h. omega arith;
  stays_live = λ h alive. ground arith;
}

pub close-Keeps : Keeps close
close-Keeps = record {
  same_saved = λ h. refl;
  same_listed = λ h. refl;
  slack = λ h. omega arith;
  stays_live = λ h alive. ground arith;
}
