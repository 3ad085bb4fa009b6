-- ===== src/D1/Covered.antt =====
-- The steps of src/d1/mod.rs that change a file: the removals, the open and the landing.
use mathlib.Core.Path.{subst}
use openworkers_runner.Common.{
  Bool-cases, Option, String, arith, eq_iff, false, if◌then◌else◌, inl, inr, ltb, nat_eq, none, not,
  option_eq, refl, some, string_eq, suc, sym, true, ℕ, ◌&&◌, ◌<◌, ◌==◌, ◌≡◌,
}
use openworkers_runner.Common.Maps.{adjust, lookup, lookup-adjust, lookup-remove, remove}
use openworkers_runner.Common.Maps.Counting.{Unique-adjust, Unique-remove}
use openworkers_runner.D1.{Config, Handle, Service, Snapshot, file_of_open, set_at}
use openworkers_runner.D1.Passes.{commits_in, in_use, land_by, lock, lock_by, settle}
use openworkers_runner.D1.Unsaved.{AtOk, Flies, HandleOk, Inv, Reads, flight, times}

-- Removed files: an entry that nothing else holds goes with them.
unused-AtOk :
    (o : Option Handle) (file : Option ℕ) (saved n : ℕ) (fl : Option Snapshot)
    → in_use o ≡ false
    → AtOk o file saved n fl
    → AtOk none none saved n fl
unused-AtOk none file saved n fl free good = (omega arith, good.1)
unused-AtOk (some h) file saved n fl free good = (omega arith, ground (arith, good.held))

pub removed-Inv :
    (id : String) (s : Service)
    → in_use (lookup id s.databases) ≡ false
    → Inv s
    → Inv (record s { databases = remove id s.databases; files = set_at id none s.files })
removed-Inv id s free i = record {
  unique = Unique-remove id s.databases i.unique;
  at_each = λ j. rw (lookup-remove id j s.databases) (elim (Bool-cases (id == j)) [
    | inl hit ↦
        let same : id ≡ j = (eq_iff id j).0 hit in
        let loose : in_use (lookup j s.databases) ≡ false = rw (sym same) free in
        rw hit (
          unused-AtOk (lookup j s.databases) (s.files j) (s.archive j) (times j s.pass)
            (flight s.pass s.current j) loose (i.at_each j))
    | inr miss ↦ rw miss (i.at_each j)
  ]);
}

-- A lock that opens the file, or makes it from the latest snapshot.
locked-Reads :
    (content : Option ℕ) (covered : ℕ) (h : Handle) (file : Option ℕ)
    → Reads content covered h file
    → Reads content covered (lock h) file
locked-Reads none covered h file reads = tt
locked-Reads (some x) covered h file reads = reads

locked-Flies :
    (fl : Option Snapshot) (h : Handle) (file : Option ℕ) → Flies fl h file → Flies fl (lock h) file
locked-Flies none h file flies = tt
locked-Flies (some c) h file flies =
    (flies.0, flies.1, locked-Reads c.content c.covered h file flies.2)

grounded_lem : (fl : Option Snapshot) (h : Handle) → Flies fl h none → fl ≡ none
grounded_lem none h flies = refl
grounded_lem (some c) h flies = absurd (ground (arith, flies.1))

locked-HandleOk :
    (config : Config) (h : Handle) (file : Option ℕ) (saved n : ℕ) (fl : Option Snapshot)
    → config.archive_on ≡ true
    → HandleOk h file saved n fl
    → HandleOk (lock h) (if h.connected then file else file_of_open config saved file) saved n fl
locked-HandleOk config h (some x) saved n fl on good =
    let same : (if h.connected then some x else file_of_open config saved (some x)) ≡ some x =
      ground arith in
    rw same (record {
      covers = good.covers;
      counted = good.counted;
      there = λ alive. refl;
      held = good.held;
      flies = locked-Flies fl h (some x) good.flies;
    })
locked-HandleOk config h none saved n fl on good = elim (Bool-cases h.connected) [
  | inl open_ ↦ absurd (ground (arith, good.there))
  | inr closed ↦
      let grounded : fl ≡ none = grounded_lem fl h good.flies in
      rw (closed, on, grounded)
        (record {
          covers = omega (arith, good.counted);
          counted = good.counted;
          there = λ alive. refl;
          held = good.held;
          flies = tt;
        })
]

-- A write to one handle and to its file.
file-Inv :
    (id : String) (f : Handle → Handle) (h : Handle) (file : Option ℕ) (s : Service)
    → lookup id s.databases ≡ some h
    → (HandleOk h (s.files id) (s.archive id) (times id s.pass) (flight s.pass s.current id)
        → HandleOk (f h) file (s.archive id) (times id s.pass) (flight s.pass s.current id))
    → Inv s
    → Inv (record s { databases = adjust id f s.databases; files = set_at id file s.files })
file-Inv id f h file s found keep i = record {
  unique = Unique-adjust id f s.databases i.unique;
  at_each = λ j. rw (lookup-adjust id j f s.databases) (elim (Bool-cases (id == j)) [
    | inr miss ↦ rw miss (i.at_each j)
    | inl hit ↦
        let same : id ≡ j = (eq_iff id j).0 hit in
        let good : HandleOk (f h) file (s.archive j) (times j s.pass) (flight s.pass s.current j) =
          subst
            (λ k. HandleOk (f h) file (s.archive k) (times k s.pass) (flight s.pass s.current k))
            same (keep (rw found at (i.at_each id))) in
        let there : lookup j s.databases ≡ some h = rw (sym same) found in rw (hit, there) good
  ]);
}

pub lock-Inv :
    (config : Config) (id : String) (o : Option Handle) (s : Service)
    → config.archive_on ≡ true
    → lookup id s.databases ≡ o
    → Inv s
    → Inv (lock_by config id o s)
lock-Inv config id none s on found i = i
lock-Inv config id (some h) s on found i =
    elim (Bool-cases (not h.busy && ltb h.refusing h.calls)) [
      | inr no_turn ↦ rw no_turn i
      | inl turn ↦ rw turn (
          file-Inv id lock h
            (if h.connected then s.files id else file_of_open config (s.archive id) (s.files id)) s
            found
            (locked-HandleOk config h (s.files id) (s.archive id) (times id s.pass)
              (flight s.pass s.current id) on)
            i)
    ]

landed-Reads :
    (content : Option ℕ) (covered : ℕ) (h : Handle) (file : Option ℕ)
    → 0 < h.pending
    → Reads content covered h file
    → Reads content covered (settle h) (some (suc (commits_in file)))
landed-Reads none covered h file some_left reads = tt
landed-Reads (some x) covered h file some_left reads = omega arith

landed-Flies :
    (fl : Option Snapshot) (h : Handle) (file : Option ℕ)
    → 0 < h.pending
    → Flies fl h file
    → Flies fl (settle h) (some (suc (commits_in file)))
landed-Flies none h file some_left flies = tt
landed-Flies (some c) h file some_left flies =
    (omega (arith, flies.0), refl, landed-Reads c.content c.covered h file some_left flies.2)

pub land-Inv :
    (id : String) (o : Option Handle) (s : Service)
    → lookup id s.databases ≡ o
    → Inv s
    → Inv (land_by id o s)
land-Inv id none s found i = i
land-Inv id (some h) s found i = elim (Bool-cases (ltb 0 h.pending)) [
  | inr nothing ↦ rw nothing i
  | inl some_left ↦
      let left : 0 < h.pending = ground arith in
      rw some_left (
        file-Inv id settle h (some (suc (commits_in (s.files id)))) s found
          (λ good. record {
            covers = omega (arith, good.covers);
            counted = omega (arith, good.counted);
            there = λ alive. refl;
            held = good.held;
            flies = landed-Flies (flight s.pass s.current id) h (s.files id) left good.flies;
          })
          i)
]
