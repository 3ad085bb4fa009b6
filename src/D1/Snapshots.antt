-- ===== src/D1/Snapshots.antt =====
-- The snapshot pass of src/d1/mod.rs, one database after the other.
use mathlib.Core.Option
use mathlib.Core.Path.{subst}
use openworkers_runner.Common.{
  Bool-cases, List, Option, String, [], arith, eq_iff, false, get_or, inl, inr, nat_eq, none,
  option_eq, refl, some, string_eq, sym, true, ℕ, ◌+◌, ◌==◌, ◌∷◌, ◌≡◌, ◌≤◌,
}
use openworkers_runner.Common.Maps.{Unique, adjust, lookup, lookup-adjust}
use openworkers_runner.Common.Maps.Counting.{Unique-adjust}
use openworkers_runner.D1.{Handle, Service, Snapshot}
use openworkers_runner.D1.Passes.{
  begin_snapshot, commits_in, commits_of, pending_of, read_snapshot, settled_at,
}
use openworkers_runner.D1.Listing.{flight-none}
use openworkers_runner.D1.Unsaved.{AtOk, Inv, Reads, live, times}

-- A snapshot that begins for a database whose transactions all landed.
begun-AtOk :
    (o : Option Handle) (file : Option ℕ) (saved n started : ℕ)
    → pending_of o ≡ 0
    → AtOk o file saved (1 + n) none
    → AtOk o file saved
        (1 + n)
        (some (record { covered = commits_of o; started = started; content = none }))
begun-AtOk none file saved n started settled good = good
begun-AtOk (some h) file saved n started settled good = record {
  covers = good.covers;
  counted = good.counted;
  there = good.there;
  held = good.held;
  flies =
      let listed : live h ≡ true = ground (arith, good.held) in
      (omega (arith, settled), good.there listed, tt);
}

-- The databases of a pass: its first one, and the others.
pub record PassOk (id : String) (pass : List String) (s : Service) (fl : Option Snapshot)
    : Type 0 where
  pub first_ok : AtOk (lookup id s.databases) (s.files id) (s.archive id) (1 + times id pass) fl
  pub others_ok :
      (j : String)
      → (id == j) ≡ false
      → AtOk (lookup j s.databases) (s.files j) (s.archive j) (times j pass) none

pub pass-PassOk :
    (id : String) (pass : List String) (fl : Option Snapshot) (s : Service)
    → s.pass ≡ id ∷ pass
    → s.current ≡ fl
    → Inv s
    → PassOk id pass s fl
pass-PassOk id pass fl s e f i =
    let self : (id == id) ≡ true = (eq_iff id id).1 refl in
    let zeroth : (n : ℕ) → 0 + n ≡ n = λ n. omega arith in
    record {
      first_ok = rw self at (rw (e, f) at (i.at_each id));
      others_ok = λ j miss. rw (miss, zeroth (times j pass)) at (rw (e, f) at (i.at_each j));
    }

PassOk-Inv :
    (id : String) (pass : List String) (fl : Option Snapshot) (s : Service)
    → s.pass ≡ id ∷ pass
    → s.current ≡ fl
    → Unique s.databases
    → PassOk id pass s fl
    → Inv s
PassOk-Inv id pass fl s e f u good = record {
  unique = u;
  at_each = λ j.
      rw (e, f)
        (elim (Bool-cases (id == j)) [
          | inl hit ↦
              let same : id ≡ j = (eq_iff id j).0 hit in
              rw hit (
                subst
                  (λ k. AtOk (lookup k s.databases) (s.files k) (s.archive k) (1 + times k pass) fl)
                  same good.first_ok)
          | inr miss ↦
              let zeroth : 0 + times j pass ≡ times j pass = omega arith in
              rw (miss, zeroth) (good.others_ok j miss)
        ]);
}

pub begin-Inv :
    (pass : List String) (current : Option Snapshot) (s : Service)
    → s.pass ≡ pass
    → s.current ≡ current
    → settled_at pass s ≡ true
    → Inv s
    → Inv (begin_snapshot pass current s)
begin-Inv [] current s e f settled i = i
begin-Inv (id ∷ pass) (some c) s e f settled i = i
begin-Inv (id ∷ pass) none s e f settled i =
    let found = pass-PassOk id pass none s e f i in
    let fl : Option Snapshot =
      some (record {
        covered = commits_of (lookup id s.databases);
        started = s.now;
        content = none;
      }) in
    PassOk-Inv id pass fl (begin_snapshot (id ∷ pass) none s) e refl i.unique (record {
      first_ok =
          begun-AtOk (lookup id s.databases) (s.files id) (s.archive id) (times id pass) s.now
            (ground arith) found.first_ok;
      others_ok = found.others_ok;
    })

read-Reads :
    (content : Option ℕ) (covered : ℕ) (h : Handle) (file : Option ℕ)
    → covered + h.pending ≤ h.commits
    → Reads content covered h file
    → Reads (some (get_or content (commits_in file))) covered h file
read-Reads none covered h file within reads = omega arith
read-Reads (some x) covered h file within reads = reads

read-AtOk :
    (o : Option Handle) (file : Option ℕ) (saved n : ℕ) (c : Snapshot)
    → AtOk o file saved n (some c)
    → AtOk o file saved n (some (record c { content = some (get_or c.content (commits_in file)) }))
read-AtOk none file saved n c good = good
read-AtOk (some h) file saved n c good = record {
  covers = good.covers;
  counted = good.counted;
  there = good.there;
  held = good.held;
  flies =
      (good.flies.0, good.flies.1, read-Reads c.content c.covered h file good.flies.0 good.flies.2);
}

pub read-Inv :
    (pass : List String) (current : Option Snapshot) (s : Service)
    → s.pass ≡ pass
    → s.current ≡ current
    → Inv s
    → Inv (read_snapshot pass current s)
read-Inv [] current s e f i = i
read-Inv (id ∷ pass) none s e f i = i
read-Inv (id ∷ pass) (some c) s e f i =
    let found = pass-PassOk id pass (some c) s e f i in
    PassOk-Inv id pass
      (some (record c { content = some (get_or c.content (commits_in (s.files id))) }))
      (read_snapshot (id ∷ pass) (some c) s) e refl i.unique
      (record {
        first_ok =
            read-AtOk (lookup id s.databases) (s.files id) (s.archive id) (1 + times id pass) c
              found.first_ok;
        others_ok = found.others_ok;
      })

-- The first database of a pass is done: its handle and its snapshot changed, and no other.
pub done-Inv :
    (id : String) (pass : List String) (f : Handle → Handle) (saved : ℕ) (s t : Service)
    → t.databases ≡ adjust id f s.databases
    → t.files ≡ s.files
    → t.archive id ≡ saved
    → ((j : String) → (id == j) ≡ false → t.archive j ≡ s.archive j)
    → t.pass ≡ pass
    → t.current ≡ none
    → Unique s.databases
    → AtOk (Option.map f (lookup id s.databases)) (s.files id) saved (times id pass) none
    → ((j : String)
        → (id == j) ≡ false
        → AtOk (lookup j s.databases) (s.files j) (s.archive j) (times j pass) none)
    → Inv t
done-Inv id pass f saved s t d g a b p c u first others = record {
  unique = rw d (Unique-adjust id f s.databases u);
  at_each = λ j.
      rw (d, g, p, c, lookup-adjust id j f s.databases, flight-none pass j)
        (elim (Bool-cases (id == j)) [
          | inr miss ↦ rw (miss, b j miss) (others j miss)
          | inl hit ↦
              let same : id ≡ j = (eq_iff id j).0 hit in
              let stored : t.archive j ≡ saved = rw (sym same) a in
              rw (hit, stored)
                (subst
                  (λ k.
                    AtOk (Option.map f (lookup k s.databases)) (s.files k) saved (times k pass)
                      none)
                  same first)
        ]);
}
