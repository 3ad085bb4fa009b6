-- ===== src/D1/Listing.antt =====
-- The list of a snapshot pass of src/d1/mod.rs.
use mathlib.Core.Option
use openworkers_runner.Common.{
  Bool-cases, List, Option, String, [], ap, arith, eq_iff, if◌then◌else◌, inl, inr, nat_eq, none,
  option_eq, refl, some, string_eq, sym, true, ℕ, ◌&&◌, ◌==◌, ◌∙◌, ◌∷◌, ◌≡◌,
}
use openworkers_runner.Common.Lists.{is_empty}
use openworkers_runner.Common.Maps.{Map, Unique, lookup}
use openworkers_runner.D1.{
  Config, Handle, Service, Snapshot, list_one, list_unsaved, unsaved, unsaved_ids,
}
use openworkers_runner.D1.Passes.{start_pass}
use openworkers_runner.D1.Unsaved.{AtOk, Inv, flight, live, times}

pub flight-none : (pass : List String) (id : String) → flight pass none id ≡ none
flight-none [] id = refl
flight-none (first ∷ pass) id = ground arith

lookup-list_unsaved :
    (id : String) (m : Map String Handle)
    → lookup id (list_unsaved m) ≡ Option.map list_one (lookup id m)
unfolding lookup
lookup-list_unsaved id [] = refl
lookup-list_unsaved id ((j, h) ∷ m) = elim (Bool-cases (j == id)) [
  | inl hit ↦ rw hit refl
  | inr miss ↦ rw miss (lookup-list_unsaved id m)
]

Unique-list_unsaved : (m : Map String Handle) → Unique m → Unique (list_unsaved m)
Unique-list_unsaved [] u = tt
Unique-list_unsaved ((j, h) ∷ m) u =
    (lookup-list_unsaved j m ∙ ap (Option.map list_one) u.0, Unique-list_unsaved m u.1)

abbrev expected : Option Handle → ℕ
expected none = 0
expected (some h) = if unsaved h then 1 else 0

times-unsaved_ids :
    (id : String) (m : Map String Handle)
    → Unique m
    → times id (unsaved_ids m) ≡ expected (lookup id m)
unfolding lookup
times-unsaved_ids id [] u = refl
times-unsaved_ids id ((j, h) ∷ m) u =
    let rest = times-unsaved_ids id m u.1 in
    elim (Bool-cases (j == id)) [
      | inr miss ↦ ground (arith, rest)
      | inl hit ↦
          let same : j ≡ id = (eq_iff j id).0 hit in
          let nothing : lookup id m ≡ none = rw (sym same) u.0 in
          ground (arith, rest, ap expected nothing)
    ]

listed-AtOk :
    (o : Option Handle) (file : Option ℕ) (saved n : ℕ) (fl : Option Snapshot)
    → AtOk o file saved n fl
    → AtOk (Option.map list_one o) file saved (expected o) none
listed-AtOk none file saved n fl good = (good.0, refl)
listed-AtOk (some h) file saved n fl good = elim (Bool-cases (unsaved h)) [
  | inl kept ↦
      let some_commit : live h ≡ true = ground (arith, good.counted) in
      rw kept (record {
        covers = good.covers;
        counted = good.counted;
        there = λ alive. good.there some_commit;
        held = omega arith;
        flies = tt;
      })
  | inr covered ↦ rw covered (record {
    covers = good.covers;
    counted = good.counted;
    there = good.there;
    held = omega arith;
    flies = tt;
  })
]

pub start_pass-Inv : (config : Config) (s : Service) → Inv s → Inv (start_pass config s)
unfolding start_pass
start_pass-Inv config s i = elim (Bool-cases (config.archive_on && is_empty s.pass)) [
  | inr later ↦ rw later i
  | inl due ↦ rw due (record {
    unique = Unique-list_unsaved s.databases i.unique;
    at_each = λ j.
        rw
          (
            lookup-list_unsaved j s.databases,
            times-unsaved_ids j s.databases i.unique,
            flight-none (unsaved_ids s.databases) j,
          )
          (listed-AtOk (lookup j s.databases) (s.files j) (s.archive j) (times j s.pass)
            (flight s.pass s.current j) (i.at_each j));
  })
]
