-- ===== src/D1/Swept.antt =====
-- The entries of src/d1/mod.rs that go: the eviction of `handle`, `close_idle` and the removals.
use openworkers_runner.Common.{
  Bool-cases, List, Option, Option-cases, String, [], ap, arith, eq_iff, false, if◌then◌else◌, inl,
  inr, leb, nat_eq, nat_eqb, none, option_eq, refl, some, string_eq, sym, ℕ, ◌&&◌, ◌==◌, ◌∙◌, ◌∷◌,
  ◌≡◌, ◌⊎◌,
}
use openworkers_runner.Common.Maps.{
  Map, Unique, insert, lookup, lookup-adjust, lookup-insert, lookup-remove, remove,
}
use openworkers_runner.Common.Maps.Counting.{Unique-insert, Unique-remove}
use openworkers_runner.D1.{
  Config, Handle, Service, Snapshot, close, close_idle, evict, handle, idle_now, is_open,
  new_handle, older, oldest, open_count, strong_count, unsaved,
}
use openworkers_runner.D1.Unsaved.{
  AtOk, HandleOk, Inv, adjust-Inv, close-Keeps, flight, change-HandleOk, times,
}

older_lem :
    (a : String × Handle) (b : Option (String × Handle)) (c : String × Handle)
    → older a b ≡ some c
    → (c ≡ a) ⊎ (b ≡ some c)
older_lem a none c h = inl (cc)
older_lem a (some b) c h = elim (Bool-cases (leb a.1.last_used b.1.last_used)) [
  | inl first ↦ inl (ground arith)
  | inr later ↦ inr (ground arith)
]

later_oldest :
    (id : String) (h : Handle) (m : Map String Handle) (c : String × Handle)
    → Unique ((id, h) ∷ m)
    → (lookup c.0 m ≡ some c.1) × (strong_count c.1 ≡ 1)
    → (lookup c.0 ((id, h) ∷ m) ≡ some c.1) × (strong_count c.1 ≡ 1)
unfolding lookup
later_oldest id h m c u found = elim (Bool-cases (id == c.0)) [
  | inl hit ↦
      let same : id ≡ c.0 = (eq_iff id c.0).0 hit in
      absurd (ground (arith, ap (λ k. lookup k m) same))
  | inr miss ↦ rw miss found
]

-- The entry that `handle` takes is in the map, and nothing else holds it.
oldest_lem :
    (m : Map String Handle) (c : String × Handle)
    → Unique m
    → oldest m ≡ some c
    → (lookup c.0 m ≡ some c.1) × (strong_count c.1 ≡ 1)
unfolding lookup
oldest_lem [] c u e = absurd (cc)
oldest_lem ((id, h) ∷ m) c u e = elim (Bool-cases (nat_eqb (strong_count h) 1 && is_open h)) [
  | inr other ↦ later_oldest id h m c u (oldest_lem m c u.1 (rw other at e))
  | inl free ↦ elim (older_lem (id, h) (oldest m) c (rw free at e)) [
    | inl first ↦ rw first (ground (arith, eq_iff id id), ground arith)
    | inr later ↦ later_oldest id h m c u (oldest_lem m c u.1 later)
  ]
]

-- An entry that nothing holds and whose commits are all saved can go.
gone-AtOk :
    (h : Handle) (file : Option ℕ) (saved n : ℕ) (fl : Option Snapshot)
    → strong_count h ≡ 1
    → unsaved h ≡ false
    → HandleOk h file saved n fl
    → AtOk none file saved n fl
gone-AtOk h file saved n fl free covered good =
    let same : h.commits ≡ h.saved = ground arith in
    (omega (arith, good.covers), omega (arith, good.held))

pub remove-Inv :
    (id : String) (h : Handle) (s : Service)
    → lookup id s.databases ≡ some h
    → strong_count h ≡ 1
    → unsaved h ≡ false
    → Inv s
    → Inv (record s { databases = remove id s.databases })
remove-Inv id h s found free covered i = record {
  unique = Unique-remove id s.databases i.unique;
  at_each = λ j. rw (lookup-remove id j s.databases) (elim (Bool-cases (id == j)) [
    | inr miss ↦ rw miss (i.at_each j)
    | inl hit ↦
        let same : id ≡ j = (eq_iff id j).0 hit in
        let there : lookup j s.databases ≡ some h = rw (sym same) found in
        rw hit (
          gone-AtOk h (s.files j) (s.archive j) (times j s.pass) (flight s.pass s.current j) free
            covered (rw there at (i.at_each j)))
  ]);
}

evict-Inv :
    (o : Option (String × Handle)) (s : Service)
    → oldest s.databases ≡ o
    → Inv s
    → Inv (record s { databases = evict o s.databases })
evict-Inv none s e i = i
evict-Inv (some c) s e i = elim (Bool-cases (unsaved c.1)) [
  | inl kept ↦ rw kept (adjust-Inv c.0 close s close-Keeps i)
  | inr covered ↦
      let found = oldest_lem s.databases c i.unique e in
      rw covered (remove-Inv c.0 c.1 s found.0 found.1 covered i)
]

pub no_flight :
    (pass : List String) (current : Option Snapshot) (id : String)
    → times id pass ≡ 0
    → flight pass current id ≡ none
no_flight [] current id h = refl
no_flight (first ∷ pass) current id h = ground arith

new-AtOk :
    (file : Option ℕ) (saved n now : ℕ) (fl : Option Snapshot)
    → fl ≡ none
    → AtOk none file saved n fl
    → AtOk (some (new_handle now)) file saved n fl
new-AtOk file saved n now fl grounded good = record {
  covers = omega (arith, good.0);
  counted = omega arith;
  there = λ alive. absurd (cc);
  held = omega (arith, good.1);
  flies = rw grounded tt;
}

insert-Inv :
    (id : String) (s : Service)
    → lookup id s.databases ≡ none
    → Inv s
    → Inv (record s { databases = insert id (new_handle s.now) s.databases })
insert-Inv id s missing i = record {
  unique = Unique-insert id (new_handle s.now) s.databases i.unique;
  at_each = λ j.
      rw (lookup-insert id j (new_handle s.now) s.databases) (elim (Bool-cases (id == j)) [
        | inr miss ↦ rw miss (i.at_each j)
        | inl hit ↦
            let same : id ≡ j = (eq_iff id j).0 hit in
            let nothing : lookup j s.databases ≡ none = rw (sym same) missing in
            let good : AtOk none (s.files j) (s.archive j) (times j s.pass)
                (flight s.pass s.current j) =
              (rw nothing at (i.at_each j)) in
            rw hit (
              new-AtOk (s.files j) (s.archive j) (times j s.pass) s.now (flight s.pass s.current j)
                (no_flight s.pass s.current j good.1) good)
      ]);
}

evict-none :
    (id : String) (o : Option (String × Handle)) (m : Map String Handle)
    → lookup id m ≡ none
    → lookup id (evict o m) ≡ none
evict-none id none m h = h
evict-none id (some c) m h = ground (arith, lookup-remove c.0 id m, lookup-adjust c.0 id close m)

pub handle-Inv :
    (config : Config) (id : String) (s : Service)
    → Inv s
    → Inv (record s { databases = handle config id s.now s.databases })
unfolding handle
handle-Inv config id s i = elim (Option-cases (lookup id s.databases)) [
  | inr (h, found) ↦ rw found i
  | inl missing ↦ elim (Bool-cases (leb config.max_open (open_count s.databases))) [
    | inr room ↦ rw (missing, room) (insert-Inv id s missing i)
    | inl full ↦
        let o = oldest s.databases in
        rw (missing, full)
          (insert-Inv id (record s { databases = evict o s.databases })
            (evict-none id o s.databases missing) (evict-Inv o s refl i))
  ]
]

-- What close_idle leaves of an entry.
abbrev swept : Config → ℕ → Option Handle → Option Handle
swept config now none = none
swept config now (some h) =
    if idle_now config now h then (if unsaved h then some (close h) else none) else some h

lookup-close_idle :
    (config : Config) (now : ℕ) (id : String) (m : Map String Handle)
    → Unique m
    → lookup id (close_idle config now m) ≡ swept config now (lookup id m)
unfolding close_idle lookup
lookup-close_idle config now id [] u = refl
lookup-close_idle config now id ((j, h) ∷ m) u =
    let rest = lookup-close_idle config now id m u.1 in
    elim (Bool-cases (idle_now config now h)) [
      | inr used ↦ ground (arith, rest)
      | inl idle ↦ elim (Bool-cases (unsaved h)) [
        | inl kept ↦ ground (arith, rest)
        | inr covered ↦ elim (Bool-cases (j == id)) [
          | inr miss ↦ rw (idle, covered, miss) rest
          | inl hit ↦
              let same : j ≡ id = (eq_iff j id).0 hit in
              let nothing : lookup id m ≡ none = rw (sym same) u.0 in
              rw (idle, covered, hit) (rest ∙ rw (nothing, idle, covered) refl)
        ]
      ]
    ]

Unique-close_idle :
    (config : Config) (now : ℕ) (m : Map String Handle)
    → Unique m
    → Unique (close_idle config now m)
unfolding close_idle
Unique-close_idle config now [] u = tt
Unique-close_idle config now ((j, h) ∷ m) u =
    let gone : lookup j (close_idle config now m) ≡ none =
      lookup-close_idle config now j m u.1 ∙ ap (swept config now) u.0 in
    ground (arith, gone, Unique-close_idle config now m u.1)

swept-AtOk :
    (config : Config) (now : ℕ) (o : Option Handle) (file : Option ℕ) (saved n : ℕ)
    (fl : Option Snapshot)
    → AtOk o file saved n fl
    → AtOk (swept config now o) file saved n fl
swept-AtOk config now none file saved n fl good = good
swept-AtOk config now (some h) file saved n fl good = elim (Bool-cases (idle_now config now h)) [
  | inr used ↦ rw used good
  | inl idle ↦ elim (Bool-cases (unsaved h)) [
    | inl kept ↦ rw (idle, kept) (change-HandleOk close h file saved n fl close-Keeps good)
    | inr covered ↦
        let free : strong_count h ≡ 1 = ground arith in
        rw (idle, covered) (gone-AtOk h file saved n fl free covered good)
  ]
]

pub close_idle-Inv :
    (config : Config) (s : Service)
    → Inv s
    → Inv (record s { databases = close_idle config s.now s.databases })
close_idle-Inv config s i = record {
  unique = Unique-close_idle config s.now s.databases i.unique;
  at_each = λ j. rw (lookup-close_idle config s.now j s.databases i.unique) (
      swept-AtOk config s.now (lookup j s.databases) (s.files j) (s.archive j) (times j s.pass)
        (flight s.pass s.current j) (i.at_each j));
}
