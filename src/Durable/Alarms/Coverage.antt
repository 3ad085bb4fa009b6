-- ===== src/Durable/Alarms/Coverage.antt =====
-- src/durable/alarms.rs: the row of the index against the alarm of the file.
use mathlib.Core.Option
use openworkers_runner.Common.{
  Bool, Bool-cases, Option, arith, false, if◌then◌else◌, inl, inr, leb, nat_eq, none, refl, some,
  string_eq, ℕ, ◌==◌, ◌≡◌, ◌⊎◌,
}
use openworkers_runner.Common.Int.{+ℤ_parts, eqb_ℤ_iff, int_eq, pos, ℤ, ◌+ℤ◌, ◌≤ℤ◌}
use openworkers_runner.Common.Lists.{All}
use openworkers_runner.Durable.Alarms.{Next, after_run, clear, keep, max_retries, next, retry_at}
use openworkers_runner.Durable.Alarms.Index.{
  Row, UnderWay, claim, ended, follow, kept, lower, restart, settle,
}
use openworkers_runner.Durable.Alarms.Delivery.{
  Object, Outcome, SetOutcome, clear_file, conclude, failed_runs, finish, lowered, refused, set,
  set_file,
}
use openworkers_runner.Durable.Alarms.Retries.{retry_at_bounds}

-- A row at the alarm or before it, or at most 64 seconds from now.
abbrev pub RowCovers : ℤ → ℤ → Option Row → Type 0
RowCovers now at none = ⊥
RowCovers now at (some row) = (row.scheduled_at ≤ℤ at) ⊎ (row.scheduled_at ≤ℤ now +ℤ pos 64000)

-- The alarm of the file, if there is one, has such a row.
abbrev pub Covers : ℤ → Option ℤ → Option Row → Type 0
Covers now none row = Unit
Covers now (some at) row = RowCovers now at row

abbrev pub Covered : Object → Type 0
Covered o = Covers o.now o.file o.row

pub lower-Covers :
    (now at : ℤ) (file : Option ℤ) (row : Option Row)
    → Covers now file row
    → Covers now file (lower at row)
unfolding lower
lower-Covers now at none row c = tt
lower-Covers now at (some a) none c = absurd c
lower-Covers now at (some a) (some row) c = ground arith

lower_new : (now at : ℤ) (row : Option Row) → Covers now (some at) (lower at row)
unfolding lower
lower_new now at none = inl (omega arith)
lower_new now at (some row) = ground arith

pub follow_file :
    (now : ℤ) (file : Option ℤ) (under_way : UnderWay) (row : Option Row)
    → Covers now file (follow (Option.map (λ a. (a, 0)) file) under_way row)
unfolding follow
follow_file now none under_way row = tt
follow_file now (some at) under_way none = inl (omega arith)
follow_file now (some at) under_way (some row) = inl (omega arith)

follow_later :
    (now : ℤ) (file : Option ℤ) (retries runs_failed : ℕ) (under_way : UnderWay) (row : Option Row)
    → Covers now file (follow (some (retry_at now retries, runs_failed)) under_way row)
unfolding follow
follow_later now none retries runs_failed under_way row = tt
follow_later now (some at) retries runs_failed under_way none =
    inr ((retry_at_bounds now retries).1)
follow_later now (some at) retries runs_failed under_way (some row) =
    inr ((retry_at_bounds now retries).1)

pub claim-Covers :
    (now t : ℤ) (file : Option ℤ) (row : Option Row)
    → Covers now file row
    → Covers now file (claim t row)
unfolding claim
claim-Covers now t none row c = tt
claim-Covers now t (some at) none c = c
claim-Covers now t (some at) (some row) c = ground arith

pub restart-Covers :
    (now : ℤ) (file : Option ℤ) (row : Option Row)
    → Covers now file row
    → Covers now file (restart row)
unfolding restart
restart-Covers now none row c = tt
restart-Covers now (some at) none c = c
restart-Covers now (some at) (some row) c = c

-- Time goes on.
pub later-Covers :
    (now now' : ℤ) (file : Option ℤ) (row : Option Row)
    → now ≤ℤ now'
    → Covers now file row
    → Covers now' file row
later-Covers now now' none row h c = tt
later-Covers now now' (some at) none h c = c
later-Covers now now' (some at) (some row) h (inl p) = inl p
later-Covers now now' (some at) (some row) h (inr p) = inr (omega (arith, +ℤ_parts))

set_file-Covered :
    (at : Option ℤ) (outcome : SetOutcome) (o : Object)
    → Covers o.now at o.row
    → All Covered (set_file at outcome o)
unfolding set_file
set_file-Covered at outcome o c = ground (arith, follow_file o.now at kept o.row)

-- Every state that a crash or a failure can leave in the middle of `set` is covered, and so is
-- the state after it.
pub set-Covered :
    (at : Option ℤ) (outcome : SetOutcome) (o : Object) → Covered o → All Covered (set at outcome o)
unfolding set
set-Covered none outcome o c = (c, set_file-Covered none outcome o tt)
set-Covered (some at) outcome o c = ground (
  arith,
  lower-Covers o.now at o.file o.row c,
  set_file-Covered (some at) outcome (lowered at o) (lower_new o.now at o.row),
)

-- What `next` decides: to clear, to keep another alarm that the file has, or to try again.
next-cases :
    (run : ℤ) (current : Option ℤ) (failures : Option ℕ) (now : ℤ)
    → (next run current failures now ≡ clear)
      ⊎ ((a : ℤ) × (current ≡ some a)
          × ((a == run) ≡ false)
          × (next run current failures now ≡ keep a 0))
      ⊎ ((r : ℕ) × (next run current failures now ≡ keep (retry_at now r) r))
unfolding next after_run
next-cases run none failures now = inl (ground arith)
next-cases run (some a) none now = elim (Bool-cases (a == run)) [
  | inl same ↦ inl (ground arith)
  | inr other ↦ inr (inl (a, refl, other, ground arith))
]
next-cases run (some a) (some r) now = elim (Bool-cases (a == run)) [
  | inl same ↦ elim (Bool-cases (leb r max_retries)) [
    | inl again ↦ inr (inr (r, ground arith))
    | inr over ↦ inl (ground arith)
  ]
  | inr other ↦ inr (inl (a, refl, other, ground arith))
]

-- The alarm that the row then follows is that of the file, or the time of a later try.
abbrev pub Follows : Option ℤ → ℤ → Option (ℤ × ℕ) → Type 0
Follows file now alarm =
    (alarm ≡ Option.map (λ a. (a, 0)) file)
    ⊎ ((r : ℕ) × (k : ℕ) × (alarm ≡ some (retry_at now r, k)))

pub settle-Covers :
    (now : ℤ) (file : Option ℤ) (alarm : Option (ℤ × ℕ)) (row : Option Row)
    → Follows file now alarm
    → Covers now file (settle alarm row)
unfolding settle
settle-Covers now file alarm row (inl e) = rw e (follow_file now file ended row)
settle-Covers now file alarm row (inr (r, k, e)) = rw e (follow_later now file r k ended row)

module _ (run : ℤ) (retry_count : ℕ) (clears : Bool) (o : Object) where
  conclude_clear-Follows :
      Follows
        (conclude clear run retry_count clears o).0.file
        o.now
        (conclude clear run retry_count clears o).1
  unfolding conclude
  conclude_clear-Follows = elim (Bool-cases clears) [
    | inl yes' ↦ rw yes' (inl refl)
    | inr no' ↦ rw no' (inr (retry_count, retry_count, refl))
  ]

  -- `conclude` writes the file only to delete its alarm.
  conclude_keeps :
      (n : Next)
      → let o' : Object = (conclude n run retry_count clears o).0 in
        (o'.now ≡ o.now) × (o'.row ≡ o.row) × ((o'.file ≡ o.file) ⊎ (o'.file ≡ none))
  unfolding conclude clear_file
  conclude_keeps (keep a k) = (refl, refl, inl refl)
  conclude_keeps clear = ground arith

  conclude-Follows :
      (reads : Bool) (failures : Option ℕ)
      → let n : Next = next run (if reads then o.file else some run) failures o.now in
        Follows
          (conclude n run retry_count clears o).0.file
          o.now
          (conclude n run retry_count clears o).1
  unfolding conclude
  conclude-Follows reads failures =
      elim (next-cases run (if reads then o.file else some run) failures o.now) [
        | inl e ↦ rw e conclude_clear-Follows
        | inr (inl (a, from, other, e)) ↦ rw e (inl (ground (arith, eqb_ℤ_iff a run)))
        | inr (inr (r, e)) ↦ rw e (inr (r, r, refl))
      ]

Covered-smaller :
    (o o' : Object)
    → o'.now ≡ o.now
    → o'.row ≡ o.row
    → (o'.file ≡ o.file) ⊎ (o'.file ≡ none)
    → Covered o
    → Covered o'
Covered-smaller o o' n r (inl f) c = rw (n, r, f) c
Covered-smaller o o' n r (inr f) c = rw (n, r, f) tt

-- The end of a delivery, whatever the handler, the file and PostgreSQL answer.
pub finish-Covered :
    (run : ℤ) (retry_count : ℕ) (outcome : Outcome) (reads clears settled : Bool) (o : Object)
    → Covered o
    → Covered (finish run retry_count outcome reads clears settled o)
unfolding finish
finish-Covered run retry_count refused reads clears settled o c = elim (Bool-cases settled) [
  | inl s ↦ rw s (settle-Covers o.now o.file _ o.row (inr (0, retry_count, refl)))
  | inr s ↦ rw s c
]
finish-Covered run retry_count outcome reads clears settled o c =
    let n : Next =
      next run (if reads then o.file else some run) (failed_runs outcome retry_count) o.now in
    let (now, row, file) = conclude_keeps run retry_count clears o n in
    let o' : Object = (conclude n run retry_count clears o).0 in
    let f = conclude-Follows run retry_count clears o reads (failed_runs outcome retry_count) in
    elim (Bool-cases settled) [
      | inl s ↦ rw s (rw now (settle-Covers o.now o'.file _ o'.row f))
      | inr s ↦ rw s (Covered-smaller o o' now row file c)
    ]
