-- ===== src/Scheduler/Tests.antt =====
-- src/scheduler.rs on concrete crons.
use openworkers_runner.Common.{
  Bool-cases, List, Option, String, [], arith, false, if◌then◌else◌, inl, inr, map, nat_eq, none,
  option_eq, option_eqb, refl, some, string_eq, ℕ, ◌+◌, ◌==◌, ◌∷◌, ◌≡◌,
}
use openworkers_runner.Common.Maps.{Map, adjust, insert, lookup, remove}
use openworkers_runner.Common.Int.{int_eq, pos, pos_part, ℤ, ◌<ℤ◌}
use openworkers_runner.Scheduler.{
  Claim, Cron, Event, State, claims_row, run, select_due, selects, step,
}
use openworkers_runner.Scheduler.Once.{Rising, run-Rising}

-- One pattern that runs a minute later, and no other.
abbrev each_minute : String → ℤ → Option ℤ
each_minute pattern now =
    if pattern == "* * * * *" then some (pos (pos_part now + 60_000)) else none

each_minute_after : (p : String) (now n : ℤ) → each_minute p now ≡ some n → now <ℤ n
each_minute_after p now n h = elim (Bool-cases (p == "* * * * *")) [
  | inl known ↦ let same : n ≡ pos (pos_part now + 60_000) = ground arith in rw same (omega arith)
  | inr other ↦ absurd (ground arith)
]

abbrev cron_at : String → ℕ → Cron
cron_at pattern at_time = record {
  worker_id = "w";
  value = pattern;
  next_run = some (pos at_time);
  last_run = none;
  deleted = false;
}

abbrev table : Map ℕ Cron
table =
    (1, cron_at "* * * * *" 100) ∷ (2, cron_at "nonsense" 50) ∷ (3, cron_at "* * * * *" 900) ∷ []

abbrev begun : State
begun = record { crons = table; events = []; claims = [] }

-- Two runners that see the same due crons, and the first of them again later.
abbrev two_runners : List Event
two_runners =
    selects 1 (pos 200)
    ∷ selects 2 (pos 300)
    ∷ claims_row 2
    ∷ claims_row 1
    ∷ claims_row 1
    ∷ claims_row 2
    ∷ selects 1 (pos 60_300)
    ∷ claims_row 1
    ∷ claims_row 1
    ∷ []

abbrev due_of : Option Claim → List ℕ
due_of none = []
due_of (some claim) = map (λ d. d.scheduled_time) claim.due

abbrev next_of : Option Cron → Option (Option ℤ)
next_of none = none
next_of (some c) = some c.next_run

abbrev replay : List Event → List (ℕ × ℤ) × List ℕ × Option (Option ℤ)
unfolding run step select_due lookup insert remove adjust option_eqb
replay events =
    let s = run each_minute events begun in
    (s.events, due_of (lookup 1 s.claims), next_of (lookup 2 s.crons))

each_run_once :
    replay two_runners
    ≡ ((1, pos 60_200) ∷ (3, pos 900) ∷ (1, pos 100) ∷ [], 900 ∷ 60_200 ∷ [], some none)
unfolding replay
each_run_once = refl

run-Rising_example : Rising (run each_minute two_runners begun).events
run-Rising_example =
    run-Rising each_minute each_minute_after table two_runners
      (tt, (tt, (tt, (tt, (tt, (tt, (tt, (tt, (tt, tt)))))))))
