-- ===== src/Scheduler.antt =====
-- src/scheduler.rs: the claims of due crons by runners of one database. Instants are milliseconds.
-- The parser of patterns (crate croner) is a parameter.
pub mod Once
mod Tests
use openworkers_runner.Common.{
  Bool, List, Option, String, [], false, if◌then◌else◌, nat_eq, none, not, option_eq, some,
  string_eq, true, ℕ, ◌&&◌, ◌++◌, ◌==◌, ◌∷◌,
}
use openworkers_runner.Common.Lists.{take}
use openworkers_runner.Common.Maps.{Map, adjust, insert, lookup, remove}
use openworkers_runner.Common.Int.{int_eq, leb_ℤ, pos_part, ℤ}

abbrev pub crons_per_tick : ℕ
crons_per_tick = 100

-- A row of the table crons.
pub record Cron : Type 0 where
  pub worker_id : String
  pub value : String
  pub next_run : Option ℤ
  pub last_run : Option ℤ
  pub deleted : Bool

pub record DueCron : Type 0 where
  pub id : ℕ
  pub due_worker_id : String
  pub pattern : String
  pub due_run : ℤ

pub record ScheduledData : Type 0 where
  pub cron_id : ℕ
  pub cron : String
  pub scheduled_time : ℕ
  pub scheduled_worker_id : String

-- One call of `claim_due`: the rows it has left, and what it will answer.
pub record Claim : Type 0 where
  pub now : ℤ
  pub rows : List DueCron
  pub due : List ScheduledData

-- `events` is the table scheduled_events by cron and scheduled time, the newest in front.
pub record State : Type 0 where
  pub crons : Map ℕ Cron
  pub events : List (ℕ × ℤ)
  pub claims : Map ℕ Claim

abbrev pub due_at : ℤ → Option ℤ → Bool → Option ℤ
due_at now none deleted = none
due_at now (some at_time) deleted = if leb_ℤ at_time now && not deleted then some at_time else none

-- ORDER BY next_run.
abbrev pub insert_due : DueCron → List DueCron → List DueCron
insert_due d [] = d ∷ []
insert_due d (e ∷ rows) =
    let rest : List DueCron = insert_due d rows in
    if leb_ℤ d.due_run e.due_run then d ∷ e ∷ rows else e ∷ rest

abbrev pub add_due : ℕ → Cron → Option ℤ → List DueCron → List DueCron
add_due id c none rows = rows
add_due id c (some at_time) rows =
    insert_due
      (record { id = id; due_worker_id = c.worker_id; pattern = c.value; due_run = at_time }) rows

abbrev pub due_crons : ℤ → Map ℕ Cron → List DueCron
due_crons now [] = []
due_crons now ((id, c) ∷ crons) =
    add_due id c (due_at now c.next_run c.deleted) (due_crons now crons)

unfoldable pub select_due : ℤ → Map ℕ Cron → List DueCron
select_due now crons = take crons_per_tick (due_crons now crons)

abbrev pub stop_cron : DueCron → Cron → Cron
stop_cron d c = if c.next_run == some d.due_run then record c { next_run = none } else c

abbrev pub is_claimed : DueCron → Option Cron → Bool
is_claimed d none = false
is_claimed d (some c) = c.next_run == some d.due_run && not c.deleted

abbrev pub moved_cron : ℤ → DueCron → Cron → Cron
moved_cron next d c = record c { next_run = some next; last_run = some d.due_run }

-- The transaction of one row, by the first run after now.
abbrev pub claim_row : Option ℤ → DueCron → State → Bool × State
claim_row none d s = (false, record s { crons = adjust d.id (stop_cron d) s.crons })
claim_row (some next) d s =
    if is_claimed d (lookup d.id s.crons)
    then (
      true,
      record s {
        crons = adjust d.id (moved_cron next d) s.crons;
        events = (d.id, d.due_run) ∷ s.events;
      },
    )
    else (false, s)

abbrev pub scheduled : DueCron → ScheduledData
scheduled d = record {
  cron_id = d.id;
  cron = d.pattern;
  scheduled_time = pos_part d.due_run;
  scheduled_worker_id = d.due_worker_id;
}

-- `fails`: the transaction of the row, and with it the whole call, ends in an error.
pub data Event : Type 0 where
  selects : ℕ → ℤ → Event
  claims_row : ℕ → Event
  fails : ℕ → Event
  writes : ℕ → Cron → Event
  deletes : ℕ → Event

module _ (next_run_of : String → ℤ → Option ℤ) where
  -- The next row of a call.
  abbrev pub claim_rows : ℕ → Claim → List DueCron → State → State
  claim_rows runner claim [] s = s
  claim_rows runner claim (d ∷ rows) s =
      let claimed : Bool × State = claim_row (next_run_of d.pattern claim.now) d s in
      record claimed.1 {
        claims =
            insert runner
              (record claim {
                rows = rows;
                due = if claimed.0 then claim.due ++ (scheduled d ∷ []) else claim.due;
              })
              claimed.1.claims;
      }

  abbrev pub claim_next : ℕ → Option Claim → State → State
  claim_next runner none s = s
  claim_next runner (some claim) s = claim_rows runner claim claim.rows s

  unfoldable pub step : Event → State → State
  unfolding select_due
  step (selects runner now) s = record s {
    claims = insert runner (record { now = now; rows = select_due now s.crons; due = [] }) s.claims;
  }
  step (claims_row runner) s = claim_next runner (lookup runner s.claims) s
  step (fails runner) s = record s { claims = remove runner s.claims }
  step (writes id c) s = record s { crons = insert id c s.crons }
  step (deletes id) s = record s { crons = adjust id (λ c. record c { deleted = true }) s.crons }

  unfoldable pub run : List Event → State → State
  unfolding step
  run [] s = s
  run (event ∷ events) s = run events (step event s)
