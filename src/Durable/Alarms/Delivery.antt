-- ===== src/Durable/Alarms/Delivery.antt =====
-- src/durable/alarms.rs, `set` and `deliver`: the state of one object, and its writes in order.
-- What PostgreSQL, the file and the handler answer enters as an argument.
use mathlib.Core.Option
use openworkers_runner.Common.{
  Bool, List, Option, [], false, if◌then◌else◌, nat_eq, none, some, string_eq, true, ℕ, ◌+◌, ◌==◌,
  ◌∷◌,
}
use openworkers_runner.Common.Int.{int_eq, leb_ℤ, ℤ}
use openworkers_runner.Durable.Alarms.{Next, after_run, clear, keep, next, retry_at}
use openworkers_runner.Durable.Alarms.Index.{Row, follow, kept, lower, settle}

-- The alarm of the file, the row of the index, and the clock.
pub record Object : Type 0 where
  pub file : Option ℤ
  pub row : Option Row
  pub now : ℤ

abbrev pub put_row : Option Row → Object → Object
put_row row o = record o { row = row }

-- Whether each step of `set` succeeds: the query of `lower`, the file, the query of `follow`.
pub record SetOutcome : Type 0 where
  pub lowers : Bool
  pub stores : Bool
  pub follows : Bool

-- `set` from the file on: the states after each write.
unfoldable pub set_file : Option ℤ → SetOutcome → Object → List Object
unfolding follow
set_file at outcome o =
    let stored : Object = record o { file = at } in
    if outcome.stores
    then stored
      ∷ (if outcome.follows
          then put_row (follow (Option.map (λ a. (a, 0)) at) kept stored.row) stored ∷ []
          else [])
    else []

abbrev pub lowered : ℤ → Object → Object
lowered at o = put_row (lower at o.row) o

-- `set`: the states that a crash can leave, the last one that of the whole call.
unfoldable pub set : Option ℤ → SetOutcome → Object → List Object
unfolding lower set_file
set none outcome o = o ∷ set_file none outcome o
set (some at) outcome o =
    if outcome.lowers then o ∷ lowered at o ∷ set_file (some at) outcome (lowered at o) else o ∷ []

-- What `deliver` decides before the handler runs.
pub data Begin : Type 0 where
  settles : Option (ℤ × ℕ) → Begin
  runs : ℤ → Begin

-- The namespace as its query answers, and whether the d1 service is there.
pub data Lookup : Type 0 where
  unavailable deleted found : Lookup

-- `deliver` up to the handler, with the alarm that the file gave, if it could be read.
unfoldable pub begin : Lookup → Option (Option ℤ) → ℕ → ℤ → Begin
unfolding retry_at
begin unavailable read retry_count now_ms = settles (some (retry_at now_ms 0, retry_count))
begin deleted read retry_count now_ms = settles none
begin found none retry_count now_ms = settles (some (retry_at now_ms 0, retry_count))
begin found (some none) retry_count now_ms = settles none
begin found (some (some at)) retry_count now_ms =
    if leb_ℤ at now_ms then runs at else settles (some (at, retry_count))

-- How the handler ended. A refusal did not run it.
pub data Outcome : Type 0 where
  done failed refused : Outcome

-- `clear_alarm`: DELETE where the alarm is `at`, and the alarm after that.
unfoldable pub clear_file : ℤ → Option ℤ → Option ℤ
clear_file at none = none
clear_file at (some current) = if current == at then none else some current

-- The alarm that the row follows after `next`, where `clears` tells whether the file is written.
unfoldable pub conclude : Next → ℤ → ℕ → Bool → Object → Object × Option (ℤ × ℕ)
unfolding retry_at clear_file
conclude (keep at retry_count) run retried clears o = (o, some (at, retry_count))
conclude clear run retried true o =
    let file : Option ℤ = clear_file run o.file in
    (record o { file = file }, Option.map (λ a. (a, 0)) file)
conclude clear run retried false o = (o, some (retry_at o.now retried, retried))

abbrev pub failed_runs : Outcome → ℕ → Option ℕ
failed_runs failed retry_count = some (retry_count + 1)
failed_runs _ retry_count = none

-- `deliver` after the handler: `reads` tells whether the file is read again, `settled` whether
-- the row is written.
unfoldable pub finish : ℤ → ℕ → Outcome → Bool → Bool → Bool → Object → Object
unfolding next after_run conclude settle
finish run retry_count refused reads clears settled o =
    if settled then put_row (settle (some (retry_at o.now 0, retry_count)) o.row) o else o
finish run retry_count outcome reads clears settled o =
    let current : Option ℤ = if reads then o.file else some run in
    let (o', alarm) =
      conclude (next run current (failed_runs outcome retry_count) o.now) run retry_count clears
        o in
    if settled then put_row (settle alarm o'.row) o' else o'
