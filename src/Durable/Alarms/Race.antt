-- ===== src/Durable/Alarms/Race.antt =====
-- src/durable/alarms.rs: a setAlarm between the first read of a delivery and its settle.
use openworkers_runner.Common.{Option, arith, nat_eq, none, refl, some, string_eq, true, ℕ, ◌≡◌}
use openworkers_runner.Common.Int.{int_eq, pos, ℤ, ◌≤ℤ◌}
use openworkers_runner.Durable.Alarms.Index.{claim, follow, kept, lower, settle}
use openworkers_runner.Durable.Alarms.Delivery.{Object, begin, found, lowered, put_row, settles}

-- The row of `set at` is lowered and claimed, and the delivery reads the file before `set` writes
-- it: the delivery holds no lock yet. `set` ends, and the delivery settles with what it read.
abbrev pub claimed : ℤ → Object → Object
claimed at o = let low : Object = lowered at o in put_row (claim low.now low.row) low

abbrev pub after_set : ℤ → Object → Object
after_set at o =
    let stored : Object = record (claimed at o) { file = some at } in
    put_row (follow (some (at, 0)) kept stored.row) stored

-- For every alarm that is due when it is set on an object with no alarm and no row: `claim` takes
-- the row that `set` lowered first, the delivery that read the file before `set` wrote it settles
-- on a deleted row, and the alarm that `set` stored is left with no row, so no later claim finds it.
pub stale_read_loses :
    (at : ℤ) (retry_count : ℕ) (o : Object) (alarm : Option (ℤ × ℕ))
    → o.file ≡ none
    → o.row ≡ none
    → at ≤ℤ o.now
    → begin found (some (claimed at o).file) retry_count o.now ≡ settles alarm
    → let lost : Object = put_row (settle alarm (after_set at o).row) (after_set at o) in
      ((claimed at o).row
        ≡ some (record { scheduled_at = at; retry_count = pos 0; delivering = true }))
      × (lost.file ≡ some at)
      × (lost.row ≡ none)
      × ((t : ℤ) → claim t lost.row ≡ none)
unfolding begin settle follow claim lower
stale_read_loses at retry_count o alarm empty fresh due e =
    let gone : alarm ≡ none = ground arith in (ground arith, refl, rw gone refl, λ t. rw gone refl)
