-- ===== src/Durable/Alarms/Tests.antt =====
-- Alarms of one object, and what the theorems say of them.
use openworkers_runner.Common.{
  List, [], arith, false, nat_eq, none, refl, some, string_eq, true, ◌∷◌, ◌≡◌,
}
use openworkers_runner.Common.Int.{int_eq, pos, ℤ, ◌+ℤ◌}
use openworkers_runner.Common.Lists.{All}
use openworkers_runner.Durable.Alarms.{next, retry_at}
use openworkers_runner.Durable.Alarms.Index.{claim, lower, settle}
use openworkers_runner.Durable.Alarms.Delivery.{
  Object, SetOutcome, begin, clear_file, conclude, failed, finish, put_row, set,
}
use openworkers_runner.Durable.Alarms.Coverage.{Covered, set-Covered}
use openworkers_runner.Durable.Alarms.History.{
  Happens, begins, claims, exists, finishes, happens, sets, waits,
}
use openworkers_runner.Durable.Alarms.Race.{after_set, claimed, stale_read_loses}

abbrev no_alarm : Object
no_alarm = record { file = none; row = none; now = pos 5000 }

abbrev good : SetOutcome
good = record { lowers = true; stores = true; follows = true }

abbrev unfollowed : SetOutcome
unfollowed = record { lowers = true; stores = true; follows = false }

-- A setAlarm whose last query fails, a claim, a failed run, a wait, and a crash inside a second set.
abbrev story : List Happens
story =
    sets (some (pos 4000)) unfollowed 9
    ∷ claims
    ∷ begins exists true 0 true
    ∷ finishes (pos 4000) 0 failed true true true
    ∷ waits 2000
    ∷ sets (some (pos 9000)) good 1
    ∷ []

story_end : happens story no_alarm ≡ record {
  file = some (pos 4000);
  row = some (record { scheduled_at = pos 7000; retry_count = pos 1; delivering = false });
  now = pos 7000;
}
unfolding happens set lower begin retry_at finish conclude clear_file next settle claim ◌+ℤ◌
story_end = refl

set-Covered_example : All Covered (set (some (pos 9000)) good no_alarm)
set-Covered_example = set-Covered (some (pos 9000)) good no_alarm tt

stale_read_loses_example :
    let lost : Object =
      put_row (settle none (after_set (pos 4000) no_alarm).row) (after_set (pos 4000) no_alarm) in
    ((claimed (pos 4000) no_alarm).row
      ≡ some (record { scheduled_at = pos 4000; retry_count = pos 0; delivering = true }))
    × (lost.file ≡ some (pos 4000))
    × (lost.row ≡ none)
    × ((t : ℤ) → claim t lost.row ≡ none)
unfolding begin
stale_read_loses_example = stale_read_loses (pos 4000) 0 no_alarm none refl refl (omega arith) refl
