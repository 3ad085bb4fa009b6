-- ===== src/Durable/Alarms.antt =====
-- src/durable/alarms.rs: the alarms of Durable Objects. The alarm of an object is in its SQLite
-- file; a row of the index in PostgreSQL says when the runner looks at the file. Times are i64
-- milliseconds, far from the bounds of i64.
pub mod Index
pub mod Delivery
pub mod Retries
mod Tests
pub mod History
pub mod Race
pub mod Coverage
use openworkers_runner.Common.{
  Option, if◌then◌else◌, leb, min, nat_eq, none, not, some, string_eq, ℕ, ◌*◌, ◌==◌, ◌^◌,
}
use openworkers_runner.Common.Int.{int_eq, pos, ℤ, ◌+ℤ◌}

abbrev pub max_retries : ℕ
max_retries = 6

-- `now_ms + 1000 * (1 << retry_count.min(MAX_RETRIES))`
unfoldable pub retry_at : ℤ → ℕ → ℤ
retry_at now_ms retry_count = now_ms +ℤ pos (1000 * 2 ^ min retry_count max_retries)

-- What happens to the alarm of an object after a run.
pub data Next : Type 0 where
  clear : Next
  keep : ℤ → ℕ → Next

-- The last two branches of `next`, where the handler set no other alarm.
unfoldable pub after_run : Option ℕ → Option ℤ → ℤ → Next
after_run (some failed) (some current) now_ms =
    if leb failed max_retries then keep (retry_at now_ms failed) failed else clear
after_run _ _ now_ms = clear

-- `next`: the alarm of the run, the alarm of the file after it, and the failed runs.
unfoldable pub next : ℤ → Option ℤ → Option ℕ → ℤ → Next
next at none failed_runs now_ms = after_run failed_runs none now_ms
next at (some current) failed_runs now_ms =
    if not (current == at) then keep current 0 else after_run failed_runs (some current) now_ms
