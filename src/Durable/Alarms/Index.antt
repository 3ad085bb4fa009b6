-- ===== src/Durable/Alarms/Index.antt =====
-- src/durable/alarms.rs: the rows of `durable_object_alarms`, and the statements that write them.
use openworkers_runner.Common.{
  Bool, Option, false, if◌then◌else◌, nat_eq, none, not, some, string_eq, true, ℕ, ◌&&◌,
}
use openworkers_runner.Common.Int.{int_eq, leb_ℤ, min_ℤ, pos, ℤ}

-- The columns of a row but its key.
pub record Row : Type 0 where
  pub scheduled_at : ℤ
  pub retry_count : ℤ
  pub delivering : Bool

-- `lower`: INSERT, or on a conflict the LEAST of the two times. The columns that the statement
-- does not name take their defaults.
unfoldable pub lower : ℤ → Option Row → Option Row
lower at none = some (record { scheduled_at = at; retry_count = pos 0; delivering = false })
lower at (some row) = some (record row { scheduled_at = min_ℤ row.scheduled_at at })

pub data UnderWay : Type 0 where
  kept ended : UnderWay

abbrev pub still_delivering : UnderWay → Bool → Bool
still_delivering kept delivering = delivering
still_delivering ended delivering = false

-- `follow`: the row goes to the alarm with its count of failed runs, or is deleted.
unfoldable pub follow : Option (ℤ × ℕ) → UnderWay → Option Row → Option Row
follow none under_way row = none
follow (some (at, retry_count)) under_way none =
    some (record { scheduled_at = at; retry_count = pos retry_count; delivering = false })
follow (some (at, retry_count)) under_way (some row) = some (record {
  scheduled_at = at;
  retry_count = pos retry_count;
  delivering = still_delivering under_way row.delivering;
})

-- `settle`: the end of a delivery.
unfoldable pub settle : Option (ℤ × ℕ) → Option Row → Option Row
unfolding follow
settle alarm row = follow alarm ended row

-- `claim`, for the rows that its ORDER BY and LIMIT let through.
unfoldable pub claim : ℤ → Option Row → Option Row
claim now none = none
claim now (some row) =
    if not row.delivering && leb_ℤ row.scheduled_at now
    then some (record row { delivering = true })
    else some row

-- `run` starts: a runner that stopped during a run left its rows marked.
unfoldable pub restart : Option Row → Option Row
restart none = none
restart (some row) = some (record row { delivering = false })
