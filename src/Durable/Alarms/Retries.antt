-- ===== src/Durable/Alarms/Retries.antt =====
-- src/durable/alarms.rs, `retry_at` and `next`: when a failed alarm runs again, and how often.
use openworkers_runner.Common.{arith, min, nat_eq, some, string_eq, suc, zero, ℕ, ◌+◌, ◌^◌, ◌≤◌}
use openworkers_runner.Common.Int.{+ℤ_parts, int_eq, pos, ℤ, ◌+ℤ◌, ◌≤ℤ◌}
use openworkers_runner.Durable.Alarms.{clear, keep, max_retries, next, retry_at}

power_bounds : (m : ℕ) → m ≤ 6 → (1 ≤ 2 ^ m) × (2 ^ m ≤ 64)
power_bounds zero h = omega arith
power_bounds (suc zero) h = omega arith
power_bounds (suc (suc zero)) h = omega arith
power_bounds (suc (suc (suc zero))) h = omega arith
power_bounds (suc (suc (suc (suc zero)))) h = omega arith
power_bounds (suc (suc (suc (suc (suc zero))))) h = omega arith
power_bounds (suc (suc (suc (suc (suc (suc zero)))))) h = omega arith
power_bounds (suc (suc (suc (suc (suc (suc (suc m))))))) h = absurd (omega arith)

pub retry_at_bounds :
    (now_ms : ℤ) (retry_count : ℕ)
    → (now_ms +ℤ pos 1000 ≤ℤ retry_at now_ms retry_count)
      × (retry_at now_ms retry_count ≤ℤ now_ms +ℤ pos 64000)
unfolding retry_at
retry_at_bounds now_ms retry_count =
    let b = power_bounds (min retry_count max_retries) (omega arith) in omega (arith, b, +ℤ_parts)

-- The runs of an alarm whose handler fails each time, at the times of `clock`, from a count of
-- failed runs; `next` decides whether there is another one.
unfoldable pub failing_runs : ℤ → (ℕ → ℤ) → ℕ → ℕ → ℕ
failing_runs at clock zero failed = 0
failing_runs at clock (suc fuel) failed =
    elim (next at (some at) (some (failed + 1)) (clock failed)) [
      | clear ↦ 1
      | keep _ failed' ↦ suc (failing_runs at clock fuel failed')
    ]
