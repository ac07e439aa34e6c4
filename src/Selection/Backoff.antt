-- ===== src/Selection/Backoff.antt =====
-- The escalated backoff of a failed claim and its clamp to the window occurrence.
pub mod Clamp
pub mod Bounds
use node_rotation_controller.Base.{
  ℕ, zero, suc, not, ◌||◌, ltb_ℤ, ℤ, pos, pos_part, ◌-ℤ◌, wrap64, Duration, Time, shift_duration,
  add_time, is_zero_time, if◌then◌else◌,
}
use Prim.Native.Nat.{min}

abbrev pub max_backoff_shift : ℕ
max_backoff_shift = 3

-- ladderShift: the retry count is an int, so that the subtraction wraps; below 0 it counts as 0.
unfoldable pub ladder_shift : ℤ → ℕ
unfolding wrap64 ◌-ℤ◌
ladder_shift retry = min (pos_part (wrap64 (retry -ℤ pos 1))) max_backoff_shift

unfoldable pub escalated_backoff : ℤ → Duration → Duration
escalated_backoff retry base = shift_duration base (ladder_shift retry)

-- The walk down the ladder, from the step `k - 1` to the step 0.
unfoldable pub largest_step : ℕ → Duration → Time → Time → Duration → Duration
largest_step zero base failed_at end escalated = escalated
largest_step (suc k) base failed_at end escalated =
    let lower = largest_step k base failed_at end escalated in
    if ltb_ℤ (add_time failed_at (shift_duration base k)) end then shift_duration base k else lower

-- EffectiveBackoff
unfoldable pub effective_backoff : ℤ → Duration → Time → Time → Time → Duration
effective_backoff retry base failed_at start end =
    let escalated = escalated_backoff retry base in
    let walked = largest_step (ladder_shift retry) base failed_at end escalated in
    if is_zero_time start || is_zero_time end
    then escalated
    else if ltb_ℤ failed_at start || not (ltb_ℤ failed_at end)
    then escalated
    else if ltb_ℤ (add_time failed_at escalated) end
    then escalated
    else walked
