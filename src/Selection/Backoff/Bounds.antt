-- ===== src/Selection/Backoff/Bounds.antt =====
-- Bounds on the backoff of a failed claim.
use native.Mathlib.Nat.{le_refl, mul-le-mul_right, pow-le-pow_right}
use node_rotation_controller.Base.{
  ℕ, zero, suc, ◌*◌, ◌^◌, ◌≤◌, ◌<◌, ◌≡◌, inl, inr, Bool, true, false, arith, ltb_ℤ, ℤ, pos, ◌≤ℤ◌,
  refl, wrap64, scale, Duration, Time, shift_duration, add_time, is_zero_time, Bool-cases, ◌||◌,
  not, two63, ap, ◌∙◌, if◌then◌else◌,
}
use node_rotation_controller.Selection.Backoff.{
  ladder_shift, escalated_backoff, largest_step, effective_backoff,
}

-- The steps of the ladder do not overflow.
pub shift-pos : (b k : ℕ) → 8 * b < two63 → k ≤ 3 → shift_duration (pos b) k ≡ pos (2 ^ k * b)
unfolding shift_duration scale wrap64
shift-pos b zero h l = ground arith
shift-pos b (suc zero) h l = ground arith
shift-pos b (suc (suc zero)) h l = ground arith
shift-pos b (suc (suc (suc zero))) h l = ground arith
shift-pos b (suc (suc (suc (suc k)))) h l = absurd (omega arith)

pub ladder_shift-le : (retry : ℤ) → ladder_shift retry ≤ 3
unfolding ladder_shift
ladder_shift-le retry = omega arith

pub step_mono :
    (b j k : ℕ)
    → 8 * b < two63
    → j ≤ k
    → k ≤ 3
    → shift_duration (pos b) j ≤ℤ shift_duration (pos b) k
step_mono b j k h jk k3 =
    rw (shift-pos b j h (omega arith), shift-pos b k h k3)
      (omega (arith, mul-le-mul_right b (pow-le-pow_right {n = 2} (omega arith) jk)))

-- Whatever branch is taken, the backoff is a step of the ladder that the retry count has climbed.
abbrev IsStep : ℕ → Duration → Duration → Type 0
IsStep k base r = (j : ℕ) × (j ≤ k) × (r ≡ shift_duration base j)

IsStep-if :
    (k : ℕ) (base : Duration) (t : Bool) {r r' : Duration}
    → IsStep k base r
    → IsStep k base r'
    → IsStep k base (if t then r else r')
IsStep-if k base true h h' = h
IsStep-if k base false h h' = h'

IsStep-largest_step :
    (n k : ℕ) (base : Duration) (failed_at end : Time)
    → n ≤ k
    → IsStep k base (largest_step n base failed_at end (shift_duration base k))
unfolding largest_step
IsStep-largest_step zero k base failed_at end h = (k, omega arith, refl)
IsStep-largest_step (suc n) k base failed_at end h =
    elim (Bool-cases (ltb_ℤ (add_time failed_at (shift_duration base n)) end)) [
      | inl lands ↦ rw lands (n, omega arith, refl)
      | inr miss ↦ rw miss (IsStep-largest_step n k base failed_at end (omega arith))
    ]

IsStep-effective_backoff :
    (retry : ℤ) (base : Duration) (failed_at start end : Time)
    → IsStep (ladder_shift retry) base (effective_backoff retry base failed_at start end)
unfolding effective_backoff escalated_backoff
IsStep-effective_backoff retry base failed_at start end =
    IsStep-if k base (is_zero_time start || is_zero_time end) top (
      IsStep-if k base (ltb_ℤ failed_at start || not (ltb_ℤ failed_at end)) top (
        IsStep-if k base (ltb_ℤ (add_time failed_at (escalated_backoff retry base)) end) top
          (IsStep-largest_step k k base failed_at end (le_refl k))))
  where
    k : ℕ
    k = ladder_shift retry

    top : IsStep k base (shift_duration base k)
    top = (k, le_refl k, refl)

-- For a positive base whose eightfold fits an int64, the backoff applied lies between the base and
-- the escalated backoff, and that is at most eight times the base.
pub effective_backoff_bounds :
    (retry : ℤ) (b : ℕ) (failed_at start end : Time)
    → 8 * b < two63
    → (pos b ≤ℤ effective_backoff retry (pos b) failed_at start end)
      × (effective_backoff retry (pos b) failed_at start end ≤ℤ escalated_backoff retry (pos b))
      × (escalated_backoff retry (pos b) ≤ℤ pos (8 * b))
unfolding escalated_backoff
effective_backoff_bounds retry b failed_at start end h =
    let (j, le, e) = IsStep-effective_backoff retry (pos b) failed_at start end in
    let k = ladder_shift retry in
    let k3 : k ≤ 3 = ladder_shift-le retry in
    (
      rw e (rw scale_one at (step_mono b zero j h (omega arith) (omega arith))),
      rw e (step_mono b j k h le k3),
      rw scale_eight at (step_mono b k 3 h k3 (omega arith)),
    )
  where
    scale_one : shift_duration (pos b) zero ≡ pos b
    scale_one = shift-pos b zero h (omega arith) ∙ ap pos (omega arith)

    scale_eight : shift_duration (pos b) 3 ≡ pos (8 * b)
    scale_eight = shift-pos b 3 h (omega arith)
