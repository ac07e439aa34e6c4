-- ===== src/Selection/Backoff/Clamp.antt =====
-- EffectiveBackoff against its description: the largest ladder step that lands before the close.
use node_rotation_controller.Base.{
  ℕ, zero, suc, ◌<◌, ◌≡◌, ◌⊎◌, inl, inr, true, false, arith, ltb_ℤ, ℤ, ◌≤ℤ◌, ◌<ℤ◌, refl, Duration,
  Time, shift_duration, add_time, is_zero_time, Bool-cases, ltb→lt, if◌then◌else◌,
}
use node_rotation_controller.Selection.Backoff.{
  ladder_shift, escalated_backoff, largest_step, effective_backoff,
}

-- `r` is the step `j` of the ladder, it lands before `end`, and no step above it, below `k`, does.
pub record LandsAt (j k : ℕ) (base : Duration) (failed_at end : Time) (r : Duration) : Type 0 where
  pub below_top : j < k
  pub is_step : r ≡ shift_duration base j
  pub lands : add_time failed_at r <ℤ end
  pub above : (m : ℕ) → j < m → m < k → end ≤ℤ add_time failed_at (shift_duration base m)

-- No step below `k` lands before `end`.
abbrev pub NoneLands : ℕ → Duration → Time → Time → Type 0
NoneLands k base failed_at end = (m : ℕ) → m < k → end ≤ℤ add_time failed_at (shift_duration base m)

below : (m k : ℕ) → m < suc k → (m ≡ k) ⊎ (m < k)
below m k l = grind arith

module _ (base : Duration) (failed_at end escalated : Duration) where
  missed :
      (k : ℕ)
      → ltb_ℤ (add_time failed_at (shift_duration base k)) end ≡ false
      → end ≤ℤ add_time failed_at (shift_duration base k)
  missed k h = ground arith

  none_above :
      (k : ℕ)
      → ltb_ℤ (add_time failed_at (shift_duration base k)) end ≡ false
      → NoneLands k base failed_at end
      → NoneLands (suc k) base failed_at end
  none_above k miss h m l = elim (below m k l) [ inl e ↦ rw e (missed k miss) | inr l' ↦ h m l' ]

  extend_above :
      (j k : ℕ) (r : Duration)
      → ltb_ℤ (add_time failed_at (shift_duration base k)) end ≡ false
      → LandsAt j k base failed_at end r
      → LandsAt j (suc k) base failed_at end r
  extend_above j k r miss h = record {
    below_top = omega (arith, h.below_top);
    is_step = h.is_step;
    lands = h.lands;
    above = go;
  }
    where
      go : (m : ℕ) → j < m → m < suc k → end ≤ℤ add_time failed_at (shift_duration base m)
      go m l u = elim (below m k u) [ inl e ↦ rw e (missed k miss) | inr u' ↦ h.above m l u' ]

  top_lands :
      (k : ℕ)
      → ltb_ℤ (add_time failed_at (shift_duration base k)) end ≡ true
      → LandsAt k (suc k) base failed_at end (shift_duration base k)
  top_lands k lands = record {
    below_top = omega arith;
    is_step = refl;
    lands = ltb→lt _ _ lands;
    above = λ m h l. absurd (omega arith);
  }

  abbrev Walked : ℕ → Duration → Type 0
  Walked k r =
      ((j : ℕ) × LandsAt j k base failed_at end r)
      ⊎ ((r ≡ escalated) × NoneLands k base failed_at end)

  step_down :
      (k : ℕ) (rest : Duration)
      → Walked k rest
      → Walked (suc k) (
          if ltb_ℤ (add_time failed_at (shift_duration base k)) end
          then shift_duration base k
          else rest)
  step_down k rest w = elim (Bool-cases (ltb_ℤ (add_time failed_at (shift_duration base k)) end)) [
    | inl lands ↦ rw lands (inl (k, top_lands k lands))
    | inr miss ↦ rw miss (elim w [
      | inl (j, h) ↦ inl (j, extend_above j k rest miss h)
      | inr (e, h) ↦ inr (e, none_above k miss h)
    ])
  ]

  largest_step_lem : (k : ℕ) → Walked k (largest_step k base failed_at end escalated)
  unfolding largest_step
  largest_step_lem zero = inr (refl, λ m l. elim l [ ])
  largest_step_lem (suc k) =
      step_down k (largest_step k base failed_at end escalated) (largest_step_lem k)

inside :
    (retry : ℤ) (base : Duration) (failed_at start end : Time)
    → is_zero_time start ≡ false
    → is_zero_time end ≡ false
    → start ≤ℤ failed_at
    → failed_at <ℤ end
    → effective_backoff retry base failed_at start end ≡ (
        let escalated = shift_duration base (ladder_shift retry) in
        if ltb_ℤ (add_time failed_at escalated) end
        then escalated
        else largest_step (ladder_shift retry) base failed_at end (escalated_backoff retry base))
unfolding effective_backoff escalated_backoff
inside retry base failed_at start end zs ze after before = ground arith

-- The ladder step that a claim which failed inside the occurrence waits for: the largest one that
-- lands before the close, and the escalated backoff where none does.
pub effective_backoff_largest :
    (retry : ℤ) (base : Duration) (failed_at start end : Time)
    → is_zero_time start ≡ false
    → is_zero_time end ≡ false
    → start ≤ℤ failed_at
    → failed_at <ℤ end
    → let r = effective_backoff retry base failed_at start end in
      ((j : ℕ) × LandsAt j (suc (ladder_shift retry)) base failed_at end r)
      ⊎ ((r ≡ escalated_backoff retry base)
          × NoneLands (suc (ladder_shift retry)) base failed_at end)
effective_backoff_largest retry base failed_at start end zs ze after before =
    rw (inside retry base failed_at start end zs ze after before) (
      step_down base failed_at end (escalated_backoff retry base) (ladder_shift retry) _
        (largest_step_lem base failed_at end (escalated_backoff retry base) (ladder_shift retry)))
