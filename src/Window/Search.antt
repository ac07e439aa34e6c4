-- ===== src/Window/Search.antt =====
-- OccurrenceBounds: the edges of the window around an instant, by a scan and a bisection.
pub mod Bisection
pub mod Edges
use node_rotation_controller.Base.{
  ℕ, zero, suc, ◌+◌, ◌*◌, ◌/◌, ◌%◌, Bool, true, false, not, ◌&&◌, ◌||◌, ◌==◌, Option, none, some,
  List, [], ◌∷◌, ℤ, pos, negsuc, ◌-ℤ◌, Time, Duration, add_time, sub_time, ltb_ℤ, nanos_per_second,
  nanos_per_minute, if◌then◌else◌,
}
use node_rotation_controller.Window.{◌>>=◌, Zones, Entry, Schedule, in_window}

abbrev pub scan_step : ℕ
scan_step = nanos_per_minute

-- The steps of a scan over a week.
abbrev pub horizon_steps : ℕ
horizon_steps = 10_080

abbrev pub horizon : ℕ
horizon = horizon_steps * scan_step

-- The halvings that take a step of a minute down to a nanosecond.
abbrev pub halvings : ℕ
halvings = 36

abbrev pub divides : ℕ → ℤ → Bool
divides n (pos k) = k % n == 0
divides n (negsuc k) = suc k % n == 0

abbrev pub half : Duration → Duration
half (pos n) = pos (n / 2)
half (negsuc n) = pos 0 -ℤ pos (suc n / 2)

abbrev pub same : Bool → Bool → Bool
same true b = b
same false b = not b

abbrev pub minus : ℕ → Time → Time
minus n t = t -ℤ pos n

module _ ⦃zones : Zones⦄ where
  abbrev whole_offset : Entry → Time → Bool
  whole_offset e t = divides 60 (zones.offset e.location t)

  abbrev aligned_from : Entry → List Time → Bool
  aligned_from e [] = true
  aligned_from e (t ∷ ts) = divides nanos_per_minute t && (whole_offset e t && aligned_from e ts)

  -- minuteAlignedZones
  unfoldable pub minute_aligned_zones : Schedule → Time → Time → Bool
  minute_aligned_zones [] from to = true
  minute_aligned_zones (e ∷ es) from to =
      whole_offset e from
      && aligned_from e (zones.zone_ends e.location from to)
      && minute_aligned_zones es from to

  -- refine: the instant in (lo, hi] from which on the verdict is the one wanted.
  unfoldable pub refine : ℕ → Schedule → Time → Time → Bool → Time
  refine zero s lo hi want = hi
  refine (suc n) s lo hi want =
      let mid = add_time lo (half (sub_time hi lo)) in
      let got = same (in_window s mid) want in
      let rest = refine n s (if got then lo else mid) (if got then mid else hi) want in
      if ltb_ℤ (pos 1) (sub_time hi lo) then rest else hi

  -- firstOutAfter, with the steps that are left.
  unfoldable pub first_out_after : ℕ → Schedule → Time → Option Time
  first_out_after zero s t = none
  first_out_after (suc n) s t =
      let out = add_time t (pos scan_step) in
      elim (in_window s out) [
        | false ↦ some (refine halvings s t out false)
        | true ↦ first_out_after n s out
      ]

  -- firstInAtOrBefore, with the steps that are left.
  unfoldable pub first_in_at_or_before : ℕ → Schedule → Time → Option Time
  first_in_at_or_before zero s t = none
  first_in_at_or_before (suc n) s t =
      let out = minus scan_step t in
      elim (in_window s out) [
        | false ↦ some (refine halvings s out t true)
        | true ↦ first_in_at_or_before n s out
      ]

  abbrev pub bounds : Schedule → Time → Option (Time × Time)
  bounds s now = do
    close ← first_out_after horizon_steps s now
    open_at ← first_in_at_or_before horizon_steps s now
    some (open_at, close)

  -- OccurrenceBounds
  unfoldable pub occurrence_bounds : Schedule → Time → Option (Time × Time)
  occurrence_bounds s now =
      if not (in_window s now)
      then none
      else if not (
          minute_aligned_zones s (minus (horizon + scan_step) now)
            (add_time now (pos (horizon + scan_step))))
      then none
      else bounds s now
