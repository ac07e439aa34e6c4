-- ===== src/Base/Go.antt =====
-- Go's time.Duration and time.Time, as far as the program uses them.
use Prim.Native.Nat.{ℕ, ◌*◌, ◌^◌}
use mathlib.Core.Bool.{Bool}
use node_rotation_controller.Base.Int.{ℤ, pos, ◌+ℤ◌, ◌-ℤ◌, scale, eqb_ℤ, wrap64, saturate64}

-- Nanoseconds, an int64.
abbrev pub Duration : Type 0
Duration = ℤ

-- Nanoseconds since January 1 of year 1, UTC: the zero time is 0. The program's instants are far
-- from the ends of what time.Time can hold, so this number is not bounded.
abbrev pub Time : Type 0
Time = ℤ

abbrev pub nanos_per_second : ℕ
nanos_per_second = 1_000_000_000

abbrev pub nanos_per_minute : ℕ
nanos_per_minute = 60_000_000_000

-- n * time.Minute
abbrev pub minutes : ℕ → Duration
minutes n = pos (n * nanos_per_minute)

-- d + e and d - e on durations.
unfoldable pub add_duration : Duration → Duration → Duration
add_duration d e = wrap64 (d +ℤ e)

unfoldable pub sub_duration : Duration → Duration → Duration
sub_duration d e = wrap64 (d -ℤ e)

-- n * d and d << k.
unfoldable pub mul_duration : ℕ → Duration → Duration
mul_duration n d = wrap64 (scale n d)

unfoldable pub shift_duration : Duration → ℕ → Duration
shift_duration d k = wrap64 (scale (2 ^ k) d)

-- t.Add(d), t.Sub(u) and t.IsZero().
unfoldable pub add_time : Time → Duration → Time
add_time t d = t +ℤ d

unfoldable pub sub_time : Time → Time → Duration
sub_time t u = saturate64 (t -ℤ u)

unfoldable pub is_zero_time : Time → Bool
is_zero_time t = eqb_ℤ t (pos 0)
