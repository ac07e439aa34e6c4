-- ===== src/Schedule/Division.antt =====
-- internal/schedule/schedule.go, floorDiv and ceilDiv, and what they round to.
pub mod Counts
use node_rotation_controller.Base.{
  ℕ, zero, suc, ◌+◌, ◌*◌, ◌/◌, ◌%◌, ◌≤◌, ◌<◌, Bool, true, false, not, ◌&&◌, ◌≡◌, ◌↔◌, refl, inl,
  inr, Bool-cases, ℤ, pos, negsuc, pos_part, neg_part, sub_ℕ, ◌≤ℤ◌, ◌<ℤ◌, ◌+ℤ◌, ◌-ℤ◌, ltb_ℤ, eqb_ℤ,
  scale, wrap64, Duration, arith, if◌then◌else◌,
}

abbrev magnitude : ℤ → ℕ
magnitude (pos n) = n
magnitude (negsuc n) = suc n

-- z < 0
abbrev is_negative : ℤ → Bool
is_negative (pos n) = false
is_negative (negsuc n) = true

abbrev signed : Bool → ℕ → ℤ
signed true n = sub_ℕ 0 n
signed false n = pos n

abbrev same : Bool → Bool → Bool
same true b = b
same false b = not b

-- Go's a / b and a % b: the quotient is rounded towards zero, and the remainder has the sign of a.
unfoldable pub quot : ℤ → ℤ → ℤ
quot a b = signed (not (same (is_negative a) (is_negative b))) (magnitude a / magnitude b)

unfoldable pub rem : ℤ → ℤ → ℤ
rem a b = signed (is_negative a) (magnitude a % magnitude b)

unfoldable pub floor_div : Duration → Duration → Duration
unfolding quot rem
floor_div a b =
    let q = quot a b in
    if not (eqb_ℤ (rem a b) (pos 0)) && not (same (is_negative a) (is_negative b))
    then wrap64 (q -ℤ pos 1)
    else q

unfoldable pub ceil_div : Duration → Duration → Duration
unfolding quot rem
ceil_div a b = let q = quot a b in if not (eqb_ℤ (rem a b) (pos 0)) then wrap64 (q +ℤ pos 1) else q
