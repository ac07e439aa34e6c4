-- ===== src/Schedule/Float.antt =====
-- float64 of a natural number, rounded to 53 bits, ties to even. The numbers of the arrival check
-- are integers below 2 ^ 126, as are their products, so that no other part of float64 is met.
use node_rotation_controller.Base.{
  ℕ, zero, suc, ◌*◌, ◌/◌, ◌%◌, ◌^◌, ◌&&◌, ◌||◌, ltb, ◌==◌, if◌then◌else◌,
}

-- How often n is halved before it is below 2 ^ 53, at most `fuel` times.
abbrev spare_bits : ℕ → ℕ → ℕ
spare_bits zero n = 0
spare_bits (suc fuel) n =
    let more = spare_bits fuel (n / 2) in if ltb n 9_007_199_254_740_992 then 0 else suc more

-- n in units of u, where u is a power of two.
abbrev round_to : ℕ → ℕ → ℕ
round_to zero n = n
round_to (suc k) n =
    let u = 2 ^ suc k in
    let q = n / u in
    let r = n % u in if ltb u (2 * r) || ((2 * r == u) && (q % 2 == 1)) then suc q * u else q * u

unfoldable pub float : ℕ → ℕ
float n = round_to (spare_bits 128 n) n

-- float64(a) * float64(b)
unfoldable pub float_product : ℕ → ℕ → ℕ
float_product a b = float (float a * float b)
