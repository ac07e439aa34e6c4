-- ===== src/Base/Decimal.antt =====
-- strconv.Atoi: an optional sign, then decimal digits, in the range of an int64.
use Prim.Native.Nat.{ℕ, zero, suc, ◌+◌, ◌-◌, ◌*◌, ◌/◌, ◌%◌, ◌^◌, ◌<◌}
use Prim.Native.Char.{Char, code}
use mathlib.Core.Path.{◌≡◌, refl, ap, ◌∙◌}
use mathlib.Core.Logic.{inl, inr}
use native.Mathlib.Omega.{arith}
use native.Mathlib.Nat.{pow-suc}
use Prim.Native.String.{String}
use mathlib.Core.Bool.{Bool, false, true, ◌&&◌}
use mathlib.Core.List.{List, [], ◌∷◌}
use mathlib.Core.Option.{Option, none, some}
use node_rotation_controller.Base.Tests.{ltb, leb, ◌==◌, Bool-cases, ltb→lt, if◌then◌else◌}
use node_rotation_controller.Base.Int.{ℤ, pos, negsuc, sub_ℕ, two63}
use node_rotation_controller.Base.Text.{codes}

abbrev pub is_digit : ℕ → Bool
is_digit c = leb b'0' c && leb c b'9'

-- The number that the digits write, after those that gave `acc`.
unfoldable pub digits_value : ℕ → List ℕ → Option ℕ
digits_value acc [] = some acc
digits_value acc (c ∷ cs) =
    let rest = digits_value (acc * 10 + (c - b'0')) cs in if is_digit c then rest else none

-- One digit at least.
unfoldable pub unsigned : List ℕ → Option ℕ
unsigned [] = none
unsigned (c ∷ cs) = digits_value 0 (c ∷ cs)

abbrev positive : Option ℕ → Option ℤ
positive none = none
positive (some n) = if ltb n two63 then some (pos n) else none

abbrev negative : Option ℕ → Option ℤ
negative none = none
negative (some n) = if leb n two63 then some (sub_ℕ 0 n) else none

unfoldable pub atoi_codes : List ℕ → Option ℤ
atoi_codes [] = none
atoi_codes (c ∷ cs) =
    if c == b'-'
    then negative (unsigned cs)
    else if c == b'+'
    then positive (unsigned cs)
    else positive (unsigned (c ∷ cs))

unfoldable pub atoi : String → Option ℤ
atoi s = atoi_codes (codes s)

-- strconv.Itoa: the digits of n in front of `acc`. Twenty are enough for an int64.
abbrev digit : ℕ → Char
digit d =
    if d == 0
    then "0"
    else if d == 1
    then "1"
    else if d == 2
    then "2"
    else if d == 3
    then "3"
    else if d == 4
    then "4"
    else if d == 5
    then "5"
    else if d == 6
    then "6"
    else if d == 7
    then "7"
    else if d == 8
    then "8"
    else "9"

unfoldable pub write_digits : ℕ → ℕ → String → String
write_digits zero n acc = acc
write_digits (suc f) n acc =
    let more = write_digits f (n / 10) (String.◌∷◌ (digit (n % 10)) acc) in
    if ltb n 10 then String.◌∷◌ (digit n) acc else more

unfoldable pub itoa : ℤ → String
itoa (pos n) = write_digits 20 n ""
itoa (negsuc n) = String.◌∷◌ "-" (write_digits 20 (suc n) "")

code_digit : (d : ℕ) → d < 10 → (is_digit (code (digit d)) ≡ true) × (code (digit d) - b'0' ≡ d)
code_digit zero h = (refl, refl)
code_digit (suc zero) h = (refl, refl)
code_digit (suc (suc zero)) h = (refl, refl)
code_digit (suc (suc (suc zero))) h = (refl, refl)
code_digit (suc (suc (suc (suc zero)))) h = (refl, refl)
code_digit (suc (suc (suc (suc (suc zero))))) h = (refl, refl)
code_digit (suc (suc (suc (suc (suc (suc zero)))))) h = (refl, refl)
code_digit (suc (suc (suc (suc (suc (suc (suc zero))))))) h = (refl, refl)
code_digit (suc (suc (suc (suc (suc (suc (suc (suc zero)))))))) h = (refl, refl)
code_digit (suc (suc (suc (suc (suc (suc (suc (suc (suc zero))))))))) h = (refl, refl)
code_digit (suc (suc (suc (suc (suc (suc (suc (suc (suc (suc d)))))))))) h = absurd (omega arith)

digits_value-digit :
    (a d : ℕ) (cs : List ℕ)
    → d < 10
    → digits_value a (code (digit d) ∷ cs) ≡ digits_value (a * 10 + d) cs
unfolding digits_value
digits_value-digit a d cs h = let (p, q) = code_digit d h in rw (p, q)

digits_value-write_digits :
    (f n : ℕ) (acc : String)
    → n < 10 ^ f
    → digits_value 0 (codes (write_digits f n acc)) ≡ digits_value n (codes acc)
unfolding write_digits
digits_value-write_digits zero n acc h = ap (λ (k : ℕ). digits_value k (codes acc)) (omega arith)
digits_value-write_digits (suc f) n acc h = elim (Bool-cases (ltb n 10)) [
  | inl lt ↦ rw lt (
      digits_value-digit 0 n (codes acc) (ltb→lt n 10 lt)
      ∙ ap (λ (k : ℕ). digits_value k (codes acc)) (omega arith))
  | inr ge ↦ rw ge (
      digits_value-write_digits f (n / 10) (String.◌∷◌ (digit (n % 10)) acc) (tenth f n h)
      ∙ digits_value-digit (n / 10) (n % 10) (codes acc) (omega arith)
      ∙ ap (λ (k : ℕ). digits_value k (codes acc)) (omega arith))
]
  where
    tenth : (f n : ℕ) → n < 10 ^ suc f → n / 10 < 10 ^ f
    tenth f n h = let l : n < 10 ^ f * 10 = rw pow-suc at h in omega arith

digits_value-nil : (n : ℕ) → digits_value n [] ≡ some n
unfolding digits_value
digits_value-nil n = refl

abbrev digit_first : List ℕ → Bool
digit_first [] = false
digit_first (c ∷ cs) = is_digit c

digit_first-digit :
    (d : ℕ) (acc : String) → d < 10 → digit_first (codes (String.◌∷◌ (digit d) acc)) ≡ true
digit_first-digit d acc h = (code_digit d h).0

digit_first-write_digits :
    (f n : ℕ) (acc : String)
    → digit_first (codes acc) ≡ true
    → digit_first (codes (write_digits f n acc)) ≡ true
unfolding write_digits
digit_first-write_digits zero n acc h = h
digit_first-write_digits (suc f) n acc h = elim (Bool-cases (ltb n 10)) [
  | inl lt ↦ rw lt (digit_first-digit n acc (ltb→lt n 10 lt))
  | inr ge ↦ rw ge (
      digit_first-write_digits f (n / 10) (String.◌∷◌ (digit (n % 10)) acc)
        (digit_first-digit (n % 10) acc (omega arith)))
]

written : (n : ℕ) → digit_first (codes (write_digits 20 n "")) ≡ true
unfolding write_digits
written n = elim (Bool-cases (ltb n 10)) [
  | inl lt ↦ rw lt (digit_first-digit n "" (ltb→lt n 10 lt))
  | inr ge ↦
      rw ge (digit_first-write_digits 19 (n / 10) _ (digit_first-digit (n % 10) "" (omega arith)))
]

atoi_codes-digits :
    (cs : List ℕ) (n : ℕ)
    → digit_first cs ≡ true
    → digits_value 0 cs ≡ some n
    → n < two63
    → atoi_codes cs ≡ some (pos n)
unfolding atoi_codes unsigned
atoi_codes-digits [] n h v l = cc
atoi_codes-digits (c ∷ cs) n h v l = ground arith

-- The count that Itoa writes is the one that Atoi reads.
pub atoi-itoa : (n : ℕ) → n < two63 → atoi (itoa (pos n)) ≡ some (pos n)
unfolding atoi itoa
atoi-itoa n h =
    atoi_codes-digits (codes (write_digits 20 n "")) n (written n)
      (digits_value-write_digits 20 n "" (omega arith) ∙ digits_value-nil n) h
