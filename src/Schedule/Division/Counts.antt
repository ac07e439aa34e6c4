-- ===== src/Schedule/Division/Counts.antt =====
-- ceilDiv counts the multiples below its numerator, and floorDiv rounds down.
use Prim.Native.Nat.{ℕ, zero, suc, ◌+◌, ◌*◌, ◌/◌, ◌%◌, ◌≤◌, ◌<◌}
use native.Mathlib.Nat.{le-div_iff_mul-le, mod-add-div'}
use node_rotation_controller.Base.{
  true, false, ◌≡◌, ◌≢◌, ◌⊎◌, ◌∙◌, ◌↔◌, refl, sym, subst, inl, inr, Bool-cases, pos, ◌<ℤ◌, ◌+ℤ◌,
  eqb_ℤ, wrap64, eq_of_parts, +ℤ_parts, two63, wrap64_of_IsInt64, arith, ltb, ltb→lt,
}
use node_rotation_controller.Schedule.Division.{ceil_div}

-- How the multiples of b below a go on, by the rest that a leaves.
below_quotient : (a b k : ℕ) → 0 < b → k < a / b → k * b < a
below_quotient a b k h l = omega (arith, (le-div_iff_mul-le {k = b} {x = suc k} {y = a} h).0 l)

within_quotient : (a b k : ℕ) → 0 < b → k * b < a → k ≤ a / b
within_quotient a b k h l = (le-div_iff_mul-le {k = b} {x = k} {y = a} h).1 (omega arith)

at_quotient : (a b k : ℕ) → k ≡ a / b → k * b + a % b ≡ a
at_quotient a b k e = subst (λ x. x * b + a % b ≡ a) (sym e) (omega (arith, mod-add-div' a b))

divides : (r : ℕ) → r ≡ 0 → eqb_ℤ (pos r) (pos 0) ≡ true
divides r e = ground arith

leaves : (r : ℕ) → r ≢ 0 → eqb_ℤ (pos r) (pos 0) ≡ false
leaves r e = ground arith

ceil_of_exact : (a b : ℕ) → a % b ≡ 0 → ceil_div (pos a) (pos b) ≡ pos (a / b)
unfolding ceil_div
ceil_of_exact a b e = rw (divides (a % b) e) refl

quotient_small : (a b k r : ℕ) → k * suc b + r ≡ a → r ≢ 0 → k < a
quotient_small a b k zero e h = elim (h refl) [ ]
quotient_small a b k (suc r) e h = omega (arith, e)

next_count : (k : ℕ) → suc k < two63 → wrap64 (pos k +ℤ pos 1) ≡ pos (suc k)
unfolding ◌+ℤ◌
next_count k h =
    wrap64_of_IsInt64 _ (ground arith) ∙ eq_of_parts _ _ (omega (arith, +ℤ_parts (pos k) (pos 1)))

next_small : (a b : ℕ) → 0 < b → a < two63 → a % b ≢ 0 → suc (a / b) < two63
next_small a zero hb h e = elim hb [ ]
next_small a (suc b) hb h e =
    omega
      (arith, quotient_small a b (a / suc b) (a % suc b) (at_quotient a (suc b) (a / suc b) refl) e)

next_quotient :
    (a b : ℕ) → 0 < b → a < two63 → a % b ≢ 0 → wrap64 (pos (a / b) +ℤ pos 1) ≡ pos (suc (a / b))
next_quotient a b hb h e = next_count (a / b) (next_small a b hb h e)

ceil_of_rest :
    (a b : ℕ) → 0 < b → a < two63 → a % b ≢ 0 → ceil_div (pos a) (pos b) ≡ pos (suc (a / b))
unfolding ceil_div
ceil_of_rest a b hb h e = rw (leaves (a % b) e) (next_quotient a b hb h e)

zero-cases : (n : ℕ) → (n ≡ 0) ⊎ (n ≢ 0)
zero-cases zero = inl refl
zero-cases (suc n) = inr (λ e. omega (arith, e))

positive : (n : ℕ) → n ≢ 0 → 0 < n
positive zero h = elim (h refl) [ ]
positive (suc n) h = omega arith

up_to_quotient : (a b k : ℕ) → 0 < b → k ≤ a / b → a % b ≢ 0 → k * b < a
up_to_quotient a b k hb h e = elim (Bool-cases (ltb k (a / b))) [
  | inl l ↦ below_quotient a b k hb (ltb→lt k (a / b) l)
  | inr l ↦ omega (arith, at_quotient a b k (ground arith), positive (a % b) e)
]

below_exact : (a b k : ℕ) → 0 < b → k * b < a → a % b ≡ 0 → k < a / b
below_exact a b k hb l e = elim (Bool-cases (ltb k (a / b))) [
  | inl h ↦ ltb→lt k (a / b) h
  | inr h ↦ omega (arith, at_quotient a b k (here (within_quotient a b k hb l) h), e, l)
]
  where
    here : k ≤ a / b → ltb k (a / b) ≡ false → k ≡ a / b
    here m h = ground arith

-- The multiples k * b below a are those of the first ceil_div a b numbers k.
pub ceil_div-counts :
    (a b k : ℕ) → 0 < b → a < two63 → (k * b < a) ↔ (pos k <ℤ ceil_div (pos a) (pos b))
ceil_div-counts a b k hb ha = elim (zero-cases (a % b)) [
  | inl e ↦ rw (ceil_of_exact a b e) (
    (λ l. omega (arith, below_exact a b k hb l e)),
    (λ l. below_quotient a b k hb (omega (arith, l))),
  )
  | inr e ↦ rw (ceil_of_rest a b hb ha e) (
    (λ l. omega (arith, within_quotient a b k hb l)),
    (λ l. up_to_quotient a b k hb (omega (arith, l)) e),
  )
]
