-- ===== src/Window/Search/Bisection.antt =====
-- The bisection finds an instant at which the verdict on the window changes.
use node_rotation_controller.Base.{
  ℕ, zero, suc, ◌+◌, ◌-◌, ◌/◌, ◌≤◌, Bool, true, false, ◌≡◌, sym, ap, ◌∙◌, subst, inl, inr,
  Bool-cases, ℤ, pos, ◌+ℤ◌, ◌-ℤ◌, +ℤ_parts, -ℤ_parts, eq_of_parts, ltb_ℤ, IsInt64,
  saturate64_of_IsInt64, Time, add_time, sub_time, arith,
}
use node_rotation_controller.Window.{Zones, Schedule, in_window}
use node_rotation_controller.Window.Search.{scan_step, same, minus, refine}

plus_zero : (t : ℤ) → t +ℤ pos 0 ≡ t
plus_zero t = eq_of_parts (t +ℤ pos 0) t (omega (arith, +ℤ_parts t (pos 0)))

pub plus_plus : (t : ℤ) (a b : ℕ) → (t +ℤ pos a) +ℤ pos b ≡ t +ℤ pos (a + b)
plus_plus t a b =
    eq_of_parts ((t +ℤ pos a) +ℤ pos b) (t +ℤ pos (a + b))
      (omega (arith, +ℤ_parts t (pos a), +ℤ_parts (t +ℤ pos a) (pos b), +ℤ_parts t (pos (a + b))))

pub plus_suc : (t : ℤ) (a k : ℕ) → (t +ℤ pos a) +ℤ pos (suc k) ≡ t +ℤ pos (suc (a + k))
plus_suc t a k = eq_of_parts ((t +ℤ pos a) +ℤ pos (suc k)) (t +ℤ pos (suc (a + k))) (
    omega (
      arith,
      +ℤ_parts t (pos a),
      +ℤ_parts (t +ℤ pos a) (pos (suc k)),
      +ℤ_parts t (pos (suc (a + k))),
    ))

pub minus_plus : (t : ℤ) (n : ℕ) → minus n t +ℤ pos n ≡ t
minus_plus t n =
    eq_of_parts (minus n t +ℤ pos n) t
      (omega (arith, +ℤ_parts (minus n t) (pos n), -ℤ_parts t (pos n)))

plus_minus : (t : ℤ) (n : ℕ) → (t +ℤ pos n) -ℤ t ≡ pos n
plus_minus t n =
    eq_of_parts ((t +ℤ pos n) -ℤ t) (pos n)
      (omega (arith, +ℤ_parts t (pos n), -ℤ_parts (t +ℤ pos n) t))

pub before_suc : (t : ℤ) (k : ℕ) → minus 1 (t +ℤ pos (suc k)) ≡ t +ℤ pos k
before_suc t k = eq_of_parts (minus 1 (t +ℤ pos (suc k))) (t +ℤ pos k) (
    omega
      (arith, +ℤ_parts t (pos (suc k)), +ℤ_parts t (pos k), -ℤ_parts (t +ℤ pos (suc k)) (pos 1)))

small-IsInt64 : (n : ℕ) → n ≤ scan_step → IsInt64 (pos n)
small-IsInt64 n h = ground arith

sub_time-plus : (t : ℤ) (n : ℕ) → n ≤ scan_step → sub_time (t +ℤ pos n) t ≡ pos n
unfolding sub_time
sub_time-plus t n h = rw (plus_minus t n) (saturate64_of_IsInt64 (pos n) (small-IsInt64 n h))

-- How far apart the ends of a bisection may be.
abbrev pub room : ℕ → ℕ
room zero = 1
room (suc f) = room f + room f

halves : (n : ℕ) → n / 2 + (n - n / 2) ≡ n
halves n = omega arith

last_step : (n : ℕ) → 1 ≤ n → ltb_ℤ (pos 1) (pos n) ≡ false → n ≡ 1
last_step n a b = ground arith

half_positive : (n : ℕ) → ltb_ℤ (pos 1) (pos n) ≡ true → 1 ≤ n / 2
half_positive n e = omega (arith, two n e)
  where
    two : (n : ℕ) → ltb_ℤ (pos 1) (pos n) ≡ true → 2 ≤ n
    two n e = ground arith

half_room : (n r : ℕ) → n ≤ r + r → n / 2 ≤ r
half_room n r h = omega (arith, h)

rest_room : (n r : ℕ) → n ≤ r + r → n - n / 2 ≤ r
rest_room n r h = omega (arith, h)

module _ ⦃zones : Zones⦄ (s : Schedule) (want : Bool) where
  abbrev pub Wanted : Time → Type 0
  Wanted t = same (in_window s t) want ≡ true

  abbrev pub Unwanted : Time → Type 0
  Unwanted t = same (in_window s t) want ≡ false

  -- The verdict becomes the one wanted at r, within n after lo.
  abbrev pub Turns : Time → ℕ → Time → Type 0
  Turns lo n r =
      (k : ℕ) × ((r ≡ lo +ℤ pos (suc k))
        × ((suc k ≤ n) × (Wanted (lo +ℤ pos (suc k)) × Unwanted (lo +ℤ pos k))))

  refine_one :
      (lo : Time) (n : ℕ) → n ≡ 1 → Unwanted lo → Wanted (lo +ℤ pos n) → Turns lo n (lo +ℤ pos n)
  refine_one lo n e u w = (
    0,
    (
      ap (λ m. lo +ℤ pos m) e,
      (
        omega (arith, e),
        (subst (λ m. Wanted (lo +ℤ pos m)) e w, subst Unwanted (sym (plus_zero lo)) u),
      ),
    ),
  )

  later_half : (lo : Time) (a b : ℕ) (r : Time) → Turns (lo +ℤ pos a) b r → Turns lo (a + b) r
  later_half lo a b r (k, (e, (h, (w, u)))) = (
    a + k,
    (
      e ∙ plus_suc lo a k,
      (omega (arith, h), (subst Wanted (plus_suc lo a k) w, subst Unwanted (plus_plus lo a k) u)),
    ),
  )

  earlier_half : (lo : Time) (a n : ℕ) (r : Time) → a ≤ n → Turns lo a r → Turns lo n r
  earlier_half lo a n r le (k, (e, (h, p))) = (k, (e, (omega (arith, h, le), p)))

  -- The bisection between lo and an instant n later.
  pub refine_between :
      (f : ℕ) (lo : Time) (n : ℕ)
      → 1 ≤ n
      → n ≤ room f
      → n ≤ scan_step
      → Unwanted lo
      → Wanted (lo +ℤ pos n)
      → Turns lo n (refine f s lo (lo +ℤ pos n) want)
  unfolding refine add_time
  refine_between zero lo n one small step u w = refine_one lo n (omega (arith, one, small)) u w
  refine_between (suc f) lo n one small step u w =
      rw (refine, sub_time-plus lo n step)
        (elim (Bool-cases (ltb_ℤ (pos 1) (pos n))) [
          | inr e ↦ rw e (refine_one lo n (last_step n one e) u w)
          | inl e ↦ rw e (elim (Bool-cases (same (in_window s (lo +ℤ pos (n / 2))) want)) [
            | inl g ↦ rw g (
                earlier_half lo (n / 2) n _ (omega arith) (
                  refine_between f lo (n / 2) (half_positive n e) (half_room n (room f) small)
                    (omega (arith, step)) u g))
            | inr g ↦ rw g (
                whole f lo n (
                  later_half lo (n / 2) (n - n / 2) _ (
                    refine_between f (lo +ℤ pos (n / 2)) (n - n / 2) (omega (arith, one))
                      (rest_room n (room f) small) (omega (arith, step)) g
                      (subst Wanted (sym (plus_plus lo (n / 2) (n - n / 2)))
                        (subst (λ m. Wanted (lo +ℤ pos m)) (sym (halves n)) w)))))
          ])
        ])
    where
      whole :
          (f : ℕ) (lo : Time) (n : ℕ)
          → Turns lo
              (n / 2 + (n - n / 2))
              (refine f s (lo +ℤ pos (n / 2)) ((lo +ℤ pos (n / 2)) +ℤ pos (n - n / 2)) want)
          → Turns lo n (refine f s (lo +ℤ pos (n / 2)) (lo +ℤ pos n) want)
      whole f lo n h =
          subst (λ m. Turns lo m (refine f s (lo +ℤ pos (n / 2)) (lo +ℤ pos m) want)) (halves n)
            (subst (λ t. Turns lo (n / 2 + (n - n / 2)) (refine f s (lo +ℤ pos (n / 2)) t want))
              (plus_plus lo (n / 2) (n - n / 2)) h)
