-- ===== src/Policy/Clock/Times.antt =====
-- ParseHHMM reads the times of a day, and nothing beyond them.
use node_rotation_controller.Base.{
  ℕ, ◌+◌, ◌*◌, ◌<◌, ◌≤◌, String, ◌&&◌, ◌≡◌, refl, inl, inr, ap, ◌∙◌, Option, none, some, List, [],
  ◌∷◌, ℤ, pos, ◌==◌, codes, atoi_codes, unsigned, digits_value, length, Bool-cases, arith,
}
use node_rotation_controller.Policy.Clock.{split, in_range, minutes_of, two_parts, parse_hhmm}

in_range_bound : (top : ℕ) (o : Option ℤ) (n : ℕ) → in_range top o ≡ some n → n ≤ top
in_range_bound top none n h = cc
in_range_bound top (some z) n h = ground arith

minutes_of_bound :
    (a b : Option ℕ) (n : ℕ)
    → ((h : ℕ) → a ≡ some h → h ≤ 23)
    → ((m : ℕ) → b ≡ some m → m ≤ 59)
    → minutes_of a b ≡ some n
    → n < 1440
minutes_of_bound none b n f g e = cc
minutes_of_bound (some h) none n f g e = cc
minutes_of_bound (some h) (some m) n f g e = ground (arith, f h refl, g m refl)

two_parts_bound : (ps : List (List ℕ)) (n : ℕ) → two_parts ps ≡ some n → n < 1440
two_parts_bound [] n e = cc
two_parts_bound (h ∷ []) n e = cc
two_parts_bound (h ∷ m ∷ p ∷ ps) n e = cc
two_parts_bound (h ∷ m ∷ []) n e = elim (Bool-cases ((length h == 2) && (length m == 2))) [
  | inl t ↦
      minutes_of_bound (in_range 23 (atoi_codes h)) (in_range 59 (atoi_codes m)) n
        (λ a k. in_range_bound 23 (atoi_codes h) a k) (λ a k. in_range_bound 59 (atoi_codes m) a k)
        (rw t at e)
  | inr t ↦ let f : none ≡ some n = rw t at e in cc
]

-- What is read is a minute of the day.
pub parse_hhmm_bound : (s : String) (n : ℕ) → parse_hhmm s ≡ some n → n < 1440
unfolding parse_hhmm
parse_hhmm_bound s n e = two_parts_bound (split b':' (codes s)) n e

two_digits :
    (a b : ℕ)
    → a < 10
    → b < 10
    → atoi_codes ((b'0' + a) ∷ (b'0' + b) ∷ []) ≡ some (pos (a * 10 + b))
unfolding atoi_codes unsigned digits_value
two_digits a b h k = ground arith

split_once :
    (a b c d : ℕ)
    → a < 10
    → b < 10
    → c < 10
    → d < 10
    → split b':' ((b'0' + a) ∷ (b'0' + b) ∷ b':' ∷ (b'0' + c) ∷ (b'0' + d) ∷ [])
      ≡ ((b'0' + a) ∷ (b'0' + b) ∷ []) ∷ ((b'0' + c) ∷ (b'0' + d) ∷ []) ∷ []
split_once a b c d ha hb hc hd = ground arith

read_range : (top n : ℕ) → n ≤ top → in_range top (some (pos n)) ≡ some n
read_range top n h = ground arith

-- The four digits of a time of day, with a colon between them, are read as its minute.
pub parse_hhmm_digits :
    (s : String) (a b c d : ℕ)
    → codes s ≡ (b'0' + a) ∷ (b'0' + b) ∷ b':' ∷ (b'0' + c) ∷ (b'0' + d) ∷ []
    → b < 10
    → d < 10
    → a * 10 + b < 24
    → c * 10 + d < 60
    → parse_hhmm s ≡ some ((a * 10 + b) * 60 + (c * 10 + d))
unfolding parse_hhmm
parse_hhmm_digits s a b c d e hb hd h m =
    ap (λ cs. two_parts (split b':' cs)) e
    ∙ (ap two_parts (split_once a b c d (omega arith) hb (omega arith) hd)
        ∙ rw
            (
              two_digits a b (omega arith) hb,
              two_digits c d (omega arith) hd,
              read_range 23 (a * 10 + b) (omega arith),
              read_range 59 (c * 10 + d) (omega arith),
            )
            refl)
