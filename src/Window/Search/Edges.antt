-- ===== src/Window/Search/Edges.antt =====
-- The bounds of an occurrence are edges of the window.
use node_rotation_controller.Base.{
  ℕ, zero, suc, ◌+◌, ◌-◌, ◌≤◌, Bool, true, false, ◌≡◌, refl, sym, ap, ◌∙◌, subst, inl, inr,
  Bool-cases, Option, none, some, pos, ◌+ℤ◌, +ℤ_parts, ltb_ℤ, leb_ℤ, Time, add_time, arith,
}
use node_rotation_controller.Window.{◌>>=◌, Zones, Schedule, in_window}
use node_rotation_controller.Window.Search.{
  scan_step, halvings, horizon, horizon_steps, same, minus, refine, first_out_after,
  first_in_at_or_before, minute_aligned_zones, occurrence_bounds,
}
use node_rotation_controller.Window.Search.Bisection.{
  plus_plus, plus_suc, minus_plus, before_suc, room, Turns, refine_between,
}

enough_room : scan_step ≤ room halvings
enough_room = omega arith

split_step : (k : ℕ) → suc k ≤ scan_step → scan_step ≡ suc k + (scan_step - suc k)
split_step k h = omega (arith, h)

module _ ⦃zones : Zones⦄ (s : Schedule) where
  -- The window closes at r, after t: it is open a nanosecond before.
  abbrev Closes : Time → Time → Type 0
  Closes t r =
      (k : ℕ) × ((r ≡ t +ℤ pos (suc k))
        × ((in_window s r ≡ false) × (in_window s (minus 1 r) ≡ true)))

  -- The window opens at r, not after t: it is shut a nanosecond before.
  abbrev Opens : Time → Time → Type 0
  Opens t r =
      (k : ℕ) × ((t ≡ r +ℤ pos k) × ((in_window s r ≡ true) × (in_window s (minus 1 r) ≡ false)))

  same-false : (b : Bool) → same b false ≡ true → b ≡ false
  same-false true h = cc
  same-false false h = refl

  not_same-false : (b : Bool) → same b false ≡ false → b ≡ true
  not_same-false true h = refl
  not_same-false false h = cc

  same-true : (b : Bool) → same b true ≡ b
  same-true true = refl
  same-true false = refl

  shut_agrees : (b : Bool) → b ≡ false → same b false ≡ true
  shut_agrees true h = cc
  shut_agrees false h = refl

  open_differs : (b : Bool) → b ≡ true → same b false ≡ false
  open_differs true h = refl
  open_differs false h = cc

  step-Opens :
      (t : Time)
      → in_window s t ≡ true
      → in_window s (minus scan_step t) ≡ false
      → Opens t (refine halvings s (minus scan_step t) t true)
  step-Opens t h e = from_end (minus_plus t scan_step)
    where
      go : (lo r : Time) → lo +ℤ pos scan_step ≡ t → Turns s true lo scan_step r → Opens t r
      go lo r q (k, (p, (le, (w, u)))) = (
        scan_step - suc k,
        (
          sym q
              ∙ ap (λ n. lo +ℤ pos n) (split_step k le)
              ∙ sym (plus_plus lo (suc k) (scan_step - suc k))
              ∙ ap (λ x. x +ℤ pos (scan_step - suc k)) (sym p),
          (
            subst (λ x. in_window s x ≡ true) (sym p) (sym (same-true _) ∙ w),
            subst (λ x. in_window s x ≡ false) (sym (ap (minus 1) p ∙ before_suc lo k))
                (sym (same-true _) ∙ u),
          ),
        ),
      )

      from_end :
          minus scan_step t +ℤ pos scan_step ≡ t
          → Opens t (refine halvings s (minus scan_step t) t true)
      from_end q = go (minus scan_step t) _ q (
          subst
            (λ x.
              Turns s true (minus scan_step t) scan_step
                (refine halvings s (minus scan_step t) x true))
            q
            (refine_between s true halvings (minus scan_step t) scan_step (omega arith) enough_room
              (omega arith) (same-true _ ∙ e)
              (same-true _ ∙ subst (λ x. in_window s x ≡ true) (sym q) h)))

  step-Closes :
      (t : Time)
      → in_window s t ≡ true
      → in_window s (t +ℤ pos scan_step) ≡ false
      → Closes t (refine halvings s t (t +ℤ pos scan_step) false)
  step-Closes t h e = go _ (
      refine_between s false halvings t scan_step (omega arith) enough_room (omega arith)
        (open_differs _ h) (shut_agrees _ e))
    where
      go : (r : Time) → Turns s false t scan_step r → Closes t r
      go r (k, (p, (le, (w, u)))) = (
        k,
        (
          p,
          (
            subst (λ x. in_window s x ≡ false) (sym p) (same-false _ w),
            subst (λ x. in_window s x ≡ true) (sym (ap (minus 1) p ∙ before_suc t k))
                (not_same-false _ u),
          ),
        ),
      )

  later-Closes : (t : Time) (n : ℕ) (r : Time) → Closes (t +ℤ pos n) r → Closes t r
  later-Closes t n r (k, (p, c)) = (n + k, (p ∙ plus_suc t n k, c))

  earlier-Opens : (t : Time) (n : ℕ) (r : Time) → Opens (minus n t) r → Opens t r
  earlier-Opens t n r (k, (p, c)) =
      (k + n, (sym (minus_plus t n) ∙ ap (λ x. x +ℤ pos n) p ∙ plus_plus r k n, c))

  -- What a scan finds, if anything.
  abbrev IfFound : (Time → Type 0) → Option Time → Type 0
  IfFound P none = Unit
  IfFound P (some r) = P r

  found_later :
      (t : Time) (n : ℕ) (o : Option Time) → IfFound (Closes (t +ℤ pos n)) o → IfFound (Closes t) o
  found_later t n none h = tt
  found_later t n (some r) h = later-Closes t n r h

  found_earlier :
      (t : Time) (n : ℕ) (o : Option Time) → IfFound (Opens (minus n t)) o → IfFound (Opens t) o
  found_earlier t n none h = tt
  found_earlier t n (some r) h = earlier-Opens t n r h

  scan-Closes :
      (n : ℕ) (t : Time) → in_window s t ≡ true → IfFound (Closes t) (first_out_after n s t)
  unfolding first_out_after add_time
  scan-Closes zero t h = tt
  scan-Closes (suc n) t h = elim (Bool-cases (in_window s (t +ℤ pos scan_step))) [
    | inl e ↦
        rw (first_out_after, e) (found_later t scan_step _ (scan-Closes n (t +ℤ pos scan_step) e))
    | inr e ↦ rw (first_out_after, e) (step-Closes t h e)
  ]

  scan-Opens :
      (n : ℕ) (t : Time) → in_window s t ≡ true → IfFound (Opens t) (first_in_at_or_before n s t)
  unfolding first_in_at_or_before
  scan-Opens zero t h = tt
  scan-Opens (suc n) t h = elim (Bool-cases (in_window s (minus scan_step t))) [
    | inl e ↦
        rw (first_in_at_or_before, e)
          (found_earlier t scan_step _ (scan-Opens n (minus scan_step t) e))
    | inr e ↦ rw (first_in_at_or_before, e) (step-Opens t h e)
  ]

-- An interval around an instant at whose ends the window opens and closes: it is shut a nanosecond
-- before it begins, open a nanosecond before it ends, and shut at its end.
pub record IsOccurrence ⦃zones : Zones⦄ (s : Schedule) (now : Time) (b : Time × Time) : Type 0 where
  pub has_begun : leb_ℤ b.0 now ≡ true
  pub has_not_ended : ltb_ℤ now b.1 ≡ true
  pub opens : in_window s b.0 ≡ true
  pub shut_before : in_window s (minus 1 b.0) ≡ false
  pub closes : in_window s b.1 ≡ false
  pub open_before : in_window s (minus 1 b.1) ≡ true

at_or_before : (t r : Time) (k : ℕ) → t ≡ r +ℤ pos k → leb_ℤ r t ≡ true
at_or_before t r k e = subst (λ x. leb_ℤ r x ≡ true) (sym e) (leb_plus r k)
  where
    leb_plus : (r : Time) (k : ℕ) → leb_ℤ r (r +ℤ pos k) ≡ true
    leb_plus r k = ground (arith, +ℤ_parts r (pos k))

after : (t r : Time) (k : ℕ) → r ≡ t +ℤ pos (suc k) → ltb_ℤ t r ≡ true
after t r k e = subst (λ x. ltb_ℤ t x ≡ true) (sym e) (ltb_plus t k)
  where
    ltb_plus : (t : Time) (k : ℕ) → ltb_ℤ t (t +ℤ pos (suc k)) ≡ true
    ltb_plus t k = ground (arith, +ℤ_parts t (pos (suc k)))

module _ ⦃zones : Zones⦄ (s : Schedule) (now : Time) where
  edges-IsOccurrence : (a z : Time) → Opens s now a → Closes s now z → IsOccurrence s now (a, z)
  edges-IsOccurrence a z (k, (p, o)) (j, (q, c)) = record {
    has_begun = at_or_before now a k p;
    has_not_ended = after now z j q;
    opens = o.0;
    shut_before = o.1;
    closes = c.0;
    open_before = c.1;
  }

  both_found :
      (z a : Option Time)
      → IfFound s (Closes s now) z
      → IfFound s (Opens s now) a
      → (b : Time × Time) → (z >>= λ close. a >>= λ open_at. some (open_at, close)) ≡ some b
      → IsOccurrence s now b
  both_found none a c o b e = cc
  both_found (some z) none c o b e = cc
  both_found (some z) (some a) c o b e =
      subst (IsOccurrence s now) (some_injective e) (edges-IsOccurrence a z o c)
    where
      some_injective : {x y : Time × Time} → some x ≡ some y → x ≡ y
      some_injective e = cc

-- The bounds of an occurrence, where there are any, are edges of the window, to the nanosecond,
-- whatever the rules of the time zones: the window is open at the first and shut just before it,
-- shut at the second and open just before it, and the instant lies between them.
pub occurrence_bounds-IsOccurrence :
    ⦃zones : Zones⦄
    → (s : Schedule) (now : Time) (b : Time × Time) → occurrence_bounds s now ≡ some b
    → IsOccurrence s now b
unfolding occurrence_bounds
occurrence_bounds-IsOccurrence s now b e = elim (Bool-cases (in_window s now)) [
  | inr f ↦ let g : none ≡ some b = rw f at e in cc
  | inl f ↦
      elim (Bool-cases (
        minute_aligned_zones s (minus (horizon + scan_step) now)
          (add_time now (pos (horizon + scan_step))))) [
            | inr a ↦ let g : none ≡ some b = rw (f, a) at e in cc
            | inl a ↦
                both_found s now _ _ (scan-Closes s horizon_steps now f)
                  (scan-Opens s horizon_steps now f) b (rw (f, a) at e)
          ]
]
