-- ===== src/Schedule/Derive/Sound.antt =====
-- Derive: a schedule without a fatal finding is one that can be kept.
use node_rotation_controller.Base.{
  Bool, true, false, ◌||◌, ◌≡◌, refl, sym, ap, ◌∙◌, subst, inl, inr, Option-cases, Option, none,
  some, List, [], ◌∷◌, ◌++◌, any, ℤ, pos, ◌≤ℤ◌, ◌<ℤ◌, leb_ℤ, arith, if◌then◌else◌, Duration,
}
use node_rotation_controller.Schedule.{fatal, Finding, finding, Inputs}
use node_rotation_controller.Schedule.Derive.{
  Result, chances_findings, override_findings, auto_findings, threshold_findings, advisory_findings,
  layer1, layer2, forecast, threshold, throughput, derive, no_windows, is_fatal, has_fatal,
  with_layers,
}

any-append {ℓ} :
    {A : Type ℓ} (p : A → Bool) (xs ys : List A) → any p (xs ++ ys) ≡ (any p xs || any p ys)
any-append p [] ys = refl
any-append p (x ∷ xs) ys = rw (any-append p xs ys) (or_assoc (p x) (any p xs) (any p ys))
  where
    or_assoc : (a b c : Bool) → (a || (b || c)) ≡ ((a || b) || c)
    or_assoc true b c = refl
    or_assoc false b c = refl

clean_left : (xs ys : List Finding) → any is_fatal (xs ++ ys) ≡ false → any is_fatal xs ≡ false
clean_left xs ys h = go (any is_fatal xs) (any is_fatal ys) (sym (any-append is_fatal xs ys) ∙ h)
  where
    go : (a b : Bool) → (a || b) ≡ false → a ≡ false
    go false b h = refl
    go true b h = h

clean_right : (xs ys : List Finding) → any is_fatal (xs ++ ys) ≡ false → any is_fatal ys ≡ false
clean_right xs ys h = go (any is_fatal xs) (any is_fatal ys) (sym (any-append is_fatal xs ys) ∙ h)
  where
    go : (a b : Bool) → (a || b) ≡ false → b ≡ false
    go false b h = h
    go true b h = cc

chances_sound : (k : ℤ) → any is_fatal (chances_findings k) ≡ false → pos 1 ≤ℤ k
chances_sound k h = ground arith

override_sound :
    (i : Inputs) (r : Result)
    → any is_fatal (override_findings i r) ≡ false
    → (pos 0 <ℤ r.age_threshold) × (pos 1 ≤ℤ r.guaranteed)
override_sound i r h = ground arith

auto_sound :
    (i : Inputs) (r : Result) → any is_fatal (auto_findings i r) ≡ false → pos 0 <ℤ r.age_threshold
auto_sound i r h = ground arith

-- What is asked of a schedule.
pub record IsKept (i : Inputs) (r : Result) : Type 0 where
  pub has_windows : pos 0 <ℤ i.period
  pub has_chances : pos 1 ≤ℤ i.chances
  pub has_age : pos 0 <ℤ r.age_threshold
  pub has_guarantee : pos 1 ≤ℤ r.guaranteed

throughput_keeps :
    (i : Inputs) (r : Result)
    → ((throughput i r).age_threshold ≡ r.age_threshold)
      × ((throughput i r).guaranteed ≡ r.guaranteed)
unfolding throughput
throughput_keeps i r = ground arith

auto_guarantee :
    (i : Inputs) (r : Result) → i.override ≡ none → (threshold i r).guaranteed ≡ i.chances
unfolding threshold
auto_guarantee i r e = rw e refl

threshold_sound :
    (i : Inputs) (r : Result)
    → (i.override ≡ none → r.guaranteed ≡ i.chances)
    → pos 1 ≤ℤ i.chances
    → any is_fatal (threshold_findings i r) ≡ false
    → (pos 0 <ℤ r.age_threshold) × (pos 1 ≤ℤ r.guaranteed)
threshold_sound i r g k h = elim (Option-cases i.override) [
  | inl e ↦ (
    auto_sound i r (ap (λ o. any is_fatal (pick o)) (sym e) ∙ h),
    subst (λ z. pos 1 ≤ℤ z) (sym (g e)) k,
  )
  | inr (a, e) ↦ override_sound i r (ap (λ o. any is_fatal (pick o)) (sym e) ∙ h)
]
  where
    pick : Option Duration → List Finding
    pick o = elim o [ some a ↦ override_findings i r | none ↦ auto_findings i r ]

layers_sound :
    (i : Inputs) (r : Result)
    → (i.override ≡ none → r.guaranteed ≡ i.chances)
    → pos 0 <ℤ i.period
    → any is_fatal (with_layers i r).findings ≡ false
    → IsKept i (with_layers i r)
unfolding layer1
layers_sound i r g p h =
    let l1 =
      clean_left (layer1 i r) (layer2 i r) (clean_right r.findings (layer1 i r ++ layer2 i r) h) in
    let k = chances_sound i.chances (clean_left (chances_findings i.chances) _ l1) in
    let t =
      clean_left (threshold_findings i r) (advisory_findings i)
        (clean_right (chances_findings i.chances) _ l1) in
    let s = threshold_sound i r g k t in
    record { has_windows = p; has_chances = k; has_age = s.0; has_guarantee = s.1 }

any_last :
    (fs : List Finding)
    → any is_fatal (fs ++ (finding fatal "NoWindows" ∷ [])) ≡ false
    → true ≡ false
any_last fs h = clean_right fs (finding fatal "NoWindows" ∷ []) h

-- A derivation without a fatal finding is one that can be kept: the windows recur, at least one
-- chance is asked for, the age threshold is positive, and a chance is guaranteed, with or without
-- an override.
pub derive-IsKept : (i : Inputs) → has_fatal (derive i).findings ≡ false → IsKept i (derive i)
unfolding derive has_fatal
derive-IsKept i h = go (leb_ℤ i.period (pos 0)) refl h
  where
    go :
        (b : Bool)
        → leb_ℤ i.period (pos 0) ≡ b
        → any is_fatal (
            (if b
              then no_windows (forecast i)
              else with_layers i (throughput i (threshold i (forecast i)))).findings)
          ≡ false
        → IsKept i (
            if b
            then no_windows (forecast i)
            else with_layers i (throughput i (threshold i (forecast i))))
    go true e k = let f = any_last (forecast i).findings k in cc
    go false e k =
        layers_sound i (throughput i (threshold i (forecast i)))
          (λ o. (throughput_keeps i (threshold i (forecast i))).1 ∙ auto_guarantee i (forecast i) o)
          (ground arith) k
