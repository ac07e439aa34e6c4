-- ===== src/Policy/Parts.antt =====
-- The checks of Policy.Validate, one by one: each finds nothing just where its part is in order.
use node_rotation_controller.Base.{
  ℕ, suc, String, Bool, true, false, not, ◌≡◌, ◌↔◌, ◌⊎◌, refl, ap, inl, inr, Option, none, some,
  List, [], ◌∷◌, ◌++◌, ℤ, pos, ◌≤ℤ◌, ◌<ℤ◌, eqb_ℤ→eq, Duration, All, Bool-cases, str_eq, str_eq_iff,
  arith,
}
use node_rotation_controller.Policy.Clock.{parse_weekday, parse_hhmm}
use node_rotation_controller.Policy.{
  MaintenanceWindow, Surge, Policy, Problem, Formats, problem_if, is_not_positive, is_negative,
  is_few, is_not_one, is_empty, day_problem, duration_problems, day_problems, end_problems,
  age_threshold_override, is_bad_override, positive_override, bad_timezone, no_days, not_positive,
  window_problems, windows_problems, has_no_windows, age_threshold_auto,
}
use node_rotation_controller.Policy.Shape.{
  WhereSet, IsPositive, IsSome, NonEmpty, IsSpan, IsGoodWindow,
}

pub nil-append {ℓ} : {A : Type ℓ} (xs ys : List A) → xs ++ ys ≡ [] → (xs ≡ []) × (ys ≡ [])
nil-append [] ys h = (refl, h)
nil-append (x ∷ xs) ys h = cc

pub append-nil {ℓ} : {A : Type ℓ} (xs ys : List A) → xs ≡ [] → ys ≡ [] → xs ++ ys ≡ []
append-nil [] ys h k = k
append-nil (x ∷ xs) ys h k = cc

pub none_if : (b : Bool) (e : Problem) → problem_if b e ≡ [] → b ≡ false
none_if true e h = cc
none_if false e h = refl

pub if_none : (b : Bool) (e : Problem) → b ≡ false → problem_if b e ≡ []
if_none b e h = rw h refl

pub few_iff : (o : Option ℤ) → (is_few o ≡ false) ↔ WhereSet (λ k. pos 1 ≤ℤ k) o
few_iff none = ((λ h. tt), (λ h. refl))
few_iff (some k) = ((λ h. ground arith), (λ h. ground arith))

some_of : (k : ℤ) → ◌≡◌ {A = Option ℤ} (some k) (some (pos 1)) → k ≡ pos 1
some_of k h = cc

pub one_iff : (o : Option ℤ) → (is_not_one o ≡ false) ↔ (o ≡ some (pos 1))
one_iff none = ((λ h. cc), (λ h. cc))
one_iff (some k) =
    ((λ h. ap some (eqb_ℤ→eq k (pos 1) (ground arith))), (λ h. rw (some_of k h) refl))

IsPositive-iff : (o : Option Duration) → (is_not_positive o ≡ false) ↔ IsPositive o
IsPositive-iff none = ((λ h. tt), (λ h. refl))
IsPositive-iff (some d) = ((λ h. ground arith), (λ h. ground arith))

pub cooldown_iff : (o : Option Duration) → (is_negative o ≡ false) ↔ WhereSet (λ d. pos 0 ≤ℤ d) o
cooldown_iff none = ((λ h. tt), (λ h. refl))
cooldown_iff (some d) = ((λ h. ground arith), (λ h. ground arith))

day_iff : (i : ℕ) (o : Option ℕ) → (day_problem i o ≡ []) ↔ IsSome (λ n. Unit {0}) o
day_iff i none = ((λ h. cc), (λ h. elim h [ ]))
day_iff i (some n) = ((λ h. tt), (λ h. refl))

days_iff :
    (i : ℕ) (ds : List String)
    → (day_problems i ds ≡ []) ↔ All (λ d. IsSome (λ n. Unit {0}) (parse_weekday d)) ds
unfolding day_problems
days_iff i [] = ((λ h. tt), (λ h. refl))
days_iff i (d ∷ ds) = (
  (λ h.
      let k = nil-append (day_problem i (parse_weekday d)) (day_problems i ds) h in
      ((day_iff i (parse_weekday d)).0 k.0, (days_iff i ds).0 k.1)),
  (λ h.
      append-nil _ (day_problems i ds) ((day_iff i (parse_weekday d)).1 h.0)
        ((days_iff i ds).1 h.1)),
)

ends_iff : (i : ℕ) (s e : Option ℕ) → (end_problems i s e ≡ []) ↔ IsSpan s e
ends_iff i none none = ((λ h. cc), (λ h. elim h [ ]))
ends_iff i none (some b) = ((λ h. cc), (λ h. elim h [ ]))
ends_iff i (some a) none = ((λ h. cc), (λ h. elim h [ ]))
ends_iff i (some a) (some b) = ((λ h. ground arith), (λ h. ground arith))

empty_iff : (ds : List String) → (is_empty ds ≡ false) ↔ NonEmpty ds
empty_iff [] = ((λ h. cc), (λ h. elim h [ ]))
empty_iff (d ∷ ds) = ((λ h. tt), (λ h. refl))

pub no_windows_iff : (ws : List MaintenanceWindow) → (has_no_windows ws ≡ false) ↔ NonEmpty ws
no_windows_iff [] = ((λ h. cc), (λ h. elim h [ ]))
no_windows_iff (w ∷ ws) = ((λ h. tt), (λ h. refl))

-- A list of problems in front of others.
both_iff {ℓ} : {A : Type ℓ} (xs ys : List A) → (xs ++ ys ≡ []) ↔ ((xs ≡ []) × (ys ≡ []))
both_iff xs ys = (nil-append xs ys, (λ h. append-nil xs ys h.0 h.1))

positive_override_iff :
    (o : Option Duration)
    → (is_bad_override (positive_override o) ≡ false) ↔ IsSome (λ d. pos 0 <ℤ d) o
positive_override_iff none = ((λ h. cc), (λ h. elim h [ ]))
positive_override_iff (some d) = ((λ h. ground arith), (λ h. ground arith))

not_both : (b : Bool) → b ≡ true → b ≡ false → ⊥
not_both true h k = cc
not_both false h k = cc

negated : (b : Bool) → not b ≡ false → b ≡ true
negated true h = refl
negated false h = cc

module _ ⦃formats : Formats⦄ where
  pub override_iff :
      (p : Policy)
      → (is_bad_override (age_threshold_override p) ≡ false) ↔ (
          (p.age_threshold ≡ age_threshold_auto)
          ⊎ IsSome (λ d. pos 0 <ℤ d) (formats.parse_duration p.age_threshold))
  unfolding age_threshold_override
  override_iff p = elim (Bool-cases (str_eq p.age_threshold age_threshold_auto)) [
    | inl e ↦ ((λ h. inl ((str_eq_iff _ _).0 e)), (λ h. rw e refl))
    | inr e ↦ (
      (λ h. inr ((positive_override_iff (formats.parse_duration p.age_threshold)).0 (rw e at h))),
      (λ h. rw e (elim h [
        | inl a ↦
            absurd (not_both (str_eq p.age_threshold age_threshold_auto) ((str_eq_iff _ _).1 a) e)
        | inr a ↦ (positive_override_iff (formats.parse_duration p.age_threshold)).1 a
      ])),
    )
  ]

  window_iff : (i : ℕ) (w : MaintenanceWindow) → (window_problems i w ≡ []) ↔ IsGoodWindow w
  unfolding window_problems
  window_iff i w = (
    (λ h.
        let a =
          nil-append (problem_if (not (formats.has_location w.timezone)) (bad_timezone i)) _ h in
        let b = nil-append (problem_if (is_empty w.days) (no_days i)) _ a.1 in
        let c = nil-append (day_problems i w.days) _ b.1 in
        record {
          known_zone = negated _ (none_if _ (bad_timezone i) a.0);
          has_days = (empty_iff w.days).0 (none_if _ (no_days i) b.0);
          known_days = (days_iff i w.days).0 c.0;
          is_span = (ends_iff i (parse_hhmm w.start) (parse_hhmm w.end_of)).0 c.1;
        }),
    (λ g. append-nil _ _ (if_none _ (bad_timezone i) (rw (g.known_zone) refl)) (
        append-nil _ _ (if_none _ (no_days i) ((empty_iff w.days).1 g.has_days)) (
          append-nil _ _ ((days_iff i w.days).1 g.known_days)
            ((ends_iff i (parse_hhmm w.start) (parse_hhmm w.end_of)).1 g.is_span)))),
  )

  pub windows_iff :
      (i : ℕ) (ws : List MaintenanceWindow) → (windows_problems i ws ≡ []) ↔ All IsGoodWindow ws
  unfolding windows_problems
  windows_iff i [] = ((λ h. tt), (λ h. refl))
  windows_iff i (w ∷ ws) = (
    (λ h.
        let k = nil-append (window_problems i w) (windows_problems (suc i) ws) h in
        ((window_iff i w).0 k.0, (windows_iff (suc i) ws).0 k.1)),
    (λ h.
        append-nil _ (windows_problems (suc i) ws) ((window_iff i w).1 h.0)
          ((windows_iff (suc i) ws).1 h.1)),
  )

  pub durations_iff :
      (s : Surge)
      → (duration_problems s ≡ []) ↔ (
          IsPositive s.ready_timeout
          × IsPositive s.retry_backoff
          × IsPositive s.drain_estimate
          × IsPositive s.provisioning_estimate
          × IsPositive s.failure_pause)
  unfolding duration_problems
  durations_iff s = (
    (λ h.
        let a =
          nil-append
            (problem_if (is_not_positive s.ready_timeout) (not_positive "surge.readyTimeout")) _
            h in
        let b =
          nil-append
            (problem_if (is_not_positive s.retry_backoff) (not_positive "surge.retryBackoff")) _
            a.1 in
        let c =
          nil-append
            (problem_if (is_not_positive s.drain_estimate) (not_positive "surge.drainEstimate")) _
            b.1 in
        let d =
          nil-append
            (problem_if (is_not_positive s.provisioning_estimate)
              (not_positive "surge.provisioningEstimate"))
            _ c.1 in
        (
          (IsPositive-iff s.ready_timeout).0 (none_if _ _ a.0),
          (IsPositive-iff s.retry_backoff).0 (none_if _ _ b.0),
          (IsPositive-iff s.drain_estimate).0 (none_if _ _ c.0),
          (IsPositive-iff s.provisioning_estimate).0 (none_if _ _ d.0),
          (IsPositive-iff s.failure_pause).0 (none_if _ _ d.1),
        )),
    (λ g. append-nil _ _ (if_none _ _ ((IsPositive-iff s.ready_timeout).1 g.0)) (
        append-nil _ _ (if_none _ _ ((IsPositive-iff s.retry_backoff).1 g.1)) (
          append-nil _ _ (if_none _ _ ((IsPositive-iff s.drain_estimate).1 g.2)) (
            append-nil _ _ (if_none _ _ ((IsPositive-iff s.provisioning_estimate).1 g.3))
              (if_none _ _ ((IsPositive-iff s.failure_pause).1 g.4)))))),
  )
