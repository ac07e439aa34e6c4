-- ===== src/Policy/Shape.antt =====
-- Which policies are well-formed, as internal/policy/policy.go means it.
use node_rotation_controller.Base.{
  ℕ, ◌<◌, true, false, ◌≡◌, ◌⊎◌, Option, none, some, List, [], ◌∷◌, pos, ◌≤ℤ◌, ◌<ℤ◌, Duration, All,
}
use node_rotation_controller.Policy.Clock.{parse_weekday, parse_hhmm}
use node_rotation_controller.Policy.{MaintenanceWindow, Policy, Formats, age_threshold_auto}

-- A value, where it is set, has the property.
abbrev pub WhereSet {ℓ} : {A : Type ℓ} → (A → Type 0) → Option A → Type 0
WhereSet P none = Unit
WhereSet P (some a) = P a

abbrev pub IsPositive : Option Duration → Type 0
IsPositive = WhereSet (λ d. pos 0 <ℤ d)

-- A value is set and has the property.
abbrev pub IsSome {ℓ} : {A : Type ℓ} → (A → Type 0) → Option A → Type 0
IsSome P none = ⊥
IsSome P (some a) = P a

abbrev pub NonEmpty {ℓ} : {A : Type ℓ} → List A → Type 0
NonEmpty [] = ⊥
NonEmpty (x ∷ xs) = Unit

-- Both ends can be read, and the end is after the start.
abbrev pub IsSpan : Option ℕ → Option ℕ → Type 0
IsSpan s e = IsSome (λ a. IsSome (λ b. a < b) e) s

module _ ⦃formats : Formats⦄ where
  pub record IsGoodWindow (w : MaintenanceWindow) : Type 0 where
    pub known_zone : formats.has_location w.timezone ≡ true
    pub has_days : NonEmpty w.days
    pub known_days : All (λ d. IsSome (λ n. Unit {0}) (parse_weekday d)) w.days
    pub is_span : IsSpan (parse_hhmm w.start) (parse_hhmm w.end_of)

  pub record IsWellFormed (p : Policy) : Type 0 where
    pub chances : WhereSet (λ k. pos 1 ≤ℤ k) p.min_rotation_chances
    pub one_at_a_time : p.surge.max_unavailable ≡ some (pos 1)
    pub ready_timeout : IsPositive p.surge.ready_timeout
    pub retry_backoff : IsPositive p.surge.retry_backoff
    pub drain_estimate : IsPositive p.surge.drain_estimate
    pub provisioning_estimate : IsPositive p.surge.provisioning_estimate
    pub failure_pause : IsPositive p.surge.failure_pause
    pub cooldown : WhereSet (λ d. pos 0 ≤ℤ d) p.surge.cooldown_after
    pub age :
        (p.age_threshold ≡ age_threshold_auto)
        ⊎ IsSome (λ d. pos 0 <ℤ d) (formats.parse_duration p.age_threshold)
    pub has_windows : NonEmpty p.maintenance_windows
    pub windows : All IsGoodWindow p.maintenance_windows
    pub no_pre_pull : p.pre_pull ≡ false
