-- ===== src/Policy.antt =====
-- internal/policy/policy.go and internal/crd/crd.go: the policy of a pool, its defaults, and the
-- checks on its shape. A problem stands for the error that Validate joins; its text is left out.
pub mod Clock
pub mod Defaults
pub mod Shape
mod Parts
pub mod Valid
use node_rotation_controller.Base.{
  ℕ, zero, suc, String, Bool, true, false, not, ◌&&◌, Option, none, some, List, [], ◌∷◌, ◌++◌, ℤ,
  pos, Duration, minutes, ltb, leb_ℤ, ltb_ℤ, eqb_ℤ, ◌==◌, str_eq, if◌then◌else◌,
}
use Clock.{parse_weekday, parse_hhmm}

pub record MaintenanceWindow : Type 0 where
  pub timezone : String
  pub days : List String
  pub start : String
  pub end_of : String

pub record Surge : Type 0 where
  pub max_unavailable : Option ℤ
  pub ready_timeout : Option Duration
  pub cooldown_after : Option Duration
  pub retry_backoff : Option Duration
  pub required : List String
  pub preferred : List String
  pub forceful_fallback : Bool
  pub whole_node_reservation : Bool
  pub drain_estimate : Option Duration
  pub provisioning_estimate : Option Duration
  pub failure_pause : Option Duration

pub record Policy : Type 0 where
  pub age_threshold : String
  pub min_rotation_chances : Option ℤ
  pub maintenance_windows : List MaintenanceWindow
  pub surge : Surge
  pub pre_pull : Bool

abbrev pub age_threshold_auto : String
age_threshold_auto = "auto"

-- FailurePauseFloor
abbrev pub failure_pause_floor : Duration
failure_pause_floor = minutes 10

abbrev pub default_required : List String
default_required =
    "topology.kubernetes.io/zone" ∷ "kubernetes.io/arch" ∷ "karpenter.sh/capacity-type" ∷ []

module _ {ℓ} {A : Type ℓ} where
  abbrev pub or_default : A → Option A → Option A
  or_default d none = some d
  or_default d (some a) = some a

abbrev required_or_default : List String → List String
required_or_default [] = default_required
required_or_default (r ∷ rs) = r ∷ rs

unfoldable pub default_surge : Surge → Surge
default_surge s = record s {
  max_unavailable = or_default (pos 1) s.max_unavailable;
  ready_timeout = or_default (minutes 15) s.ready_timeout;
  cooldown_after = or_default (minutes 10) s.cooldown_after;
  retry_backoff = or_default (minutes 30) s.retry_backoff;
  required = required_or_default s.required;
}

-- ApplyDefaults
unfoldable pub apply_defaults : Policy → Policy
apply_defaults p = record p {
  age_threshold = (if str_eq p.age_threshold "" then age_threshold_auto else p.age_threshold);
  min_rotation_chances = or_default (pos 2) p.min_rotation_chances;
  surge = default_surge p.surge;
}

-- K
unfoldable pub chances : Policy → ℤ
chances p = elim p.min_rotation_chances [ none ↦ pos 0 | some k ↦ k ]

-- SurgeMaxUnavailable
unfoldable pub surge_max_unavailable : Policy → ℤ
surge_max_unavailable p = elim p.surge.max_unavailable [ none ↦ pos 0 | some m ↦ m ]

pub data Problem : Type 0 where
  few_chances max_unavailable_not_one : Problem
  not_positive : String → Problem
  negative_cooldown bad_age_threshold no_windows pre_pull_enabled : Problem
  bad_timezone no_days bad_day bad_start bad_end same_ends overnight : ℕ → Problem

-- The two of time's functions that the checks call: time.ParseDuration, and whether
-- time.LoadLocation knows a name.
pub record Formats : Type 0 where
  pub parse_duration : String → Option Duration
  pub has_location : String → Bool

-- A problem where the test holds.
abbrev pub problem_if : Bool → Problem → List Problem
problem_if true e = e ∷ []
problem_if false e = []

-- A value that is set, and not positive.
abbrev pub is_not_positive : Option Duration → Bool
is_not_positive none = false
is_not_positive (some d) = leb_ℤ d (pos 0)

abbrev pub is_negative : Option Duration → Bool
is_negative none = false
is_negative (some d) = ltb_ℤ d (pos 0)

abbrev pub is_few : Option ℤ → Bool
is_few none = false
is_few (some k) = ltb_ℤ k (pos 1)

abbrev pub is_not_one : Option ℤ → Bool
is_not_one none = true
is_not_one (some m) = not (eqb_ℤ m (pos 1))

-- The loop over the surge durations that must be positive.
unfoldable pub duration_problems : Surge → List Problem
duration_problems s =
    problem_if (is_not_positive s.ready_timeout) (not_positive "surge.readyTimeout")
    ++ (problem_if (is_not_positive s.retry_backoff) (not_positive "surge.retryBackoff")
        ++ (problem_if (is_not_positive s.drain_estimate) (not_positive "surge.drainEstimate")
            ++ (problem_if (is_not_positive s.provisioning_estimate)
                  (not_positive "surge.provisioningEstimate")
                ++ problem_if (is_not_positive s.failure_pause)
                    (not_positive "surge.failurePause"))))

abbrev pub day_problem : ℕ → Option ℕ → List Problem
day_problem i none = bad_day i ∷ []
day_problem i (some w) = []

unfoldable pub day_problems : ℕ → List String → List Problem
day_problems i [] = []
day_problems i (d ∷ ds) = day_problem i (parse_weekday d) ++ day_problems i ds

abbrev pub end_problems : ℕ → Option ℕ → Option ℕ → List Problem
end_problems i none none = bad_start i ∷ bad_end i ∷ []
end_problems i none (some e) = bad_start i ∷ []
end_problems i (some s) none = bad_end i ∷ []
end_problems i (some s) (some e) =
    if s == e then same_ends i ∷ [] else problem_if (ltb e s) (overnight i)

abbrev pub is_empty : List String → Bool
is_empty [] = true
is_empty (d ∷ ds) = false

abbrev pub has_no_windows : List MaintenanceWindow → Bool
has_no_windows [] = true
has_no_windows (w ∷ ws) = false

abbrev pub positive_override : Option Duration → Option (Option Duration)
positive_override none = none
positive_override (some d) = if leb_ℤ d (pos 0) then none else some (some d)

abbrev pub is_bad_override : Option (Option Duration) → Bool
is_bad_override none = true
is_bad_override (some o) = false

module _ ⦃formats : Formats⦄ where
  -- AgeThresholdOverride: `none` is an error, `some none` is auto.
  unfoldable pub age_threshold_override : Policy → Option (Option Duration)
  age_threshold_override p =
      if str_eq p.age_threshold age_threshold_auto
      then some none
      else positive_override (formats.parse_duration p.age_threshold)

  -- MaintenanceWindow.validate
  unfoldable pub window_problems : ℕ → MaintenanceWindow → List Problem
  window_problems i w =
      problem_if (not (formats.has_location w.timezone)) (bad_timezone i)
      ++ (problem_if (is_empty w.days) (no_days i)
          ++ (day_problems i w.days ++ end_problems i (parse_hhmm w.start) (parse_hhmm w.end_of)))

  -- The loop over the windows, from the index i.
  unfoldable pub windows_problems : ℕ → List MaintenanceWindow → List Problem
  windows_problems i [] = []
  windows_problems i (w ∷ ws) = window_problems i w ++ windows_problems (suc i) ws

  -- Validate: no error is the empty list.
  unfoldable pub validate : Policy → List Problem
  validate p =
      problem_if (is_few p.min_rotation_chances) few_chances
      ++ (problem_if (is_not_one p.surge.max_unavailable) max_unavailable_not_one
          ++ (duration_problems p.surge
              ++ (problem_if (is_negative p.surge.cooldown_after) negative_cooldown
                  ++ (problem_if (is_bad_override (age_threshold_override p)) bad_age_threshold
                      ++ (problem_if (has_no_windows p.maintenance_windows) no_windows
                          ++ (windows_problems 0 p.maintenance_windows
                              ++ problem_if p.pre_pull pre_pull_enabled))))))

  abbrev checked : Policy → List Problem → Option Policy
  checked p [] = some p
  checked p (e ∷ es) = none

  -- crd.ToPolicy, from the fields of the spec, which are those of the policy.
  unfoldable pub to_policy : Policy → Option Policy
  to_policy spec = let p = apply_defaults spec in checked p (validate p)
