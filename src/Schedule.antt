-- ===== src/Schedule.antt =====
-- internal/schedule/schedule.go: what a policy can promise, and the findings about it. A finding
-- has its severity and its code; the text is left out.
pub mod Division
pub mod Float
pub mod Derive
use node_rotation_controller.Base.{
  ℕ, String, Bool, true, false, not, ◌&&◌, ◌||◌, Option, none, some, List, [], ◌∷◌, ◌++◌, ℤ, pos,
  ltb_ℤ, leb_ℤ, eqb_ℤ, Duration, minutes, add_duration, sub_duration, if◌then◌else◌,
}

-- DrainFallback, DrainEstimateDefault, ProvisioningEstimateDefault, Buffer and HardCap
abbrev pub drain_fallback : Duration
drain_fallback = minutes 60

abbrev pub drain_estimate_default : Duration
drain_estimate_default = minutes 10

abbrev pub provisioning_estimate_default : Duration
provisioning_estimate_default = minutes 5

abbrev pub buffer : Duration
buffer = minutes 2

abbrev pub hard_cap : Duration
hard_cap = minutes 30_240

pub data Severity : Type 0 where
  warn fatal : Severity

pub record Finding : Type 0 where
  pub severity : Severity
  pub code : String

abbrev pub finding : Severity → String → Finding
finding s c = record { severity = s; code = c }

pub record Inputs : Type 0 where
  pub expire_after : Duration
  pub tgp : Duration
  pub tgp_was_unset : Bool
  pub period : Duration
  pub window_len : Duration
  pub idle_gap : Option Duration
  pub ready_timeout : Duration
  pub cooldown : Duration
  pub drain_estimate : Option Duration
  pub provisioning_estimate : Option Duration
  pub retry_backoff : Duration
  pub chances : ℤ
  pub max_unavailable : ℤ
  pub node_count : ℤ
  pub override : Option Duration
