-- ===== src/Policy/Defaults.antt =====
-- ApplyDefaults: what a spec leaves open is filled in, once, and nothing else.
use node_rotation_controller.Base.{false, ◌↔◌, refl, inl, none, List, [], All, arith}
use node_rotation_controller.Policy.{
  MaintenanceWindow, Policy, Formats, default_surge, apply_defaults,
}
use node_rotation_controller.Policy.Shape.{NonEmpty, IsGoodWindow, IsWellFormed}

-- A spec that sets nothing but its windows.
abbrev pub windows_only : List MaintenanceWindow → Policy
windows_only ws = record {
  age_threshold = "";
  min_rotation_chances = none;
  maintenance_windows = ws;
  surge = record {
    max_unavailable = none;
    ready_timeout = none;
    cooldown_after = none;
    retry_backoff = none;
    required = [];
    preferred = [];
    forceful_fallback = false;
    whole_node_reservation = false;
    drain_estimate = none;
    provisioning_estimate = none;
    failure_pause = none;
  };
  pre_pull = false;
}

-- A spec that sets only its windows is made a well-formed policy just when there are windows and
-- each of them is in order: the defaults meet all the other checks.
pub apply_defaults-IsWellFormed_iff :
    ⦃formats : Formats⦄
    → (ws : List MaintenanceWindow)
    → IsWellFormed (apply_defaults (windows_only ws)) ↔ (NonEmpty ws × All IsGoodWindow ws)
unfolding apply_defaults default_surge
apply_defaults-IsWellFormed_iff ws = (
  (λ w. (w.has_windows, w.windows)),
  (λ h. record {
    chances = omega arith;
    one_at_a_time = refl;
    ready_timeout = omega arith;
    retry_backoff = omega arith;
    drain_estimate = tt;
    provisioning_estimate = tt;
    failure_pause = tt;
    cooldown = omega arith;
    age = inl refl;
    has_windows = h.0;
    windows = h.1;
    no_pre_pull = refl;
  }),
)
