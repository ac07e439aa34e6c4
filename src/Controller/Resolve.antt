-- ===== src/Controller/Resolve.antt =====
-- resolve, selInputs and derivedThresholds: from the pool's spec, its policy and its schedule to
-- what the handlers, the selection and the derivation take.
use node_rotation_controller.Base.{
  ℕ, String, Bool, true, false, Option, none, some, List, [], pos, ltb_ℤ, Duration, Time, get,
  str_eq, any, add_duration, if◌then◌else◌,
}
use node_rotation_controller.Annotations.{state, state_failed}
use node_rotation_controller.Selection.{Claim, LeadTime}
use node_rotation_controller.Selection
use node_rotation_controller.Schedule.{buffer, drain_fallback}
use node_rotation_controller.Schedule
use node_rotation_controller.Schedule.Derive.{derive, mul_int, max_int}
use node_rotation_controller.Schedule.Derive
use node_rotation_controller.Policy.{
  Policy, Formats, chances, surge_max_unavailable, age_threshold_override, failure_pause_floor,
}
use node_rotation_controller.Controller.Reads.{Resolved}

-- The fields of a NodePool's spec that are read.
pub record PoolSpec : Type 0 where
  pub name : String
  pub has_replicas : Bool
  pub template_expire_after : Option Duration
  pub template_tgp : Option Duration

-- The schedule at the instant of the pass; a period or a length that is not known is 0.
pub record Calendar : Type 0 where
  pub in_window : Bool
  pub occurrence : Option (Time × Time)
  pub period : Duration
  pub window_len : Duration
  pub idle_gap : Option Duration

-- The configuration of the reconciler.
pub record Config : Type 0 where
  pub namespace : String
  pub placeholder_name : String → String

-- poolTGP: the bound, and whether it is a substitute.
unfoldable pub pool_tgp : PoolSpec → Duration × Bool
pool_tgp pool = elim pool.template_tgp [ some d ↦ (d, false) | none ↦ (drain_fallback, true) ]

-- A duration that ApplyDefaults has set.
abbrev set_duration : Option Duration → Duration
set_duration none = pos 0
set_duration (some d) = d

abbrev max_duration : Duration → Duration → Duration
max_duration a b = if ltb_ℤ a b then b else a

-- gate B: an unset pause is the larger of the floor and the cooldown.
unfoldable pub resolve_failure_pause : Option Duration → Duration → Duration
resolve_failure_pause (some d) cooldown = d
resolve_failure_pause none cooldown = max_duration failure_pause_floor cooldown

-- An override that cannot be read counts as 0.
abbrev override_of : Option (Option Duration) → Option Duration
override_of none = some (pos 0)
override_of (some o) = o

module _ ⦃formats : Formats⦄ where
  unfoldable pub resolve : Config → PoolSpec → Policy → Calendar → Resolved
  resolve config pool pol sched =
      let (tgp, unset) = pool_tgp pool in
      let ready = set_duration pol.surge.ready_timeout in
      let cooldown = set_duration pol.surge.cooldown_after in
      record {
        pool_name = pool.name;
        namespace = config.namespace;
        placeholder_name = config.placeholder_name;
        static_pool = pool.has_replicas;
        fatal = false;
        retry_backoff = set_duration pol.surge.retry_backoff;
        ready_timeout = ready;
        cooldown = cooldown;
        failure_pause = resolve_failure_pause pol.surge.failure_pause cooldown;
        drain_bound = (if unset then drain_fallback else add_duration tgp buffer);
        fallback_enabled = pol.surge.forceful_fallback;
        in_window = sched.in_window;
        occurrence = sched.occurrence;
        lead_time = record {
          base = add_duration (add_duration (mul_int (chances pol) sched.period) ready) buffer;
          drain_fallback = drain_fallback;
        };
        override = override_of (age_threshold_override pol);
        drain_estimate = pol.surge.drain_estimate;
        provisioning_estimate = pol.surge.provisioning_estimate;
        chances = chances pol;
        max_unavailable = surge_max_unavailable pol;
      }

-- hasFailedClaim
unfoldable pub has_failed_claim : List Claim → Bool
has_failed_claim views = any (λ c. str_eq (get c.annotations state) state_failed) views

abbrev pub bounds_of : Bool → Option (Time × Time) → Time × Time
bounds_of true (some b) = b
bounds_of true none = (pos 0, pos 0)
bounds_of false o = (pos 0, pos 0)

-- selInputs: the bounds of the occurrence only where a claim has failed.
unfoldable pub sel_inputs : Resolved → Time → (String → Bool) → Bool → Selection.Inputs
sel_inputs res now excluded any_failed =
    let b = bounds_of any_failed res.occurrence in
    record {
      now = now;
      lead_time = res.lead_time;
      override = res.override;
      retry_backoff = res.retry_backoff;
      excluded = excluded;
      window_start = b.0;
      window_end = b.1;
    }

abbrev no_result : Duration → Derive.Result
no_result a = record {
  t_rot = pos 0;
  t_rot_est = pos 0;
  drain_estimate = pos 0;
  provisioning_estimate = pos 0;
  age_threshold = a;
  guaranteed = pos 0;
  capacity = pos 0;
  findings = [];
}

-- The inputs of Derive for a template that expires after e.
unfoldable pub derive_inputs : PoolSpec → Resolved → Calendar → ℕ → Duration → Schedule.Inputs
derive_inputs pool res sched nodes e =
    let (tgp, unset) = pool_tgp pool in
    record {
      expire_after = e;
      tgp = tgp;
      tgp_was_unset = unset;
      period = sched.period;
      window_len = sched.window_len;
      idle_gap = sched.idle_gap;
      ready_timeout = res.ready_timeout;
      cooldown = res.cooldown;
      drain_estimate = res.drain_estimate;
      provisioning_estimate = res.provisioning_estimate;
      retry_backoff = res.retry_backoff;
      chances = res.chances;
      max_unavailable = res.max_unavailable;
      node_count = pos nodes;
      override = res.override;
    }

-- derivedThresholds: a template that never expires has no derivation.
unfoldable pub derived_thresholds : PoolSpec → Resolved → Calendar → ℕ → Derive.Result
derived_thresholds pool res sched nodes = elim pool.template_expire_after [
  | some e ↦ derive (derive_inputs pool res sched nodes e)
  | none ↦ elim res.override [ some a ↦ no_result a | none ↦ no_result (pos 0) ]
]
