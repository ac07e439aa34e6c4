-- ===== src/Sim/Resolve.antt =====
-- internal/sim/resolve.go: what the simulator takes from a policy, a schedule and a fleet.
pub mod Agree
use node_rotation_controller.Base.{
  ℕ, String, Bool, true, false, Option, none, some, pos, length, ltb_ℤ, Duration, add_duration,
  if◌then◌else◌,
}
use node_rotation_controller.Schedule.{buffer, drain_fallback}
use node_rotation_controller.Schedule
use node_rotation_controller.Schedule.Derive.{derive, mul_int}
use node_rotation_controller.Policy.{
  Policy, Formats, chances, surge_max_unavailable, age_threshold_override, failure_pause_floor,
}
use node_rotation_controller.Window.{Zones, Schedule as Windows}
use node_rotation_controller.Window.Weekly.{
  merged_occurrences, worst_case_period, shortest_window, shortest_idle_gap,
}
use node_rotation_controller.Sim.{FleetSpec, SimResolved}

-- A duration that ApplyDefaults has set.
abbrev set_value : Option Duration → Duration
set_value none = pos 0
set_value (some d) = d

-- A result that is not there is 0.
abbrev or_zero : Option ℕ → Duration
or_zero none = pos 0
or_zero (some n) = pos n

abbrev pub template_tgp : Option Duration → Duration × Bool
template_tgp none = (drain_fallback, true)
template_tgp (some d) = (d, false)

abbrev pub or_floor : Option Duration → Duration → Duration
or_floor none cooldown =
    if ltb_ℤ failure_pause_floor cooldown then cooldown else failure_pause_floor
or_floor (some d) cooldown = d

module _ ⦃zones : Zones⦄ where
  -- The inputs of the derivation, from the override.
  unfoldable pub sim_inputs : Policy → Windows → FleetSpec → Option Duration → Schedule.Inputs
  sim_inputs pol sched f override =
      let occs = merged_occurrences sched in
      let (tgp, unset) = template_tgp f.tgp in
      record {
        expire_after = f.expire_after;
        tgp = tgp;
        tgp_was_unset = unset;
        period = or_zero (worst_case_period occs);
        window_len = or_zero (shortest_window occs);
        idle_gap = shortest_idle_gap occs;
        ready_timeout = set_value pol.surge.ready_timeout;
        cooldown = set_value pol.surge.cooldown_after;
        drain_estimate = pol.surge.drain_estimate;
        provisioning_estimate = pol.surge.provisioning_estimate;
        retry_backoff = set_value pol.surge.retry_backoff;
        chances = chances pol;
        max_unavailable = surge_max_unavailable pol;
        node_count = pos (length f.nodes);
        override = override;
      }

  unfoldable pub resolve_with : Policy → Windows → FleetSpec → Option Duration → SimResolved
  resolve_with pol sched f override =
      let (tgp, unset) = template_tgp f.tgp in
      let inputs = sim_inputs pol sched f override in
      record {
        lead_time = record {
          base =
              add_duration (add_duration (mul_int (chances pol) inputs.period) inputs.ready_timeout)
                buffer;
          drain_fallback = drain_fallback;
        };
        override = override;
        retry_backoff = inputs.retry_backoff;
        ready_timeout = inputs.ready_timeout;
        cooldown = inputs.cooldown;
        failure_pause = or_floor pol.surge.failure_pause inputs.cooldown;
        drain_bound = (if unset then drain_fallback else add_duration tgp buffer);
        derived = derive inputs;
        inputs = inputs;
      }

  abbrev resolved_from :
      Policy → Windows → FleetSpec → Option (Option Duration) → Option SimResolved
  resolved_from pol sched f none = none
  resolved_from pol sched f (some o) = some (resolve_with pol sched f o)

  -- Resolve; none is the error of an ageThreshold that cannot be read.
  unfoldable pub sim_resolve :
      ⦃formats : Formats⦄ → Policy → Windows → FleetSpec → Option SimResolved
  sim_resolve pol sched f = resolved_from pol sched f (age_threshold_override pol)
