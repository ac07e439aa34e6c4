-- ===== src/Sim/Report.antt =====
-- internal/sim/sim.go: Run, from a policy to a timeline, and the inputs that it refuses.
use node_rotation_controller.Base.{
  Bool, true, false, not, ◌||◌, Option, none, some, List, [], ◌∷◌, pos, ltb_ℤ, leb_ℤ, eqb_ℤ,
  Duration, empty_map, if◌then◌else◌,
}
use node_rotation_controller.Annotations.{TimeText}
use node_rotation_controller.Schedule.{fatal}
use node_rotation_controller.Decide.{gate_none}
use node_rotation_controller.Policy.{Policy, Formats, Problem, apply_defaults, validate}
use node_rotation_controller.Window.{Zones, Schedule, new}
use node_rotation_controller.Sim.{
  max_steps, Env, FleetSpec, Options, SimResolved, Diagnostic, Timeline, Run,
}
use node_rotation_controller.Sim.Resolve.{sim_resolve}
use node_rotation_controller.Sim.Fleet.{init_fleet}
use node_rotation_controller.Sim.Drive.{loop, sort_events}

pub data Refusal : Type 0 where
  no_policy empty_horizon negative_env not_positive_expire_after invalid_policy : Refusal
  invalid_windows invalid_age_threshold : Refusal

-- The derivation is the one of `resolved`.
pub record Report : Type 0 where
  pub resolved : SimResolved
  pub timeline : Timeline

pub data Outcome : Type 0 where
  refused : Refusal → Outcome
  reported : Report → Outcome

abbrev no_timeline : Timeline
no_timeline = record {
  events = [];
  generations = [];
  rotations = [];
  windows = [];
  simulated_through = pos 0;
  diagnostics = [];
  partial = false;
}

abbrev or_estimate : Duration → Duration → Duration
or_estimate d estimate = if eqb_ℤ d (pos 0) then estimate else d

abbrev pub env_with : Env → SimResolved → Env
env_with env res = record {
  provisioning = or_estimate env.provisioning res.derived.provisioning_estimate;
  drain = or_estimate env.drain res.derived.drain_estimate;
}

abbrev too_slow : Env → SimResolved → Diagnostic
too_slow env res = record {
  severity = fatal;
  code = "EnvProvisioningAboveReadyTimeout";
  subject = "";
  amounts = env.provisioning ∷ res.ready_timeout ∷ [];
}

abbrev pub first_run : Policy → SimResolved → Env → Options → FleetSpec → Run
first_run pol res env opts f = record {
  res = res;
  env = env;
  opts = opts;
  fallback_enabled = pol.surge.forceful_fallback;
  template = f;
  nodes = [];
  pool_ann = empty_map;
  rot = none;
  tl = no_timeline;
  block_from = pos 0;
  block_gate = gate_none;
  census_from = pos 0;
  census = none;
  win_open = false;
}

abbrev sorted : Timeline → Timeline
sorted tl = record tl { events = sort_events tl.events }

abbrev is_valid : List Problem → Bool
is_valid [] = true
is_valid (e ∷ es) = false

module _ ⦃text : TimeText⦄ ⦃formats : Formats⦄ ⦃zones : Zones⦄ where
  abbrev simulate : Policy → Schedule → FleetSpec → Env → Options → SimResolved → Outcome
  simulate pol sched f env0 opts res =
      let env = env_with env0 res in
      if ltb_ℤ res.ready_timeout env.provisioning
      then reported (record {
        resolved = res;
        timeline = record no_timeline { partial = true; diagnostics = too_slow env res ∷ [] };
      })
      else reported (record {
        resolved = res;
        timeline = sorted (loop sched max_steps (init_fleet f (first_run pol res env opts f))).tl;
      })

  abbrev with_resolved :
      Policy → Schedule → FleetSpec → Env → Options → Option SimResolved → Outcome
  with_resolved pol sched f env opts none = refused invalid_age_threshold
  with_resolved pol sched f env opts (some res) = simulate pol sched f env opts res

  abbrev with_schedule : Policy → FleetSpec → Env → Options → Option Schedule → Outcome
  with_schedule pol f env opts none = refused invalid_windows
  with_schedule pol f env opts (some sched) =
      with_resolved pol sched f env opts (sim_resolve pol sched f)

  abbrev with_valid : Policy → FleetSpec → Env → Options → Outcome
  with_valid pol f env opts =
      if is_valid (validate pol)
      then with_schedule pol f env opts (new pol.maintenance_windows)
      else refused invalid_policy

  -- Run
  unfoldable pub simulate_fleet : Option Policy → FleetSpec → Env → Options → Outcome
  simulate_fleet none f env opts = refused no_policy
  simulate_fleet (some p) f env opts =
      if not (ltb_ℤ opts.start opts.end_of)
      then refused empty_horizon
      else if ltb_ℤ env.provisioning (pos 0) || ltb_ℤ env.drain (pos 0)
      then refused negative_env
      else if leb_ℤ f.expire_after (pos 0)
      then refused not_positive_expire_after
      else with_valid (apply_defaults p) f env opts
