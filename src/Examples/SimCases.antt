-- ===== src/Examples/SimCases.antt =====
-- internal/sim: a fleet of one node, under the policy of PolicyCases.
use node_rotation_controller.Base.{
  ◌≡◌, refl, false, none, some, List, [], empty_map, ◌∷◌, length, ◌≤ℤ◌, ◌<ℤ◌, All, add_time,
  minutes, arith,
}
use node_rotation_controller.Policy.{Policy, apply_defaults, age_threshold_override}
use node_rotation_controller.Controller.Resolve.{PoolSpec, resolve, derived_thresholds}
use node_rotation_controller.Controller.Windows.{calendar}
use node_rotation_controller.Controller.Dispatch
use node_rotation_controller.Sim.{FleetSpec, Options, Env, Run, SimResolved, tick}
use node_rotation_controller.Sim.Resolve.{resolve_with, sim_resolve}
use node_rotation_controller.Sim.Resolve.Agree.{IsPoolOf, AgreesWith, sim_resolve-agrees}
use node_rotation_controller.Sim.Loop.{next}
use node_rotation_controller.Sim.Fleet.{init_fleet}
use node_rotation_controller.Controller.Edge.{PoolView}
use node_rotation_controller.Controller.World.{NodeClaim}
use node_rotation_controller.Sim.Drive.{loop}
use node_rotation_controller.Sim.Drive.Clock.{next-advances}
use node_rotation_controller.Sim.Drive.Within.{EventBy, WindowBy}
use node_rotation_controller.Sim.Drive.Through.{IsFresh, loop-within}
use node_rotation_controller.Sim.Report.{first_run}
use node_rotation_controller.Examples.Stamps.{stamps, at}
use node_rotation_controller.Examples.WindowCases.{utc, mondays}
use node_rotation_controller.Examples.PolicyCases.{formats, spec}
use node_rotation_controller.Examples.PassCases.{config}

abbrev pol : Policy
pol = apply_defaults spec

no_override : age_threshold_override pol ≡ some none
unfolding age_threshold_override apply_defaults
no_override = refl

abbrev fleet : FleetSpec
fleet = record {
  expire_after = minutes 60;
  tgp = some (minutes 5);
  nodes = record { name = "a"; created_at = at 0; expire_after = none; tgp = none } ∷ [];
}

abbrev pool : PoolSpec
pool = record {
  name = "pool-a";
  has_replicas = false;
  template_expire_after = some (minutes 60);
  template_tgp = some (minutes 5);
}

is_pool : IsPoolOf pool fleet
is_pool = record { same_expire_after = refl; same_tgp = refl }

abbrev horizon : Options
horizon = record { start = at 60; end_of = at 360 }

abbrev env : Env
env = record { provisioning = minutes 1; drain = minutes 1 }

abbrev fresh : Run
fresh = first_run pol (resolve_with pol mondays fleet none) env horizon fleet

fresh-IsFresh : IsFresh fresh
fresh-IsFresh = record { no_events = refl; no_windows = refl; no_block = refl; no_census = refl }

sim_resolve-agrees_example :
    (s : SimResolved) × (sim_resolve pol mondays fleet ≡ some s)
    × AgreesWith s (resolve config pool pol (calendar mondays (at 90))) (
        derived_thresholds pool
          (resolve config pool pol (calendar mondays (at 90)))
          (calendar mondays (at 90))
          (length fleet.nodes))
sim_resolve-agrees_example =
    sim_resolve-agrees config pool pol mondays fleet (at 90) none no_override is_pool

next-advances_example :
    (at 90 <ℤ next fresh (at 90)) × (next fresh (at 90) ≤ℤ add_time (at 90) tick)
next-advances_example = next-advances fresh (at 90)

loop-within_example :
    ((loop mondays 1000 fresh).tl.simulated_through ≤ℤ at 360)
    × All
        (EventBy (loop mondays 1000 fresh).tl.simulated_through)
        (loop mondays 1000 fresh).tl.events
    × All
        (WindowBy (loop mondays 1000 fresh).tl.simulated_through)
        (loop mondays 1000 fresh).tl.windows
loop-within_example = loop-within mondays 1000 fresh fresh-IsFresh (omega arith) (omega arith)

abbrev running : Run
running = init_fleet fleet fresh

-- The claim of the fleet's node.
abbrev listed : List NodeClaim
listed =
    record {
      name = "a";
      created_at = at 0;
      annotations = empty_map;
      deleting = false;
      node_name = "node-a";
      expire_after = some (minutes 60);
      tgp = some (minutes 5);
      conditions = ("Ready", "True") ∷ [];
    }
    ∷ []

abbrev held_pool : PoolView
held_pool = record { annotations = empty_map; version = some 1 }
