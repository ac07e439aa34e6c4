-- ===== src/Examples/PassCases.antt =====
-- Whole passes: an idle pool, a pool with a rotation in flight, and one that no policy governs.
use node_rotation_controller.Base.{
  ◌≡◌, refl, inl, inr, true, false, some, none, [], ◌∷◌, empty_map, put, pos,
}
use node_rotation_controller.Annotations.{surge_for, cordoned}
use node_rotation_controller.Controller.World.{fails, lags, World}
use node_rotation_controller.Controller.Resolve.{Config}
use node_rotation_controller.Controller.Ending.{reap_ungoverned_rotation}
use node_rotation_controller.Controller.Reconcile.{PoolRead, reconcile}
use node_rotation_controller.Controller.Series.{InSeries}
use node_rotation_controller.Controller.Series.Pass.{reconcile-InSeries}
use node_rotation_controller.NodeOps.{Node}
use node_rotation_controller.Controller.Sweep.{anchored_in, sweep_orphans}
use node_rotation_controller.Controller.Sweep.Spares.{IsListed, sweep_orphans-Spares}
use node_rotation_controller.Controller.Calm.{Releases, reap_ungoverned_rotation-Releases}
use node_rotation_controller.Examples.Stamps.{stamps, at}
use node_rotation_controller.Examples.WindowCases.{utc}
use node_rotation_controller.Examples.PolicyCases.{formats, selectors, policies, team_pool}
use node_rotation_controller.Examples.ControllerCases.{failed_claim, world, cache, anchored_pool}

abbrev idle_world : World
idle_world = record world { pool = empty_map; script = lags false empty_map ∷ fails ∷ [] }

abbrev calm_world : World
calm_world = record world { script = [] }

abbrev idle_read : PoolRead
idle_read = record {
  labels = team_pool;
  spec = record {
    name = "pool-a";
    has_replicas = false;
    template_expire_after = some (pos 1_000_000_000_000);
    template_tgp = none;
  };
  start = record cache { pool = empty_map };
  caches = λ i. cache;
}

abbrev pub config : Config
config = record { namespace = "system"; placeholder_name = λ name. name }

reconcile-InSeries_example :
    InSeries "" (reconcile config (some (some idle_read)) (some policies) (at 100) idle_world).1
reconcile-InSeries_example =
    reconcile-InSeries "" config (some (some idle_read)) (some policies) (at 100) idle_world
      (tt, refl) (λ e. refl)

reap_ungoverned_rotation-Releases_example :
    Releases "claim-a" (reap_ungoverned_rotation anchored_pool (some []) calm_world)
reap_ungoverned_rotation-Releases_example =
    reap_ungoverned_rotation-Releases anchored_pool [] calm_world refl refl refl

abbrev frozen_node : Node
frozen_node = record {
  name = "node-a";
  annotations = put empty_map surge_for "claim-a";
  unschedulable = true;
}

-- A node of no rotation, whose cordon the sweep lifts.
abbrev cordoned_node : Node
cordoned_node = record {
  name = "node-b";
  annotations = put empty_map cordoned "true";
  unschedulable = true;
}

abbrev node_world : World
node_world = record calm_world { nodes = cordoned_node ∷ frozen_node ∷ [] }

anchored_here : anchored_in (anchored_pool ∷ []) "claim-a" ≡ true
unfolding anchored_in
anchored_here = refl

sweep_orphans-Spares_example :
    ((sweep_orphans
          (anchored_in (anchored_pool ∷ []))
          (at 100)
          (some (cordoned_node ∷ frozen_node ∷ []))
          (some (failed_claim ∷ []))
          node_world).1.claims
        "claim-a"
      ≡ some failed_claim)
    × IsListed frozen_node
        (sweep_orphans
          (anchored_in (anchored_pool ∷ []))
          (at 100)
          (some (cordoned_node ∷ frozen_node ∷ []))
          (some (failed_claim ∷ []))
          node_world).1.nodes
sweep_orphans-Spares_example =
    sweep_orphans-Spares (anchored_in (anchored_pool ∷ [])) (at 100)
      (some (cordoned_node ∷ frozen_node ∷ [])) (some (failed_claim ∷ [])) "claim-a" frozen_node
      node_world anchored_here refl (inr (inl refl))
