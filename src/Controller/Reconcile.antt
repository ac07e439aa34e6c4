-- ===== src/Controller/Reconcile.antt =====
-- Reconcile and governingPolicy: from the request for a NodePool to a pass of it, or to the release
-- of a rotation that no policy governs any more.
use node_rotation_controller.Base.{ℕ, true, false, Option, none, some, List, Annotations, Time}
use node_rotation_controller.Annotations.{TimeText}
use node_rotation_controller.Policy.{Policy, Formats, MaintenanceWindow, to_policy}
use node_rotation_controller.Governing.{
  RotationPolicy, Selectors, Outcome, matched, no_match, conflict, governing,
}
use node_rotation_controller.Controller.World.{pool_forgotten, policy_conflict, M}
use node_rotation_controller.Controller.Reads.{Cache}
use node_rotation_controller.Window.{Zones}
use node_rotation_controller.Controller.Windows.{calendar_at}
use node_rotation_controller.Controller.Resolve.{PoolSpec, Calendar, Config, resolve}
use node_rotation_controller.Controller.Api.{pure, answer, ◌>>=◌, ◌>>◌, report}
use node_rotation_controller.Controller.Ending.{Requeue, long_requeue, reap_ungoverned_rotation}
use node_rotation_controller.Controller.Start.{reconcile_node_pool}

pub data Governance : Type 0 where
  ungoverned : Governance
  contested : Governance
  governed : Policy → Calendar → Governance

-- window.New for the windows of a policy, and what its schedule says at the instant of the pass.
abbrev pub Schedules : Type 0
Schedules = List MaintenanceWindow → Option Calendar

abbrev pub with_schedule : Policy → Option Calendar → Governance
with_schedule pol none = contested
with_schedule pol (some sched) = governed pol sched

abbrev pub with_policy : Schedules → Option Policy → Governance
with_policy schedules none = contested
with_policy schedules (some pol) = with_schedule pol (schedules pol.maintenance_windows)

abbrev pub by_outcome : ⦃formats : Formats⦄ → Schedules → Outcome → Governance
by_outcome schedules no_match = ungoverned
by_outcome schedules (conflict names) = contested
by_outcome schedules (matched p) = with_policy schedules (to_policy p.spec)

-- governingPolicy, from the labels of the pool and the policies listed.
unfoldable pub governing_policy :
    ⦃selectors : Selectors⦄ ⦃formats : Formats⦄
    → Schedules
    → Annotations
    → List RotationPolicy
    → Governance
governing_policy schedules labels policies = by_outcome schedules (governing labels policies)

-- The pool that was read: its labels, its spec, and the caches of the pass with its annotations.
pub record PoolRead : Type 0 where
  pub labels : Annotations
  pub spec : PoolSpec
  pub start : Cache
  pub caches : ℕ → Cache

abbrev pub requeue : Requeue → M (Option Requeue)
requeue r = pure (some r)

-- By what governs the pool: a step of the rotation, or the release of one in flight.
abbrev pub by_governance :
    ⦃text : TimeText⦄ ⦃formats : Formats⦄
    → Config
    → PoolRead
    → Time
    → Governance
    → M (Option Requeue)
by_governance config p now ungoverned = do
  reap_ungoverned_rotation p.start.pool p.start.surge_nodes
  report pool_forgotten
  pure none
by_governance config p now contested = do
  report pool_forgotten
  report (policy_conflict true)
  reap_ungoverned_rotation p.start.pool p.start.surge_nodes
  requeue long_requeue
by_governance config p now (governed pol sched) = do
  report (policy_conflict false)
  r ← reconcile_node_pool p.spec sched p.start p.caches (resolve config p.spec pol sched) now
  requeue r

module _ ⦃text : TimeText⦄ ⦃selectors : Selectors⦄ ⦃formats : Formats⦄ ⦃zones : Zones⦄ where
  abbrev pub reconcile_found :
      Config → Option (List RotationPolicy) → Time → PoolRead → M (Option Requeue)
  reconcile_found config listed now p = do
    policies ← answer listed
    by_governance config p now (governing_policy (calendar_at now) p.labels policies)

  abbrev pub reconcile_read :
      Config → Option (List RotationPolicy) → Time → Option PoolRead → M (Option Requeue)
  reconcile_read config listed now none = report pool_forgotten >> pure none
  reconcile_read config listed now (some p) = reconcile_found config listed now p

  -- Reconcile, after the sweep of the first one. The pool is read first (`none` fails, `some
  -- none` is gone), then the policies are listed.
  unfoldable pub reconcile :
      Config → Option (Option PoolRead) → Option (List RotationPolicy) → Time → M (Option Requeue)
  reconcile config read listed now = do found ← answer read; reconcile_read config listed now found
