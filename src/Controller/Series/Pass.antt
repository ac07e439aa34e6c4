-- ===== src/Controller/Series/Pass.antt =====
-- A whole pass of a NodePool, in the series of anchors.
use node_rotation_controller.Base.{
  ℕ, String, true, false, Option, none, some, List, Annotations, Time,
}
use node_rotation_controller.Annotations.{TimeText}
use node_rotation_controller.NodeOps.{Node}
use node_rotation_controller.Controller.World.{Signal, pool_forgotten, policy_conflict, World, M}
use node_rotation_controller.Controller.Reads.{Cache, Resolved}
use node_rotation_controller.Controller.Resolve.{PoolSpec, Calendar}
use node_rotation_controller.Controller.Api.{answer, ◌>>=◌, report}
use node_rotation_controller.Controller.Ending.{Requeue, long_requeue}
use node_rotation_controller.Controller.Hoare.{Triple, bind-Triple, Keeps, pure-Keeps, after_any}
use node_rotation_controller.Controller.Walk.{IsKept, after-Keeps, when-Keeps, fail-Keeps}
use node_rotation_controller.Controller.Edge.{PoolView}
use node_rotation_controller.Controller.Start.{reconcile_listed, reconcile_node_pool}
use node_rotation_controller.Policy.{Formats}
use node_rotation_controller.Window.{Zones}
use node_rotation_controller.Controller.Windows.{calendar_at}
use node_rotation_controller.Governing.{RotationPolicy, Selectors}
use node_rotation_controller.Controller.Anchor.{clear_anchor_if}
use node_rotation_controller.Controller.Ending.{reap_ungoverned_rotation}
use node_rotation_controller.Controller.Resolve.{Config}
use node_rotation_controller.Controller.Hoare.{delete_placeholder-Keeps, unfreeze_nodes-Keeps}
use node_rotation_controller.Controller.Walk.{report-Keeps, patch_pool_if-Keeps}
use node_rotation_controller.Controller.Moves.{clear_if_anchored-IsSettling}
use node_rotation_controller.Controller.Reconcile.{
  Governance, ungoverned, contested, governed, governing_policy, PoolRead, by_governance, reconcile,
}
use node_rotation_controller.Controller.Series.{
  InSeries, IsCoherent, Viewed, InSeries-IsKept, weaken,
}
use node_rotation_controller.Controller.Series.Begin.{drive_or_start-Triple}
use node_rotation_controller.Controller.Series.Edge.{evaluate_window_edge-Triple}

-- The view of the pool that a pass begins with.
abbrev pub view_of : PoolRead → PoolView
view_of p = record { annotations = p.start.pool; version = p.start.version }

abbrev pub ReadCoherently : Option (Option PoolRead) → World → Type 0
ReadCoherently none w = Unit
ReadCoherently (some none) w = Unit
ReadCoherently (some (some p)) w = IsCoherent (view_of p) w

module _ (a : String) ⦃text : TimeText⦄ where
  report-Viewed :
      (p : PoolView) (s : Signal) → Triple (InSeries a) (Viewed a p) (report s) (λ u. Viewed a p)
  unfolding report
  report-Viewed p s = record { holds = λ w v. v }

  answer-Viewed {ℓ} :
      {A : Type ℓ} (p : PoolView) (o : Option A) {f : A → M Requeue}
      → ((x : A) → Triple (InSeries a) (Viewed a p) (f x) (λ r. InSeries a))
      → Triple (InSeries a) (Viewed a p) (answer o >>= f) (λ r. InSeries a)
  unfolding ◌>>=◌
  answer-Viewed p none h = weaken a p fail-Keeps
  answer-Viewed p (some x) h = record { holds = (h x).holds }

  reconcile_node_pool-Triple :
      (pool : PoolSpec) (sched : Calendar) (start : Cache) (caches : ℕ → Cache) (res : Resolved)
      (now : Time)
      → Triple
          (InSeries a)
          (Viewed a (record { annotations = start.pool; version = start.version }))
          (reconcile_node_pool pool sched start caches res now)
          (λ r. InSeries a)
  unfolding reconcile_node_pool reconcile_listed
  reconcile_node_pool-Triple pool sched start caches res now =
      answer-Viewed _ start.pool_claims (λ claims. answer-Viewed _ start.pool_nodes (λ nodes.
        bind-Triple _ _ (evaluate_window_edge-Triple a _ sched.in_window now _)
          (λ p. drive_or_start-Triple a caches _ now p start claims _)))

module _ (a : String) ⦃text : TimeText⦄ where
  reap_ungoverned-Keeps :
      (seen : Annotations) (listed : Option (List Node))
      → Keeps (InSeries a) (reap_ungoverned_rotation seen listed)
  unfolding reap_ungoverned_rotation clear_anchor_if
  reap_ungoverned-Keeps seen listed = when-Keeps _ (pure-Keeps tt) (
      after-Keeps (delete_placeholder-Keeps k.local _) (λ u.
        after-Keeps (unfreeze_nodes-Keeps k.local listed _) (λ v.
          after-Keeps
            (after-Keeps (patch_pool_if-Keeps k _ (clear_if_anchored-IsSettling _))
              (λ r. pure-Keeps _))
            (λ r. pure-Keeps tt))))
    where
      k : IsKept (InSeries a)
      k = InSeries-IsKept a

  by_governance-Triple :
      ⦃formats : Formats⦄
      → (config : Config) (p : PoolRead) (now : Time) (g : Governance)
      → Triple (InSeries a) (Viewed a (view_of p)) (by_governance config p now g) (λ r. InSeries a)
  by_governance-Triple config p now ungoverned = weaken a _ (
      after-Keeps (reap_ungoverned-Keeps _ _)
        (λ u. after-Keeps (report-Keeps (InSeries-IsKept a) pool_forgotten) (λ v. pure-Keeps none)))
  by_governance-Triple config p now contested = weaken a _ (
      after-Keeps (report-Keeps (InSeries-IsKept a) pool_forgotten) (λ u.
        after-Keeps (report-Keeps (InSeries-IsKept a) (policy_conflict true))
          (λ v. after-Keeps (reap_ungoverned-Keeps _ _) (λ r. pure-Keeps (some long_requeue)))))
  by_governance-Triple config p now (governed pol sched) =
      bind-Triple _ _ (report-Viewed a (view_of p) (policy_conflict false)) (λ u.
        bind-Triple _ _ (reconcile_node_pool-Triple a p.spec sched p.start p.caches _ now)
          (λ r. pure-Keeps (some r)))

  -- The pool that was read, if any, is what the API server holds at its resourceVersion.
  reconcile-Keeps :
      ⦃selectors : Selectors⦄ ⦃formats : Formats⦄ ⦃zones : Zones⦄
      → (config : Config) (read : Option (Option PoolRead)) (listed : Option (List RotationPolicy))
        (now : Time)
      → Triple
          (InSeries a)
          (λ w. InSeries a w × ReadCoherently read w)
          (reconcile config read listed now)
          (λ r. InSeries a)
  unfolding reconcile ◌>>=◌
  reconcile-Keeps config none listed now = record { holds = λ w p. p.0 }
  reconcile-Keeps config (some none) listed now = record {
    holds = λ w p.
        (after-Keeps (report-Keeps (InSeries-IsKept a) pool_forgotten) (λ v. pure-Keeps none)).holds
          w p.0;
  }
  reconcile-Keeps config (some (some p)) none now = record { holds = λ w v. v.0 }
  reconcile-Keeps config (some (some p)) (some policies) now = record {
    holds =
        (by_governance-Triple config p now
          (governing_policy (calendar_at now) p.labels policies)).holds;
  }

-- A reconcile serializes the rotations of its pool, whatever policy governs it, whatever it was
-- handed, and whatever calls fail or lag: where the writes of the pool so far are in series from
-- the anchor `a`, and a pool that is read at the present resourceVersion has the annotations that
-- the API server holds, the writes after it are in series too. Each keeps the name of the
-- rotation, takes it away, or puts one where there is none.
pub reconcile-InSeries :
    ⦃text : TimeText⦄ ⦃selectors : Selectors⦄ ⦃formats : Formats⦄ ⦃zones : Zones⦄
    → (a : String) (config : Config) (read : Option (Option PoolRead))
      (listed : Option (List RotationPolicy)) (now : Time) (w : World)
    → InSeries a w
    → ReadCoherently read w
    → InSeries a (reconcile config read listed now w).1
reconcile-InSeries a config read listed now w s c =
    after_any (InSeries a) _ ((reconcile-Keeps a config read listed now).holds w (s, c))
