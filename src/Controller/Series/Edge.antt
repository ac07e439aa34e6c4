-- ===== src/Controller/Series/Edge.antt =====
-- The edge of the window, in the series of anchors: it leaves a view of the pool that is current or
-- known to be old.
use node_rotation_controller.Base.{String, Bool, refl, Option, none, some, Annotations, Time}
use node_rotation_controller.Annotations.{TimeText}
use node_rotation_controller.Selection.Census.{Census}
use node_rotation_controller.Decide.Window.{
  WindowAction, window_nothing, window_stamp, window_defer, window_settled, window_missed,
  WindowInputs,
}
use node_rotation_controller.Controller.World.{
  NodeClaim, Attempt, goes_through, fails, lags, lags_gone, Effect, pool_written, World, Result, ok,
  err, M,
}
use node_rotation_controller.Controller.World as World
use node_rotation_controller.Controller.Api.{
  pure, ◌>>=◌, ◌>>◌, Mutator, Written, gone, vetoed, written, report, patch_pool_by, pool_through,
  lagging, first_attempt, tick,
}
use node_rotation_controller.Controller.Moves.{
  SettlesIf, IsSettling, edge_clear-IsSettling, edge_put-IsSettling,
}
use node_rotation_controller.Controller.Hoare.{After, Triple, bind-Triple}
use node_rotation_controller.Controller.Edge.{
  PoolView, patch_view_if, keep_view, announce_missed, by_action, evaluate_window_edge,
}
use node_rotation_controller.Controller.Series.{InSeries, IsCoherent, Viewed, InSeries-IsKept}

module _ (a : String) where
  -- After an action that leaves a view of the pool.
  abbrev Views {ℓ} : {A : Type ℓ} → (A → PoolView) → A → World → Type 0
  Views view r = Viewed a (view r)

  abbrev Sees : PoolView × Written → World → Type 0
  Sees = Views (λ r. r.0)

  IsCoherent-now :
      (w : World) → IsCoherent (record { annotations = w.pool; version = some w.version }) w
  IsCoherent-now w e = refl

  -- A view of an old version is never taken for the pool.
  IsCoherent-never :
      (m : Annotations) (w : World) → IsCoherent (record { annotations = m; version = none }) w
  IsCoherent-never m w e = cc

  through-Sees :
      (p : PoolView) (o : Option Annotations) (w : World)
      → SettlesIf w.pool o
      → Viewed a p w
      → After (InSeries a) Sees (keep_view p goes_through (pool_through w.pool o w))
  through-Sees p none w s v = (v.0, λ e. refl)
  through-Sees p (some m) w s v = ((InSeries-IsKept a).on_pool w m s v.0, λ e. refl)

  lagging-Sees :
      (p : PoolView) (b : Bool) (seen : Annotations) (o : Option Annotations) (w : World)
      → Viewed a p w
      → After (InSeries a) Sees (keep_view p (lags b seen) (lagging seen o w))
  lagging-Sees p b seen none w v = (v.0, IsCoherent-never seen w)
  lagging-Sees p b seen (some m) w v = v.0

  patch_view_if-Triple :
      (p : PoolView) (f : Mutator)
      → IsSettling f
      → Triple (InSeries a) (Viewed a p) (patch_view_if p f) Sees
  unfolding patch_view_if
  patch_view_if-Triple p f s = record { holds = λ w v. go w v (first_attempt w.script) }
    where
      go :
          (w : World)
          → Viewed a p w
          → (t : Attempt) → After (InSeries a) Sees (keep_view p t (patch_pool_by t f (tick w)))
      go w v goes_through = through-Sees p (f w.pool) (tick w) (s w.pool) v
      go w v fails = v.0
      go w v (lags b seen) = lagging-Sees p b seen (f seen) (tick w) v
      go w v lags_gone = v.0

  report-Sees :
      (p : PoolView)
      → Triple (InSeries a) (Viewed a p) (report World.window_missed >> pure p) (Viewed a)
  unfolding report ◌>>=◌
  report-Sees p = record { holds = λ w v. v }

  pure-Sees : (p : PoolView) → Triple (InSeries a) (Viewed a p) (pure p) (Viewed a)
  pure-Sees p = record { holds = λ w v. v }

  module _ ⦃text : TimeText⦄ (i : WindowInputs) where
    announce_missed-Triple :
        (r : PoolView × Written) → Triple (InSeries a) (Sees r) (announce_missed r) (Viewed a)
    announce_missed-Triple (p, gone) = pure-Sees p
    announce_missed-Triple (p, vetoed seen) = pure-Sees p
    announce_missed-Triple (p, written before after) = report-Sees p

    by_action-Triple :
        (p : PoolView) (act : WindowAction)
        → Triple (InSeries a) (Viewed a p) (by_action p i act) (Viewed a)
    by_action-Triple p window_nothing = pure-Sees p
    by_action-Triple p window_stamp =
        bind-Triple _ _ (patch_view_if-Triple p _ (edge_put-IsSettling i.now i))
          (λ r. pure-Sees r.0)
    by_action-Triple p window_defer = pure-Sees p
    by_action-Triple p window_settled =
        bind-Triple _ _ (patch_view_if-Triple p _ (edge_clear-IsSettling i.now i))
          (λ r. pure-Sees r.0)
    by_action-Triple p window_missed =
        bind-Triple _ _ (patch_view_if-Triple p _ (edge_clear-IsSettling i.now i))
          announce_missed-Triple

  pub evaluate_window_edge-Triple :
      ⦃text : TimeText⦄
      → (p : PoolView) (in_window : Bool) (now : Time) (census : Census)
      → Triple (InSeries a) (Viewed a p) (evaluate_window_edge p in_window now census) (Viewed a)
  unfolding evaluate_window_edge
  evaluate_window_edge-Triple p in_window now census = by_action-Triple _ p _
