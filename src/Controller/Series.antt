-- ===== src/Controller/Series.antt =====
-- The anchor of a NodePool goes from one claim to another only by way of none.
pub mod Begin
pub mod Edge
pub mod Pass
use node_rotation_controller.Base.{
  ℕ, suc, String, Bool, true, false, not, ◌==◌, ◌≡◌, ◌⊎◌, inl, inr, refl, sym, ap, ◌∙◌, arith,
  Option, none, some, List, [], ◌∷◌, Annotations, get, put, str_eq, str_eq_iff, Bool-cases, Time,
  if◌then◌else◌,
}
use node_rotation_controller.Annotations.{TimeText, active_rotation}
use node_rotation_controller.NodeOps.{Node}
use node_rotation_controller.Selection
use node_rotation_controller.Selection.{Claim}
use node_rotation_controller.Selection.Census.{Census}
use node_rotation_controller.Decide.Window.{
  WindowAction, window_nothing, window_stamp, window_defer, window_settled, window_missed,
  WindowInputs, window_edge,
}
use node_rotation_controller.Controller.World.{
  NodeClaim, Attempt, goes_through, fails, lags, lags_gone, Effect, pool_written, World, Result, ok,
  err, M,
}
use node_rotation_controller.Controller.World as World
use node_rotation_controller.Controller.Reads.{Cache, Resolved}
use node_rotation_controller.Controller.Resolve.{PoolSpec, Calendar}
use node_rotation_controller.Controller.Api.{
  pure, answer, ◌>>=◌, Mutator, Written, gone, vetoed, written, report, patch_pool_by, pool_through,
  lagging, first_attempt, tick, note,
}
use node_rotation_controller.Controller.Ending.{Requeue, long_requeue}
use node_rotation_controller.Controller.Moves.{
  Moves, stays, released, taken, Settles, kept, cleared, SettlesIf, IsSettling,
  edge_clear-IsSettling, edge_put-IsSettling,
}
use node_rotation_controller.Controller.Hoare.{
  After, Triple, bind-Triple, Keeps, IsLocal, pure-Keeps, answer-Keeps, run-Keeps,
}
use node_rotation_controller.Controller.Walk.{IsKept, after-Keeps, when-Keeps, fail-Keeps}
use node_rotation_controller.Controller.Walk.Handlers.{start_forceful_fallback-Keeps}
use node_rotation_controller.Controller.Walk.Turns.{advance-Keeps}
use node_rotation_controller.Controller.Edge.{
  PoolView, patch_view_if, keep_view, view_after, version_after, edge_edit, clear_stamp, put_stamp,
  announce_missed, by_action, evaluate_window_edge,
}
use node_rotation_controller.Controller.Start.{
  Anchored, anchored, conflict, is_current, put_anchor, anchor_through, anchor_by, anchor_rotation,
  holding, begin, anchor_and_begin, if_it_fits, start_picked, start_pick, try_start, drive_or_start,
  reconcile_listed, reconcile_node_pool,
}

-- The anchor that the writes leave, from the first to the last.
abbrev pub anchor_after : String → List Effect → String
anchor_after a [] = a
anchor_after a (pool_written m ∷ es) = get m active_rotation
anchor_after a (e ∷ es) = anchor_after a es

-- Each write of the pool keeps the name of the rotation, takes it away, or puts one where there is
-- none.
abbrev pub IsSerial : String → List Effect → Type 0
IsSerial a [] = Unit
IsSerial a (pool_written m ∷ es) = Moves (anchor_after a es) (get m active_rotation) × IsSerial a es
IsSerial a (e ∷ es) = IsSerial a es

-- What was written so far, and the pool that it leaves.
abbrev pub InSeries : String → World → Type 0
InSeries a w = IsSerial a w.effects × (get w.pool active_rotation ≡ anchor_after a w.effects)

-- An update under a resourceVersion replaces what was read at that version.
abbrev pub IsCoherent : PoolView → World → Type 0
IsCoherent p w = is_current p.version w.version ≡ true → p.annotations ≡ w.pool

Moves-from : {a b c : String} → a ≡ b → Moves a c → Moves b c
Moves-from e (stays p) = stays (p ∙ e)
Moves-from e (released p) = released p
Moves-from e (taken p) = taken (sym e ∙ p)

Settles-Moves :
    (m m' : Annotations) → Settles m m' → Moves (get m active_rotation) (get m' active_rotation)
Settles-Moves m m' (kept p) = stays p
Settles-Moves m m' (cleared p) = released p

module _ (a : String) where
  pub InSeries-IsKept : IsKept (InSeries a)
  InSeries-IsKept = record {
    local = record {
      on_tick = λ w p. p;
      on_node = λ w n ns p. p;
      on_create = λ w n ps p. p;
      on_drop = λ w n ps p. p;
      on_claim = λ w n c m p. p;
    };
    on_report = λ w s p. p;
    on_delete = λ w n m cs p. p;
    on_pool = λ w m s p. ((Moves-from p.1 (Settles-Moves w.pool m s), p.0), refl);
  }

  -- The series, and a view of the pool that an update may rest on.
  abbrev pub Viewed : PoolView → World → Type 0
  Viewed p w = InSeries a w × IsCoherent p w

  is_current_same : (v : ℕ) → is_current (some v) v ≡ true
  is_current_same v = ground arith

  put_through :
      (p : PoolView) (name : String) (w : World) (b : Bool)
      → is_current p.version w.version ≡ b
      → get p.annotations active_rotation ≡ ""
      → Viewed p w
      → After (InSeries a) (λ r. InSeries a) (anchor_through b (put_anchor name p.annotations) w)
  put_through p name w false e h v = v.0
  put_through p name w true e h v =
      ((taken (sym v.0.1 ∙ ap (λ m. get m active_rotation) (sym (v.1 e)) ∙ h), v.0.0), refl)

  pub anchor_rotation-Triple :
      (p : PoolView) (name : String)
      → get p.annotations active_rotation ≡ ""
      → Triple (InSeries a) (Viewed p) (anchor_rotation p name) (λ r. InSeries a)
  unfolding anchor_rotation
  anchor_rotation-Triple p name h = record { holds = λ w v. go w v (first_attempt w.script) }
    where
      go :
          (w : World)
          → Viewed p w
          → (t : Attempt) → After (InSeries a) (λ r. InSeries a) (anchor_by t p name (tick w))
      go w v goes_through = put_through p name (tick w) _ refl h v
      go w v fails = v.0
      go w v (lags b s) = put_through p name (tick w) _ refl h v
      go w v lags_gone = put_through p name (tick w) _ refl h v

  pub weaken {ℓ} :
      {A : Type ℓ} (p : PoolView) {m : M A}
      → Keeps (InSeries a) m
      → Triple (InSeries a) (Viewed p) m (λ r. InSeries a)
  weaken p h = record { holds = λ w v. h.holds w v.0 }
