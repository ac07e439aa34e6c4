-- ===== src/Controller/Edge.antt =====
-- evaluateWindowEdge: the record of a window's opening, and the report of one that was lost.
use node_rotation_controller.Base.{
  ℕ, Bool, true, false, not, ◌||◌, Option, none, some, Annotations, get, put, delete, str_eq, Time,
  if◌then◌else◌,
}
use node_rotation_controller.Annotations.{TimeText, window_opened_at}
use node_rotation_controller.Selection.Census.{Census}
use node_rotation_controller.Decide.Window.{
  WindowAction, window_nothing, window_stamp, window_defer, window_settled, window_missed,
  WindowInputs, window_edge,
}
use node_rotation_controller.Controller.World.{
  Attempt, goes_through, fails, lags, Signal, World, Result, ok, err, M,
}
use node_rotation_controller.Controller.World as World
use node_rotation_controller.Controller.Api.{
  pure, ◌>>=◌, ◌>>◌, Mutator, Written, gone, vetoed, written, report, patch_pool_by, first_attempt,
  tick,
}

-- The pool as a pass holds it, with the resourceVersion; `none` is one known to be old.
pub record PoolView : Type 0 where
  pub annotations : Annotations
  pub version : Option ℕ

abbrev pub version_after : Attempt → ℕ → Option ℕ
version_after goes_through v = some v
version_after _ v = none

abbrev pub view_after : PoolView → Attempt → Written → ℕ → PoolView
view_after p a gone v = p
view_after p a (vetoed seen) v = record { annotations = seen; version = version_after a v }
view_after p a (written before after) v = record {
  annotations = after;
  version = version_after a v;
}

abbrev pub keep_view :
    PoolView → Attempt → Result Written × World → Result (PoolView × Written) × World
keep_view p a (ok r, w) = (ok (view_after p a r w.version, r), w)
keep_view p a (err, w) = (err, w)

-- patchPoolIf, with what it leaves in the caller's pool.
unfoldable pub patch_view_if : PoolView → Mutator → M (PoolView × Written)
patch_view_if p f w =
    keep_view p (first_attempt w.script) (patch_pool_by (first_attempt w.script) f (tick w))

abbrev pub same_action : WindowAction → WindowAction → Bool
same_action window_nothing window_nothing = true
same_action window_stamp window_stamp = true
same_action window_defer window_defer = true
same_action window_settled window_settled = true
same_action window_missed window_missed = true
same_action _ _ = false

module _ ⦃text : TimeText⦄ where
  -- The verdict, and the stamp that it was given on, are asserted anew on the read of the write.
  unfoldable pub edge_edit : WindowInputs → (Annotations → Annotations) → Mutator
  edge_edit i apply m =
      if not (same_action (window_edge (record i { annotations = m })) (window_edge i))
        || not (str_eq (get m window_opened_at) (get i.annotations window_opened_at))
      then none
      else some (apply m)

  abbrev pub clear_stamp : Annotations → Annotations
  clear_stamp m = delete m window_opened_at

  abbrev pub put_stamp : Time → Annotations → Annotations
  put_stamp now m = put m window_opened_at (text.format now)

  -- Only the pass whose write took the stamp away reports the loss.
  abbrev pub announce_missed : PoolView × Written → M PoolView
  announce_missed (p, written before after) = report World.window_missed >> pure p
  announce_missed (p, other) = pure p

  abbrev pub by_action : PoolView → WindowInputs → WindowAction → M PoolView
  by_action p i window_stamp = do r ← patch_view_if p (edge_edit i (put_stamp i.now)); pure r.0
  by_action p i window_settled = do r ← patch_view_if p (edge_edit i clear_stamp); pure r.0
  by_action p i window_missed = patch_view_if p (edge_edit i clear_stamp) >>= announce_missed
  by_action p i window_nothing = pure p
  by_action p i window_defer = pure p

  -- evaluateWindowEdge
  unfoldable pub evaluate_window_edge : PoolView → Bool → Time → Census → M PoolView
  evaluate_window_edge p in_window now census =
      let i : WindowInputs = record {
        now = now;
        in_window = in_window;
        annotations = p.annotations;
        census = census;
      } in
      by_action p i (window_edge i)
