-- ===== src/Controller/Ending.antt =====
pub mod Once
-- The ends of a rotation: completion, force-expiry, clean-up, and the reap of an ungoverned pool.
use node_rotation_controller.Base.{
  String, Bool, true, false, not, Option, none, some, List, [], ◌∷◌, Annotations, get, put, delete,
  str_eq, Time, Duration, sub_time, if◌then◌else◌,
}
use node_rotation_controller.Annotations.{
  TimeText, parse_time, state, state_pending, state_draining, state_failed, started_at, surge_claim,
  active_rotation, active_rotation_state, draining_at, last_rotation_at,
}
use node_rotation_controller.NodeOps.{Node}
use node_rotation_controller.Controller.World.{
  NodeClaim, Signal, success, expired, drain_observed, M,
}
use node_rotation_controller.Controller.Api.{
  pure, fail, answer, ◌>>=◌, ◌>>◌, Mutator, Written, gone, vetoed, written, report, patch_pool_if,
  delete_placeholder, unfreeze_nodes,
}
use node_rotation_controller.Controller.Anchor.{
  clear_rotation_anchor_fields, clear_anchor, clear_anchor_if, Expiry, expiry_gone, expiry_raced,
  expiry_already, expiry_claimed, mark_expired,
}

pub data Requeue : Type 0 where
  short_requeue long_requeue : Requeue

module _ ⦃text : TimeText⦄ where
  -- The edit of completeOrAbort: only the pass that still finds its anchor ends the rotation.
  abbrev pub complete_edit : String → Time → Mutator
  complete_edit name now m =
      if not (str_eq (get m active_rotation) name)
      then none
      else some (
          clear_rotation_anchor_fields (
            if str_eq (get m active_rotation_state) state_draining
            then put m last_rotation_at (text.format now)
            else m))

  abbrev pub observe_drain : Option Time → Time → M (Unit {0})
  observe_drain none now = pure tt
  observe_drain (some at) now = report (drain_observed (sub_time now at))

  -- What is announced, from the read that the write was validated against.
  abbrev pub announce : String → Time → Written → M Requeue
  announce name now gone = pure long_requeue
  announce name now (vetoed seen) = pure long_requeue
  announce name now (written before after) =
      if str_eq (get before active_rotation_state) state_draining
      then (report success
          >> (observe_drain (parse_time (get before draining_at)) now >> pure long_requeue))
      else (report (expired name) >> pure long_requeue)

  -- completeOrAbort
  unfoldable pub complete_or_abort : String → Time → Option (List Node) → M Requeue
  complete_or_abort name now listed = do
    delete_placeholder name
    unfreeze_nodes listed name
    w ← patch_pool_if (complete_edit name now)
    announce name now w

-- The clean-up and the release of the anchor.
unfoldable pub clean_up : String → Option (List Node) → M Requeue
clean_up name listed = do
  delete_placeholder name
  unfreeze_nodes listed name
  clear_anchor
  pure long_requeue

-- advanceExpired
unfoldable pub advance_expired : String → Option (List Node) → M Requeue
advance_expired = clean_up

abbrev pub forget_attempt : Annotations → Annotations
forget_attempt m = delete (delete m started_at) surge_claim

abbrev pub after_expiry : String → M Requeue → Expiry → M Requeue
after_expiry name rest expiry_gone = pure short_requeue
after_expiry name rest expiry_raced = pure short_requeue
after_expiry name rest expiry_already = rest
after_expiry name rest expiry_claimed = report (expired name) >> rest

-- abortPendingExpiry
unfoldable pub abort_pending_expiry : String → Option (List Node) → M Requeue
abort_pending_expiry name listed = do
  e ← mark_expired name forget_attempt ("" ∷ state_pending ∷ [])
  after_expiry name (clean_up name listed) e

-- The branch of advanceFailed for a claim that is being deleted.
unfoldable pub expire_failed : String → M Requeue
expire_failed name = do
  e ← mark_expired name (λ m. m) (state_failed ∷ [])
  after_expiry name (clear_anchor >> pure long_requeue) e

-- reapUngovernedRotation, from the annotations `seen` of the pool that the pass was handed.
unfoldable pub reap_ungoverned_rotation : Annotations → Option (List Node) → M (Unit {0})
reap_ungoverned_rotation seen listed =
    let claim = get seen active_rotation in
    if str_eq claim ""
    then pure tt
    else do delete_placeholder claim; unfreeze_nodes listed claim; clear_anchor_if claim; pure tt
