-- ===== src/Controller/Pending.antt =====
pub mod Safe
-- advancePending, createPlaceholder and startForcefulFallback: the way to the drain.
use node_rotation_controller.Base.{
  String, Bool, true, false, not, ◌||◌, Option, none, some, List, [], ◌∷◌, Annotations, get, put,
  str_eq, ltb_ℤ, Time, Duration, sub_time, if◌then◌else◌,
}
use node_rotation_controller.Annotations.{
  TimeText, parse_time, state, state_pending, state_draining, started_at, surge_claim,
  active_rotation_state, draining_at, surge_wait, surge_path, rotation_mode,
  rotation_mode_forceful_fallback,
}
use node_rotation_controller.Decide.{frozen}
use node_rotation_controller.Surge.Pods.{Pod}
use node_rotation_controller.Controller.World.{
  NodeClaim, Signal, surge_wait_observed, forceful_fallback, World, M,
}
use node_rotation_controller.Controller.Reads.{
  HostNode, Cache, Resolved, time_or_zero, surge_ready, surge_path_for, induced_claim,
}
use node_rotation_controller.Controller.Api.{
  pure, fail, answer, ◌>>=◌, ◌>>◌, Mutator, Written, gone, vetoed, written, report, patch_pool,
  patch_claim, patch_claim_if, delete_claim, create_placeholder, freeze_node, cordon_node,
}
use node_rotation_controller.Controller.Ending.{Requeue, short_requeue, long_requeue}

-- The node of the candidate, the Pods and the hosts to avoid are read before the Pod is built.
abbrev pub build_placeholder : Cache → NodeClaim → Option (Option HostNode) → M (Unit {0})
build_placeholder cache cand none = fail
build_placeholder cache cand (some none) = pure tt
build_placeholder cache cand (some (some n)) = do
  pods ← answer cache.all_pods
  excluded ← answer cache.excluded_hosts
  create_placeholder cand.name

-- createPlaceholder
unfoldable pub make_placeholder : Cache → NodeClaim → M (Unit {0})
make_placeholder cache cand =
    if str_eq cand.node_name ""
    then pure tt
    else build_placeholder cache cand (cache.get_node cand.node_name)

abbrev pub claim_draining : Annotations → Annotations
claim_draining m = put m state state_draining

module _ ⦃text : TimeText⦄ where
  abbrev stamp_once : String → Time → Annotations → Annotations
  stamp_once key now m = if str_eq (get m key) "" then put m key (text.format now) else m

  -- The assertion of the pending state, and of started-at where it is not set.
  unfoldable pub pending_edit : Time → Mutator
  pending_edit now m =
      if not (str_eq (get m state) "" || str_eq (get m state) state_pending)
      then none
      else some (stamp_once started_at now (put m state state_pending))

  abbrev put_path : String → Annotations → Annotations
  put_path path m = if str_eq path "" then m else put m surge_path path

  -- The durable phase of the surge path, with what the completion reports.
  unfoldable pub surge_draining_edit : Time → Duration → String → Annotations → Annotations
  surge_draining_edit now wait path m =
      let m' = put m active_rotation_state state_draining in
      if str_eq (get m' draining_at) ""
      then put_path path (put (put m' draining_at (text.format now)) surge_wait (text.show wait))
      else m'

  unfoldable pub fallback_draining_edit : Time → Annotations → Annotations
  fallback_draining_edit now m = stamp_once draining_at now (
      put (put m active_rotation_state state_draining) rotation_mode
        rotation_mode_forceful_fallback)

  -- From a Ready host on: the host is protected, the phase recorded, and the claim deleted.
  unfoldable pub drain_onto : Cache → NodeClaim → Time → Time → String → M Requeue
  drain_onto cache cand now started host = do
    freeze_node host cand.name
    patch_pool (surge_draining_edit now (sub_time now started) (surge_path_for cache host started))
    patch_claim cand.name claim_draining
    report (surge_wait_observed (sub_time now started))
    delete_claim cand.name
    pure short_requeue

  abbrev pub drain_when_ready : Cache → NodeClaim → Time → Time → Option String → M Requeue
  drain_when_ready cache cand now started none = pure short_requeue
  drain_when_ready cache cand now started (some host) = drain_onto cache cand now started host

  -- The part that the freeze of the pool holds back.
  abbrev pub escalate : Cache → Resolved → NodeClaim → Time → Time → Option Pod → M Requeue
  escalate cache res cand now started none = do make_placeholder cache cand; pure short_requeue
  escalate cache res cand now started (some ph) = do
    ready ← answer (surge_ready cache res.pool_name cand ph)
    drain_when_ready cache cand now started ready

  abbrev pub persist_surge_claim : String → String → M (Unit {0})
  persist_surge_claim name found =
      if str_eq found ""
      then pure tt
      else (patch_claim name (λ m. put m surge_claim found) >> pure tt)

  abbrev pub record_surge_claim : Cache → NodeClaim → M (Unit {0})
  record_surge_claim cache cand =
      if not (str_eq (get cand.annotations surge_claim) "")
      then pure tt
      else (answer (induced_claim cache cand) >>= persist_surge_claim cand.name)

  abbrev pub unless_frozen : Bool → M Requeue → M Requeue
  unless_frozen true rest = pure long_requeue
  unless_frozen false rest = rest

  -- From the protection of the candidate's node on.
  unfoldable pub protect_and_escalate : Cache → Resolved → NodeClaim → Time → Time → M Requeue
  protect_and_escalate cache res cand now started = do
    freeze_node cand.node_name cand.name
    cordon_node cand.node_name
    record_surge_claim cache cand
    unless_frozen (frozen cache.pool now)
        (do ph ← answer (cache.get_placeholder cand.name); escalate cache res cand now started ph)

  -- startForcefulFallback
  unfoldable pub start_forceful_fallback : NodeClaim → Time → M Requeue
  start_forceful_fallback cand now = do
    patch_pool (fallback_draining_edit now)
    patch_claim cand.name claim_draining
    report (forceful_fallback cand.name)
    delete_claim cand.name
    pure short_requeue
