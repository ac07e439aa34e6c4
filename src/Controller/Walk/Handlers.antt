-- ===== src/Controller/Walk/Handlers.antt =====
-- The handlers of a rotation in flight keep what the single calls keep.
use node_rotation_controller.Base.{String, Bool, true, false, Option, none, some, Annotations, Time}
use node_rotation_controller.Annotations.{TimeText}
use node_rotation_controller.Surge.Pods.{Pod}
use node_rotation_controller.Controller.World.{NodeClaim, Signal, World, M}
use node_rotation_controller.Controller.Reads.{HostNode, Cache, Resolved}
use node_rotation_controller.Controller.Api.{
  pure, ◌>>◌, report, patch_pool, always, patch_claim, delete_claim,
}
use node_rotation_controller.Controller.Ending.{Requeue, short_requeue, long_requeue}
use node_rotation_controller.Controller.Pending.{
  build_placeholder, make_placeholder, claim_draining, drain_onto, drain_when_ready, escalate,
  record_surge_claim, unless_frozen, protect_and_escalate, start_forceful_fallback,
}
use node_rotation_controller.Controller.Moves.{
  IsSettling, surge_draining_edit-IsSettling, fallback_draining_edit-IsSettling,
}
use node_rotation_controller.Controller.Hoare.{
  Keeps, pure-Keeps, create_placeholder-Keeps, freeze_node-Keeps, cordon_node-Keeps, answer-Keeps,
  patch_claim_if-Keeps,
}
use node_rotation_controller.Controller.Walk.{
  IsKept, after-Keeps, when-Keeps, fail-Keeps, report-Keeps, delete_claim-Keeps,
  patch_pool_if-Keeps,
}

module _ {P : World → Type 0} (k : IsKept P) ⦃text : TimeText⦄ where
  patch_claim-Keeps : (name : String) (f : Annotations → Annotations) → Keeps P (patch_claim name f)
  patch_claim-Keeps name f = patch_claim_if-Keeps k.local name (always f)

  -- The claim's state, the signal and the delete that end a start of a drain.
  hand_over-Keeps :
      (f : Annotations → Annotations) (name : String) (s : Signal)
      → IsSettling (always f)
      → Keeps P (do
        patch_pool f
        patch_claim name claim_draining
        report s
        delete_claim name
        pure short_requeue)
  hand_over-Keeps f name s h = after-Keeps (patch_pool_if-Keeps k (always f) h) (λ r.
      after-Keeps (patch_claim-Keeps name claim_draining) (λ v.
        after-Keeps (report-Keeps k s)
          (λ u. after-Keeps (delete_claim-Keeps k name) (λ u'. pure-Keeps short_requeue))))

  pub start_forceful_fallback-Keeps :
      (cand : NodeClaim) (now : Time) → Keeps P (start_forceful_fallback cand now)
  unfolding start_forceful_fallback
  start_forceful_fallback-Keeps cand now =
      hand_over-Keeps _ cand.name _ (fallback_draining_edit-IsSettling now)

  build_placeholder-Keeps :
      (cache : Cache) (cand : NodeClaim) (o : Option (Option HostNode))
      → Keeps P (build_placeholder cache cand o)
  build_placeholder-Keeps cache cand none = fail-Keeps
  build_placeholder-Keeps cache cand (some none) = pure-Keeps tt
  build_placeholder-Keeps cache cand (some (some n)) =
      after-Keeps (answer-Keeps k.local cache.all_pods) (λ pods.
        after-Keeps (answer-Keeps k.local cache.excluded_hosts)
          (λ hosts. create_placeholder-Keeps k.local cand.name))

  make_placeholder-Keeps :
      (cache : Cache) (cand : NodeClaim) → Keeps P (make_placeholder cache cand)
  unfolding make_placeholder
  make_placeholder-Keeps cache cand =
      when-Keeps _ (pure-Keeps tt) (build_placeholder-Keeps cache cand _)

  module _ (cache : Cache) (res : Resolved) (cand : NodeClaim) (now started : Time) where
    drain_onto-Keeps : (host : String) → Keeps P (drain_onto cache cand now started host)
    unfolding drain_onto
    drain_onto-Keeps host =
        after-Keeps (freeze_node-Keeps k.local host cand.name)
          (λ u. hand_over-Keeps _ cand.name _ (surge_draining_edit-IsSettling now _ _))

    drain_when_ready-Keeps :
        (o : Option String) → Keeps P (drain_when_ready cache cand now started o)
    drain_when_ready-Keeps none = pure-Keeps short_requeue
    drain_when_ready-Keeps (some host) = drain_onto-Keeps host

    escalate-Keeps : (o : Option Pod) → Keeps P (escalate cache res cand now started o)
    escalate-Keeps none =
        after-Keeps (make_placeholder-Keeps cache cand) (λ u. pure-Keeps short_requeue)
    escalate-Keeps (some ph) = after-Keeps (answer-Keeps k.local _) drain_when_ready-Keeps

    record_surge_claim-Keeps : Keeps P (record_surge_claim cache cand)
    record_surge_claim-Keeps = when-Keeps _ (pure-Keeps tt) (
        after-Keeps (answer-Keeps k.local _) (λ found.
          when-Keeps _ (pure-Keeps tt)
            (after-Keeps (patch_claim-Keeps cand.name _) (λ r. pure-Keeps tt))))

    unless_frozen-Keeps : (b : Bool) {m : M Requeue} → Keeps P m → Keeps P (unless_frozen b m)
    unless_frozen-Keeps true h = pure-Keeps long_requeue
    unless_frozen-Keeps false h = h

    pub protect_and_escalate-Keeps : Keeps P (protect_and_escalate cache res cand now started)
    unfolding protect_and_escalate
    protect_and_escalate-Keeps =
        after-Keeps (freeze_node-Keeps k.local cand.node_name cand.name) (λ u.
          after-Keeps (cordon_node-Keeps k.local cand.node_name) (λ v.
            after-Keeps record_surge_claim-Keeps
              (λ r. unless_frozen-Keeps _ (after-Keeps (answer-Keeps k.local _) escalate-Keeps))))
