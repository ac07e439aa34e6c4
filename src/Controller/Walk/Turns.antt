-- ===== src/Controller/Walk/Turns.antt =====
-- The turns of advance keep what the single calls keep.
use node_rotation_controller.Base.{
  ℕ, zero, suc, String, Bool, true, false, Option, none, some, List, Time,
}
use node_rotation_controller.Annotations.{TimeText}
use node_rotation_controller.Surge.Pods.{Pod}
use node_rotation_controller.Controller.World.{NodeClaim, failure, World, M}
use node_rotation_controller.Controller.Reads.{Cache, Resolved}
use node_rotation_controller.Controller.Api.{Written, gone, vetoed, written}
use node_rotation_controller.Controller.Ending.{
  Requeue, short_requeue, long_requeue, advance_expired,
}
use node_rotation_controller.Controller.Failing.{
  reap_unless_used, reap_new, reap_found, reap_surge_claim, after_failure, record_failure,
  fail_pending,
}
use node_rotation_controller.Controller.Dispatch.{
  advance_draining, begin_again, reenter, retry_or_release, advance_failed, time_out_or_go,
  pending_written, advance_pending, dispatch, advance_found, advance,
}
use node_rotation_controller.Controller.Moves.{
  put_draining-IsSettling, release_failed-IsSettling, repair_edit-IsSettling,
}
use node_rotation_controller.Controller.Hoare.{
  Keeps, pure-Keeps, delete_placeholder-Keeps, unfreeze_nodes-Keeps, answer-Keeps,
  patch_claim_if-Keeps,
}
use node_rotation_controller.Controller.Walk.{
  IsKept, after-Keeps, when-Keeps, fail-Keeps, report-Keeps, delete_claim-Keeps,
  patch_pool_if-Keeps, clean_up-Keeps, abort_pending_expiry-Keeps, expire_failed-Keeps,
  complete_or_abort-Keeps,
}
use node_rotation_controller.Controller.Walk.Handlers.{protect_and_escalate-Keeps}

module _ {P : World → Type 0} (k : IsKept P) where
  module _ (cache : Cache) (res : Resolved) (cand : NodeClaim) where
    reap_unless_used-Keeps :
        (sc : NodeClaim) (o : Option (List Pod)) → Keeps P (reap_unless_used res cand sc o)
    reap_unless_used-Keeps sc none = fail-Keeps
    reap_unless_used-Keeps sc (some pods) =
        when-Keeps _ (pure-Keeps tt) (delete_claim-Keeps k sc.name)

    reap_new-Keeps : (sc : NodeClaim) (o : Option Time) → Keeps P (reap_new cache res cand sc o)
    reap_new-Keeps sc none = pure-Keeps tt
    reap_new-Keeps sc (some started) =
        when-Keeps _ (pure-Keeps tt)
          (when-Keeps _ (delete_claim-Keeps k sc.name) (reap_unless_used-Keeps sc cache.all_pods))

    reap_found-Keeps :
        ⦃text : TimeText⦄ → (o : Option (Option NodeClaim)) → Keeps P (reap_found cache res cand o)
    reap_found-Keeps none = fail-Keeps
    reap_found-Keeps (some none) = pure-Keeps tt
    reap_found-Keeps (some (some sc)) = reap_new-Keeps sc _

    reap_surge_claim-Keeps :
        ⦃text : TimeText⦄ → (name : String) → Keeps P (reap_surge_claim cache res cand name)
    unfolding reap_surge_claim
    reap_surge_claim-Keeps name =
        when-Keeps _ (pure-Keeps tt) (reap_found-Keeps (cache.get_claim name))

  module _ ⦃text : TimeText⦄ (now : Time) where
    after_failure-Keeps : (name : String) (r : Written) → Keeps P (after_failure name now r)
    after_failure-Keeps name gone = pure-Keeps short_requeue
    after_failure-Keeps name (vetoed seen) = pure-Keeps short_requeue
    after_failure-Keeps name (written before after) =
        after-Keeps (report-Keeps k (failure name)) (λ u.
          after-Keeps (patch_pool_if-Keeps k _ (release_failed-IsSettling now))
            (λ r. pure-Keeps long_requeue))

    record_failure-Keeps : (name : String) → Keeps P (record_failure name now)
    unfolding record_failure
    record_failure-Keeps name =
        after-Keeps (patch_claim_if-Keeps k.local name _) (after_failure-Keeps name)

    fail_pending-Keeps :
        (cache : Cache) (res : Resolved) (cand : NodeClaim)
        → Keeps P (fail_pending cache res cand now)
    unfolding fail_pending
    fail_pending-Keeps cache res cand = after-Keeps (answer-Keeps k.local _) (λ name.
        after-Keeps (reap_surge_claim-Keeps cache res cand name) (λ u.
          after-Keeps (delete_placeholder-Keeps k.local cand.name) (λ v.
            after-Keeps (unfreeze_nodes-Keeps k.local cache.surge_nodes cand.name)
              (λ r. record_failure-Keeps cand.name))))

  advance_draining-Keeps :
      (cache : Cache) (cand : NodeClaim) → Keeps P (advance_draining cache cand)
  unfolding advance_draining
  advance_draining-Keeps cache cand =
      after-Keeps
        (when-Keeps _ (pure-Keeps tt)
          (after-Keeps (patch_pool_if-Keeps k _ put_draining-IsSettling) (λ r. pure-Keeps tt)))
        (λ u.
          after-Keeps (when-Keeps cand.deleting (pure-Keeps tt) (delete_claim-Keeps k cand.name))
            (λ v. pure-Keeps short_requeue))

  begin_again-Keeps :
      {again : M Requeue} (r : Written) → Keeps P again → Keeps P (begin_again again r)
  begin_again-Keeps gone h = pure-Keeps short_requeue
  begin_again-Keeps (vetoed seen) h = pure-Keeps short_requeue
  begin_again-Keeps (written before after) h = h

  module _ ⦃text : TimeText⦄ (cache : Cache) (res : Resolved) (now : Time) where
    retry_or_release-Keeps :
        (cand : NodeClaim) {again : M Requeue} (b : Bool)
        → Keeps P again
        → Keeps P (retry_or_release cand b again)
    unfolding reenter
    retry_or_release-Keeps cand true h =
        after-Keeps (patch_claim_if-Keeps k.local cand.name _) (λ r. begin_again-Keeps r h)
    retry_or_release-Keeps cand false h =
        after-Keeps (patch_pool_if-Keeps k _ (repair_edit-IsSettling now cand))
          (λ r. pure-Keeps long_requeue)

    advance_failed-Keeps :
        (cand : NodeClaim) {again : M Requeue}
        → Keeps P again
        → Keeps P (advance_failed cache res cand now again)
    unfolding advance_failed
    advance_failed-Keeps cand h =
        when-Keeps _ (expire_failed-Keeps k cand.name)
          (after-Keeps (answer-Keeps k.local cache.fits) (λ fits. retry_or_release-Keeps cand _ h))

    time_out_or_go-Keeps :
        (started : Time) (o : Option NodeClaim) → Keeps P (time_out_or_go cache res now started o)
    time_out_or_go-Keeps started none = pure-Keeps long_requeue
    time_out_or_go-Keeps started (some cand) =
        when-Keeps _ (fail_pending-Keeps now cache res cand)
          (protect_and_escalate-Keeps k cache res cand now started)

    pending_written-Keeps : (r : Written) → Keeps P (pending_written cache res now r)
    pending_written-Keeps gone = pure-Keeps short_requeue
    pending_written-Keeps (vetoed seen) = pure-Keeps short_requeue
    pending_written-Keeps (written before after) =
        after-Keeps (answer-Keeps k.local cache.reread) (time_out_or_go-Keeps _)

    advance_pending-Keeps : (cand : NodeClaim) → Keeps P (advance_pending cache res cand now)
    unfolding advance_pending
    advance_pending-Keeps cand =
        when-Keeps _ (abort_pending_expiry-Keeps k cand.name cache.surge_nodes)
          (after-Keeps (patch_claim_if-Keeps k.local cand.name _) pending_written-Keeps)

    dispatch-Keeps :
        (cand : NodeClaim) {again : M Requeue}
        → Keeps P again
        → Keeps P (dispatch cache res cand now again)
    unfolding dispatch advance_expired
    dispatch-Keeps cand h = when-Keeps _ (advance_pending-Keeps cand) (
        when-Keeps _ (advance_draining-Keeps cache cand) (
          when-Keeps _ (advance_failed-Keeps cand h) (
            when-Keeps _ (clean_up-Keeps k cand.name cache.surge_nodes) (pure-Keeps long_requeue))))

    advance_found-Keeps :
        (name : String) {again : M Requeue} (o : Option (Option NodeClaim))
        → Keeps P again
        → Keeps P (advance_found cache res name now again o)
    advance_found-Keeps name none h = fail-Keeps
    advance_found-Keeps name (some none) h = complete_or_abort-Keeps k name now cache.surge_nodes
    advance_found-Keeps name (some (some cand)) h = dispatch-Keeps cand h

  pub advance-Keeps :
      ⦃text : TimeText⦄
      → (turns : ℕ) (caches : ℕ → Cache) (res : Resolved) (name : String) (now : Time)
      → Keeps P (advance turns caches res name now)
  unfolding advance
  advance-Keeps zero caches res name now = fail-Keeps
  advance-Keeps (suc turns) caches res name now =
      advance_found-Keeps (caches 0) res now name _
        (advance-Keeps turns (λ i. caches (suc i)) res name now)
