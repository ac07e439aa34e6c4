-- ===== src/Controller/Failing.antt =====
pub mod Recorded
-- failPending, reapSurgeClaim and maxRFC3339: an attempt that ran out of time.
pub mod Reap
use node_rotation_controller.Base.{
  String, Bool, true, false, not, Option, none, some, List, [], ◌∷◌, Annotations, get, put, delete,
  str_eq, ltb_ℤ, pos, ◌+ℤ◌, wrap64, itoa, Time, if◌then◌else◌,
}
use node_rotation_controller.Annotations.{
  TimeText, parse_time, state, state_failed, failed_at, retry_count, started_at, surge_claim,
  last_failure_at,
}
use node_rotation_controller.NodeOps.{Node}
use node_rotation_controller.Selection.{parse_int}
use node_rotation_controller.Surge.Pods.{Pod}
use node_rotation_controller.Surge.Path.{created_by_attempt}
use node_rotation_controller.Controller.World.{NodeClaim, Signal, failure, World, M}
use node_rotation_controller.Controller.Reads.{Cache, Resolved, induced_claim, hosts_real_pods}
use node_rotation_controller.Controller.Api.{
  pure, fail, answer, ◌>>=◌, ◌>>◌, Mutator, Written, gone, vetoed, written, report, patch_pool,
  patch_claim_if, always, delete_claim, delete_placeholder, unfreeze_nodes,
}
use node_rotation_controller.Controller.Anchor.{clear_rotation_anchor_fields}
use node_rotation_controller.Controller.Ending.{Requeue, short_requeue, long_requeue}

-- The node of a claim that is about to be reaped; the absorbing host of other Pods is spared.
abbrev pub reap_unless_used : Resolved → NodeClaim → NodeClaim → Option (List Pod) → M (Unit {0})
reap_unless_used res cand sc none = fail
reap_unless_used res cand sc (some pods) =
    if hosts_real_pods pods sc.node_name res.namespace (res.placeholder_name cand.name)
    then pure tt
    else delete_claim sc.name

abbrev pub reap_new : Cache → Resolved → NodeClaim → NodeClaim → Option Time → M (Unit {0})
reap_new cache res cand sc none = pure tt
reap_new cache res cand sc (some started) =
    if not (created_by_attempt (some sc.created_at) started)
    then pure tt
    else if str_eq sc.node_name ""
    then delete_claim sc.name
    else reap_unless_used res cand sc cache.all_pods

module _ ⦃text : TimeText⦄ where
  abbrev pub reap_found : Cache → Resolved → NodeClaim → Option (Option NodeClaim) → M (Unit {0})
  reap_found cache res cand none = fail
  reap_found cache res cand (some none) = pure tt
  reap_found cache res cand (some (some sc)) =
      reap_new cache res cand sc (parse_time (get cand.annotations started_at))

  -- reapSurgeClaim
  unfoldable pub reap_surge_claim : Cache → Resolved → NodeClaim → String → M (Unit {0})
  reap_surge_claim cache res cand name =
      if str_eq name "" then pure tt else reap_found cache res cand (cache.get_claim name)

  abbrev pub surge_claim_of : Cache → NodeClaim → Option String
  surge_claim_of cache cand =
      if str_eq (get cand.annotations surge_claim) ""
      then induced_claim cache cand
      else some (get cand.annotations surge_claim)

  -- The failed state, with one more attempt counted.
  unfoldable pub failed_edit : Time → Annotations → Annotations
  failed_edit now m =
      delete
        (delete
          (put (put (put m state state_failed) failed_at (text.format now)) retry_count
            (itoa (wrap64 (parse_int (get m retry_count) +ℤ pos 1))))
          started_at)
        surge_claim

  -- The pause between attempts, and the release of the anchor.
  unfoldable pub release_failed : Time → Annotations → Annotations
  release_failed now m = clear_rotation_anchor_fields (put m last_failure_at (text.format now))

  abbrev pub after_failure : String → Time → Written → M Requeue
  after_failure name now gone = pure short_requeue
  after_failure name now (vetoed seen) = pure short_requeue
  after_failure name now (written before after) =
      report (failure name) >> (patch_pool (release_failed now) >> pure long_requeue)

  -- From the write of the failed state on.
  unfoldable pub record_failure : String → Time → M Requeue
  record_failure name now = do
    w ← patch_claim_if name (always (failed_edit now))
    after_failure name now w

  -- failPending
  unfoldable pub fail_pending : Cache → Resolved → NodeClaim → Time → M Requeue
  fail_pending cache res cand now = do
    name ← answer (surge_claim_of cache cand)
    reap_surge_claim cache res cand name
    delete_placeholder cand.name
    unfreeze_nodes cache.surge_nodes cand.name
    record_failure cand.name now

  abbrev later_text : String → String → Option Time → Option Time → String
  later_text a b none tb = b
  later_text a b (some ta) none = a
  later_text a b (some ta) (some tb) = if ltb_ℤ ta tb then b else a

  -- maxRFC3339
  unfoldable pub max_rfc3339 : String → String → String
  max_rfc3339 a b = later_text a b (parse_time a) (parse_time b)
