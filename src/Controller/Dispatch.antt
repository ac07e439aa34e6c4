-- ===== src/Controller/Dispatch.antt =====
-- advance and the handlers that it dispatches to by the state of the claim. A re-entry reads the
-- claim anew, so that a run has a cache for each turn.
pub mod Turns
pub mod Stale
pub mod Ordered
use node_rotation_controller.Base.{
  ℕ, zero, suc, String, Bool, true, false, not, ◌&&◌, ◌||◌, Option, none, some, List, [], ◌∷◌,
  Annotations, get, put, str_eq, ltb_ℤ, leb_ℤ, Time, Duration, sub_time, is_zero_time, pos,
  if◌then◌else◌,
}
use node_rotation_controller.Annotations.{
  TimeText, parse_time, state, state_pending, state_draining, state_failed, state_expired,
  failed_at, retry_count, active_rotation_state, last_failure_at, started_at,
}
use node_rotation_controller.Selection.{parse_int}
use node_rotation_controller.Selection.Backoff.{effective_backoff}
use node_rotation_controller.Decide.{Inputs, start_gate}
use node_rotation_controller.Controller.World.{NodeClaim, World, M}
use node_rotation_controller.Controller.Reads.{Cache, Resolved, time_or_zero}
use node_rotation_controller.Controller.Api.{
  pure, fail, answer, ◌>>=◌, ◌>>◌, Mutator, Written, gone, vetoed, written, patch_pool,
  patch_claim_if, delete_claim,
}
use node_rotation_controller.Controller.Anchor.{clear_rotation_anchor_fields}
use node_rotation_controller.Controller.Ending.{
  Requeue, short_requeue, long_requeue, complete_or_abort, advance_expired, abort_pending_expiry,
  expire_failed,
}
use node_rotation_controller.Controller.Pending.{pending_edit, protect_and_escalate}
use node_rotation_controller.Controller.Failing.{fail_pending, max_rfc3339}

abbrev pub put_draining : Annotations → Annotations
put_draining m = put m active_rotation_state state_draining

-- The mirror on the pool, where the pass was handed one that says otherwise.
abbrev pub mirror_draining : Cache → M (Unit {0})
mirror_draining cache =
    if str_eq (get cache.pool active_rotation_state) state_draining
    then pure tt
    else (patch_pool put_draining >> pure tt)

-- advanceDraining
unfoldable pub advance_draining : Cache → NodeClaim → M Requeue
advance_draining cache cand = do
  mirror_draining cache
  if cand.deleting then pure tt else delete_claim cand.name
  pure short_requeue

-- gateInputs
unfoldable pub gate_inputs : Cache → Resolved → Time → Inputs
gate_inputs cache res now = record {
  now = now;
  in_window = res.in_window;
  annotations = cache.pool;
  cooldown = res.cooldown;
  failure_pause = res.failure_pause;
  fallback_enabled = res.fallback_enabled;
  ready_timeout = res.ready_timeout;
  drain_bound = res.drain_bound;
}

-- effectiveBackoff: no occurrence is two zero times.
unfoldable pub backoff_of : Resolved → Time → Annotations → Duration
backoff_of res at m = elim res.occurrence [
  | none ↦ effective_backoff (parse_int (get m retry_count)) res.retry_backoff at (pos 0) (pos 0)
  | some (s, e) ↦ effective_backoff (parse_int (get m retry_count)) res.retry_backoff at s e
]

-- The edit that begins a new attempt of a failed claim.
unfoldable pub reenter_edit : Mutator
reenter_edit m =
    if not (str_eq (get m state) state_failed) then none else some (put m state state_pending)

abbrev pub begin_again : M Requeue → Written → M Requeue
begin_again again gone = pure short_requeue
begin_again again (vetoed seen) = pure short_requeue
begin_again again (written before after) = again

-- The new attempt of a failed claim; `again` is the turn that follows.
unfoldable pub reenter : String → M Requeue → M Requeue
reenter name again = do w ← patch_claim_if name reenter_edit; begin_again again w

module _ ⦃text : TimeText⦄ where
  -- Everything a fresh start must pass, but for the headroom.
  unfoldable pub due_for_retry : Cache → Resolved → NodeClaim → Time → Bool
  due_for_retry cache res cand now =
      let at = time_or_zero (get cand.annotations failed_at) in
      (start_gate (gate_inputs cache res now)).0
      && (not res.static_pool
          && (not res.fatal && leb_ℤ (backoff_of res at cand.annotations) (sub_time now at)))

  -- The repair of a torn failure write keeps the later pause.
  unfoldable pub repair_edit : NodeClaim → Annotations → Annotations
  repair_edit cand m =
      clear_rotation_anchor_fields (
        put m last_failure_at
          (max_rfc3339 (get m last_failure_at) (get cand.annotations failed_at)))

  abbrev pub retry_or_release : NodeClaim → Bool → M Requeue → M Requeue
  retry_or_release cand true again = reenter cand.name again
  retry_or_release cand false again = patch_pool (repair_edit cand) >> pure long_requeue

  -- advanceFailed
  unfoldable pub advance_failed : Cache → Resolved → NodeClaim → Time → M Requeue → M Requeue
  advance_failed cache res cand now again =
      if cand.deleting
      then expire_failed cand.name
      else (answer cache.fits >>= λ fits.
          retry_or_release cand (due_for_retry cache res cand now && fits) again)

  -- The check of readyTimeout, against the started-at of the write.
  abbrev pub time_out_or_go : Cache → Resolved → Time → Time → Option NodeClaim → M Requeue
  time_out_or_go cache res now started none = pure long_requeue
  time_out_or_go cache res now started (some cand) =
      if ltb_ℤ res.ready_timeout (sub_time now started)
      then fail_pending cache res cand now
      else protect_and_escalate cache res cand now started

  abbrev pub pending_written : Cache → Resolved → Time → Written → M Requeue
  pending_written cache res now gone = pure short_requeue
  pending_written cache res now (vetoed seen) = pure short_requeue
  pending_written cache res now (written before after) =
      answer cache.reread >>= time_out_or_go cache res now (time_or_zero (get after started_at))

  -- advancePending
  unfoldable pub advance_pending : Cache → Resolved → NodeClaim → Time → M Requeue
  advance_pending cache res cand now =
      if cand.deleting
      then abort_pending_expiry cand.name cache.surge_nodes
      else (patch_claim_if cand.name (pending_edit now) >>= pending_written cache res now)

  -- The switch of advance.
  unfoldable pub dispatch : Cache → Resolved → NodeClaim → Time → M Requeue → M Requeue
  dispatch cache res cand now again =
      let st = get cand.annotations state in
      if str_eq st "" || str_eq st state_pending
      then advance_pending cache res cand now
      else if str_eq st state_draining
      then advance_draining cache cand
      else if str_eq st state_failed
      then advance_failed cache res cand now again
      else if str_eq st state_expired
      then advance_expired cand.name cache.surge_nodes
      else pure long_requeue

  abbrev pub advance_found :
      Cache → Resolved → String → Time → M Requeue → Option (Option NodeClaim) → M Requeue
  advance_found cache res name now again none = fail
  advance_found cache res name now again (some none) = complete_or_abort name now cache.surge_nodes
  advance_found cache res name now again (some (some cand)) = dispatch cache res cand now again

  -- advance, with at most so many turns; turn i reads the cache `caches i`.
  unfoldable pub advance : ℕ → (ℕ → Cache) → Resolved → String → Time → M Requeue
  advance zero caches res name now = fail
  advance (suc turns) caches res name now =
      let again = advance turns (λ i. caches (suc i)) res name now in
      advance_found (caches 0) res name now again ((caches 0).get_claim name)
