-- ===== src/Controller/Walk.antt =====
-- The ends of a rotation keep what the single calls keep.
pub mod Handlers
pub mod Turns
use node_rotation_controller.Base.{
  ℕ, zero, suc, String, Bool, true, false, not, ◌&&◌, ◌||◌, ◌≡◌, refl, Option, none, some, List,
  Annotations, get, put, str_eq, ltb_ℤ, Time, Duration, sub_time, if◌then◌else◌,
}
use node_rotation_controller.Annotations.{
  TimeText, parse_time, state, state_pending, state_draining, state_failed, state_expired,
  started_at, surge_claim, active_rotation, active_rotation_state, draining_at,
}
use node_rotation_controller.NodeOps.{Node}
use node_rotation_controller.Decide.{frozen}
use node_rotation_controller.Surge.Pods.{Pod}
use node_rotation_controller.Surge.Path.{created_by_attempt}
use node_rotation_controller.Controller.World.{
  NodeClaim, Attempt, goes_through, fails, lags, lags_gone, Signal, success, expired, failure,
  forceful_fallback, surge_wait_observed, drain_observed, pool_written, claim_deleted, reported,
  World, Result, ok, err, M,
}
use node_rotation_controller.Controller.Reads.{
  HostNode, Cache, Resolved, time_or_zero, surge_ready, surge_path_for, induced_claim,
  hosts_real_pods,
}
use node_rotation_controller.Controller.Api.{
  pure, fail, answer, ◌>>=◌, ◌>>◌, Mutator, Written, gone, vetoed, written, report, patch_pool,
  patch_pool_if, patch_pool_by, pool_through, lagging, always, patch_claim, patch_claim_if,
  delete_claim, delete_by, delete_found, set_claim, delete_placeholder, create_placeholder,
  freeze_node, cordon_node, unfreeze_nodes, tick, note, first_attempt,
}
use node_rotation_controller.Controller.Anchor.{
  clear_rotation_anchor_fields, clear_anchor, Expiry, expiry_gone, expiry_raced, expiry_already,
  expiry_claimed, mark_expired, expire_edit,
}
use node_rotation_controller.Controller.Ending.{
  Requeue, short_requeue, long_requeue, complete_edit, observe_drain, announce, complete_or_abort,
  clean_up, advance_expired, after_expiry, forget_attempt, abort_pending_expiry, expire_failed,
}
use node_rotation_controller.Controller.Pending.{
  build_placeholder, make_placeholder, claim_draining, pending_edit, surge_draining_edit,
  fallback_draining_edit, drain_onto, drain_when_ready, escalate, persist_surge_claim,
  record_surge_claim, unless_frozen, protect_and_escalate, start_forceful_fallback,
}
use node_rotation_controller.Controller.Failing.{
  reap_unless_used, reap_new, reap_found, reap_surge_claim, surge_claim_of, failed_edit,
  release_failed, after_failure, record_failure, fail_pending,
}
use node_rotation_controller.Controller.Dispatch.{
  put_draining, mirror_draining, advance_draining, reenter_edit, begin_again, reenter,
  due_for_retry, repair_edit, retry_or_release, advance_failed, time_out_or_go, pending_written,
  advance_pending, dispatch, advance_found, advance,
}
use node_rotation_controller.Controller.Moves.{
  SettlesIf, Settles, IsSettling, put_draining-IsSettling, clear-IsSettling,
  complete_edit-IsSettling, release_failed-IsSettling, surge_draining_edit-IsSettling,
  fallback_draining_edit-IsSettling, repair_edit-IsSettling,
}
use node_rotation_controller.Controller.Hoare.{
  After, Triple, bind-Triple, Keeps, IsLocal, pure-Keeps, delete_placeholder-Keeps,
  create_placeholder-Keeps, freeze_node-Keeps, cordon_node-Keeps, unfreeze_nodes-Keeps,
  answer-Keeps, patch_claim_if-Keeps,
}

-- A property of a world that every call of a handler keeps: a write of the pool where it starts no
-- rotation.
pub record IsKept (P : World → Type 0) : Type 0 where
  pub local : IsLocal P
  pub on_report : (w : World) (s : Signal) → P w → P (note (reported s) w)
  pub on_delete :
      (w : World) (name mirror : String) (cs : String → Option NodeClaim)
      → P w
      → P (note (claim_deleted name mirror) (record w { claims = cs }))
  pub on_pool :
      (w : World) (m : Annotations)
      → Settles w.pool m
      → P w
      → P (note (pool_written m) (record w { pool = m; version = suc w.version }))

module _ {P : World → Type 0} where
  pub after-Keeps {ℓ κ} :
      {A : Type ℓ} {B : Type κ} {m : M A} {f : A → M B}
      → Keeps P m
      → ((a : A) → Keeps P (f a))
      → Keeps P (m >>= f)
  after-Keeps {m = m} {f} h k = bind-Triple m f h k

  pub when-Keeps {ℓ} :
      {A : Type ℓ} (b : Bool) {m n : M A} → Keeps P m → Keeps P n → Keeps P (if b then m else n)
  when-Keeps true h k = h
  when-Keeps false h k = k

  pub fail-Keeps {ℓ} : {A : Type ℓ} → Keeps P (fail {A = A})
  fail-Keeps = record { holds = λ w p. p }

module _ {P : World → Type 0} (k : IsKept P) where
  pub report-Keeps : (s : Signal) → Keeps P (report s)
  unfolding report
  report-Keeps s = record { holds = λ w p. k.on_report w s p }

  pub delete_claim-Keeps : (name : String) → Keeps P (delete_claim name)
  unfolding delete_claim
  delete_claim-Keeps name = record { holds = λ w p. go w p (first_attempt w.script) }
    where
      found : (w : World) → P w → (o : Option NodeClaim) → After P (λ u. P) (delete_found name o w)
      found w p none = p
      found w p (some c) = k.on_delete w name _ _ p

      go : (w : World) → P w → (a : Attempt) → After P (λ u. P) (delete_by a name (tick w))
      go w p goes_through = found (tick w) (k.local.on_tick w p) (w.claims name)
      go w p fails = k.local.on_tick w p
      go w p (lags b s) = found (tick w) (k.local.on_tick w p) (w.claims name)
      go w p lags_gone = found (tick w) (k.local.on_tick w p) (w.claims name)

  pool_through-Keeps :
      (o : Option Annotations) (w : World)
      → SettlesIf w.pool o
      → P w
      → After P (λ r. P) (pool_through w.pool o w)
  pool_through-Keeps none w s p = p
  pool_through-Keeps (some m) w s p = k.on_pool w m s p

  lagging_pool-Keeps :
      (seen : Annotations) (o : Option Annotations) (w : World)
      → P w
      → After P (λ r. P) (lagging seen o w)
  lagging_pool-Keeps seen none w p = p
  lagging_pool-Keeps seen (some m) w p = p

  pub patch_pool_by-Keeps :
      (f : Mutator) (a : Attempt) (w : World)
      → IsSettling f
      → P w
      → After P (λ r. P) (patch_pool_by a f w)
  patch_pool_by-Keeps f goes_through w s p = pool_through-Keeps (f w.pool) w (s w.pool) p
  patch_pool_by-Keeps f fails w s p = p
  patch_pool_by-Keeps f (lags b seen) w s p = lagging_pool-Keeps seen (f seen) w p
  patch_pool_by-Keeps f lags_gone w s p = p

  pub patch_pool_if-Keeps : (f : Mutator) → IsSettling f → Keeps P (patch_pool_if f)
  unfolding patch_pool_if
  patch_pool_if-Keeps f s = record {
    holds = λ w p. patch_pool_by-Keeps f (first_attempt w.script) (tick w) s (k.local.on_tick w p);
  }

  pub clear_anchor-Keeps : Keeps P clear_anchor
  unfolding clear_anchor
  clear_anchor-Keeps = patch_pool_if-Keeps _ clear-IsSettling

  pub clean_up-Keeps :
      (name : String) (listed : Option (List Node)) → Keeps P (clean_up name listed)
  unfolding clean_up
  clean_up-Keeps name listed = after-Keeps (delete_placeholder-Keeps k.local name) (λ u.
      after-Keeps (unfreeze_nodes-Keeps k.local listed name)
        (λ v. after-Keeps clear_anchor-Keeps (λ r. pure-Keeps long_requeue)))

  mark_expired-Keeps :
      (name : String) (extra : Annotations → Annotations) (allowed : List String)
      → Keeps P (mark_expired name extra allowed)
  unfolding mark_expired
  mark_expired-Keeps name extra allowed =
      after-Keeps (patch_claim_if-Keeps k.local name _) (λ r. pure-Keeps _)

  after_expiry-Keeps :
      (name : String) {rest : M Requeue} (e : Expiry)
      → Keeps P rest
      → Keeps P (after_expiry name rest e)
  after_expiry-Keeps name expiry_gone h = pure-Keeps short_requeue
  after_expiry-Keeps name expiry_raced h = pure-Keeps short_requeue
  after_expiry-Keeps name expiry_already h = h
  after_expiry-Keeps name expiry_claimed h = after-Keeps (report-Keeps (expired name)) (λ u. h)

  abort_pending_expiry-Keeps :
      (name : String) (listed : Option (List Node)) → Keeps P (abort_pending_expiry name listed)
  unfolding abort_pending_expiry
  abort_pending_expiry-Keeps name listed =
      after-Keeps (mark_expired-Keeps name _ _)
        (λ e. after_expiry-Keeps name e (clean_up-Keeps name listed))

  expire_failed-Keeps : (name : String) → Keeps P (expire_failed name)
  unfolding expire_failed
  expire_failed-Keeps name = after-Keeps (mark_expired-Keeps name _ _) (λ e.
      after_expiry-Keeps name e (after-Keeps clear_anchor-Keeps (λ r. pure-Keeps long_requeue)))

  module _ ⦃text : TimeText⦄ (name : String) (now : Time) where
    observe_drain-Keeps : (o : Option Time) → Keeps P (observe_drain o now)
    observe_drain-Keeps none = pure-Keeps tt
    observe_drain-Keeps (some at) = report-Keeps (drain_observed (sub_time now at))

    announce-Keeps : (r : Written) → Keeps P (announce name now r)
    announce-Keeps gone = pure-Keeps long_requeue
    announce-Keeps (vetoed seen) = pure-Keeps long_requeue
    announce-Keeps (written before after) =
        when-Keeps _
          (after-Keeps (report-Keeps success)
            (λ u. after-Keeps (observe_drain-Keeps _) (λ v. pure-Keeps long_requeue)))
          (after-Keeps (report-Keeps (expired name)) (λ u. pure-Keeps long_requeue))

    complete_or_abort-Keeps :
        (listed : Option (List Node)) → Keeps P (complete_or_abort name now listed)
    unfolding complete_or_abort
    complete_or_abort-Keeps listed = after-Keeps (delete_placeholder-Keeps k.local name) (λ u.
        after-Keeps (unfreeze_nodes-Keeps k.local listed name) (λ v.
          after-Keeps (patch_pool_if-Keeps _ (complete_edit-IsSettling now name)) announce-Keeps))
