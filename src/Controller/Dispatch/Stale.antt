-- ===== src/Controller/Dispatch/Stale.antt =====
-- advancePending on a stale read of the claim.
use node_rotation_controller.Base.{
  String, Bool, false, ◌||◌, Option, none, some, ◌≡◌, refl, get, str_eq, Time, Annotations,
  if◌then◌else◌,
}
use node_rotation_controller.Annotations.{TimeText, state, state_pending}
use node_rotation_controller.Controller.World.{
  NodeClaim, Attempt, goes_through, fails, lags, lags_gone, World, Result, M,
}
use node_rotation_controller.Controller.Reads.{Cache, Resolved}
use node_rotation_controller.Controller.Api.{
  ◌>>=◌, continue, Written, patch_claim_if, patch_claim_by, claim_read, claim_through, lagging,
  tick, first_attempt,
}
use node_rotation_controller.Controller.Ending.{Requeue}
use node_rotation_controller.Controller.Pending.{pending_edit}
use node_rotation_controller.Controller.Dispatch.{pending_written, advance_pending}

module _ ⦃text : TimeText⦄ (cache : Cache) (res : Resolved) (now : Time) where
  abbrev goes_on : Result Written × World → Result Requeue × World
  goes_on (r, w) = continue r (pending_written cache res now) w

  lagging_idle :
      (s : Annotations) (w : World) (o : Option Annotations) → (goes_on (lagging s o w)).1 ≡ w
  lagging_idle s w none = refl
  lagging_idle s w (some m) = refl

  moved_idle :
      (name : String) (c : NodeClaim) (w : World)
      → (str_eq (get c.annotations state) "" || str_eq (get c.annotations state) state_pending)
        ≡ false
      → (goes_on (claim_through name c (pending_edit now c.annotations) w)).1 ≡ w
  unfolding pending_edit
  moved_idle name c w e = rw e refl

-- The pending handler, on a claim that it does not see being deleted, does nothing where the
-- claim's durable state has moved on from pending: no write, no delete, no Pod and no report,
-- whatever its other reads say.
pub advance_pending_stale :
    ⦃text : TimeText⦄
    → (cache : Cache) (res : Resolved) (cand c : NodeClaim) (now : Time) (w : World)
    → cand.deleting ≡ false
    → w.claims cand.name ≡ some c
    → (str_eq (get c.annotations state) "" || str_eq (get c.annotations state) state_pending)
      ≡ false
    → (advance_pending cache res cand now w).1 ≡ tick w
unfolding advance_pending ◌>>=◌ patch_claim_if
advance_pending_stale cache res cand c now w alive here moved =
    whole _ _ cand.deleting alive (go (first_attempt w.script))
  where
    read :
        (o : Option NodeClaim)
        → o ≡ some c
        → (goes_on cache res now (claim_read cand.name o (pending_edit now) (tick w))).1 ≡ tick w
    read o e = rw e (moved_idle cache res now cand.name c (tick w) moved)

    go :
        (a : Attempt)
        → (goes_on cache res now (patch_claim_by a cand.name (pending_edit now) (tick w))).1
          ≡ tick w
    go goes_through = read (w.claims cand.name) here
    go fails = refl
    go (lags b s) = lagging_idle cache res now s (tick w) (pending_edit now s)
    go lags_gone = refl

    whole :
        (m n : M Requeue) (b : Bool)
        → b ≡ false
        → (n w).1 ≡ tick w
        → ((if b then m else n) w).1 ≡ tick w
    whole m n b e h = rw e h
