-- ===== src/Controller/Pending/Safe.antt =====
-- The mirror on the NodePool says draining before the claim of a rotation is deleted.
use node_rotation_controller.Base.{
  String, Option, none, some, ◌≡◌, All, Annotations, get, Time, Duration, sub_time, arith,
}
use node_rotation_controller.Annotations.{TimeText, active_rotation_state, state_draining}
use node_rotation_controller.Controller.World.{
  NodeClaim, Attempt, goes_through, fails, lags, lags_gone, Signal, forceful_fallback, Effect,
  claim_deleted, World, Result, ok, err, M,
}
use node_rotation_controller.Controller.Reads.{Cache, surge_path_for}
use node_rotation_controller.Controller.Api.{
  pure, ◌>>◌, report, patch_pool, patch_pool_if, patch_pool_by, always, patch_claim, delete_claim,
  delete_by, delete_found, freeze_node, tick, first_attempt,
}
use node_rotation_controller.Controller.Ending.{short_requeue}
use node_rotation_controller.Controller.Pending.{
  surge_draining_edit, fallback_draining_edit, drain_onto, start_forceful_fallback, claim_draining,
}
use node_rotation_controller.Controller.Hoare.{
  After, Triple, bind-Triple, Keeps, IsLocal, pure-Keeps, freeze_node-Keeps, patch_claim_if-Keeps,
}

-- A delete is in order where the mirror that it was issued under says draining.
abbrev pub InOrder : Effect → Type 0
InOrder (claim_deleted name mirror) = mirror ≡ state_draining
InOrder _ = Unit

abbrev pub IsOrdered : World → Type 0
IsOrdered w = All InOrder w.effects

abbrev pub IsMarked : World → Type 0
IsMarked w = IsOrdered w × (get w.pool active_rotation_state ≡ state_draining)

abbrev pub IsOrdered-IsLocal : IsLocal IsOrdered
IsOrdered-IsLocal = record {
  on_tick = λ w p. p;
  on_node = λ w a ns p. (tt, p);
  on_create = λ w a ps p. (tt, p);
  on_drop = λ w a ps p. (tt, p);
  on_claim = λ w a c m p. (tt, p);
}

abbrev IsMarked-IsLocal : IsLocal IsMarked
IsMarked-IsLocal = record {
  on_tick = λ w p. p;
  on_node = λ w a ns p. ((tt, p.0), p.1);
  on_create = λ w a ps p. ((tt, p.0), p.1);
  on_drop = λ w a ps p. ((tt, p.0), p.1);
  on_claim = λ w a c m p. ((tt, p.0), p.1);
}

-- An edit that marks the pool.
abbrev pub Marks : (Annotations → Annotations) → Type 0
Marks f = (m : Annotations) → get (f m) active_rotation_state ≡ state_draining

pub patch_pool-Triple :
    (f : Annotations → Annotations)
    → Marks f
    → Triple IsOrdered IsOrdered (patch_pool f) (λ r. IsMarked)
unfolding patch_pool_if
patch_pool-Triple f h = record { holds = λ w p. go w p (first_attempt w.script) }
  where
    go :
        (w : World)
        → IsOrdered w
        → (a : Attempt) → After IsOrdered (λ r. IsMarked) (patch_pool_by a (always f) (tick w))
    go w p goes_through = ((tt, p), h w.pool)
    go w p fails = p
    go w p (lags b s) = p
    go w p lags_gone = p

pub weaken {ℓ} :
    {A : Type ℓ} (m : M A) → Keeps IsMarked m → Triple IsOrdered IsMarked m (λ a. IsMarked)
weaken {A = A} m h = record { holds = λ w p. go (m w) (h.holds w p) }
  where
    go :
        (r : Result A × World)
        → After IsMarked (λ a. IsMarked) r
        → After IsOrdered (λ a. IsMarked) r
    go (ok a, w) p = p
    go (err, w) p = p.0

report-Keeps : (s : Signal) → Keeps IsMarked (report s)
unfolding report
report-Keeps s = record { holds = λ w p. ((tt, p.0), p.1) }

-- A delete under the mark is in order.
pub delete_claim-Triple :
    (name : String) → Triple IsOrdered IsMarked (delete_claim name) (λ u. IsOrdered)
unfolding delete_claim
delete_claim-Triple name = record { holds = λ w p. go w p (first_attempt w.script) }
  where
    found :
        (w : World)
        → IsMarked w
        → (o : Option NodeClaim) → After IsOrdered (λ u. IsOrdered) (delete_found name o w)
    found w p none = p.0
    found w p (some c) = (p.1, p.0)

    go :
        (w : World)
        → IsMarked w
        → (a : Attempt) → After IsOrdered (λ u. IsOrdered) (delete_by a name (tick w))
    go w p goes_through = found (tick w) p (w.claims name)
    go w p fails = p.0
    go w p (lags b s) = found (tick w) p (w.claims name)
    go w p lags_gone = found (tick w) p (w.claims name)

-- The mark, the claim's state, the signal and the delete.
drain-Keeps :
    (f : Annotations → Annotations) (name : String) (s : Signal)
    → Marks f
    → Keeps IsOrdered (do
      patch_pool f
      patch_claim name claim_draining
      report s
      delete_claim name
      pure short_requeue)
drain-Keeps f name s h = bind-Triple (patch_pool f) _ (patch_pool-Triple f h) (λ r.
    bind-Triple (patch_claim name claim_draining) _
      (weaken _ (patch_claim_if-Keeps IsMarked-IsLocal name (always claim_draining)))
      (λ v. bind-Triple (report s) _ (weaken _ (report-Keeps s)) (λ u.
        bind-Triple (delete_claim name) _ (delete_claim-Triple name)
          (λ u'. pure-Keeps short_requeue))))

module _ ⦃text : TimeText⦄ (now : Time) where
  surge_draining_edit-Marks :
      (wait : Duration) (path : String) → Marks (surge_draining_edit now wait path)
  unfolding surge_draining_edit
  surge_draining_edit-Marks wait path m = ground arith

  fallback_draining_edit-Marks : Marks (fallback_draining_edit now)
  unfolding fallback_draining_edit
  fallback_draining_edit-Marks m = ground arith

-- From a Ready host on, a surge rotation deletes its claim in order.
pub drain_onto-Keeps :
    ⦃text : TimeText⦄
    → (cache : Cache) (cand : NodeClaim) (now started : Time) (host : String)
    → Keeps IsOrdered (drain_onto cache cand now started host)
unfolding drain_onto
drain_onto-Keeps cache cand now started host =
    bind-Triple (freeze_node host cand.name) _ (freeze_node-Keeps IsOrdered-IsLocal host cand.name)
      (λ u.
        drain-Keeps _ cand.name _ (
          surge_draining_edit-Marks now (sub_time now started) (surge_path_for cache host started)))

-- So does a forceful fallback.
pub start_forceful_fallback-Keeps :
    ⦃text : TimeText⦄
    → (cand : NodeClaim) (now : Time) → Keeps IsOrdered (start_forceful_fallback cand now)
unfolding start_forceful_fallback
start_forceful_fallback-Keeps cand now =
    drain-Keeps (fallback_draining_edit now) cand.name (forceful_fallback cand.name)
      (fallback_draining_edit-Marks now)
