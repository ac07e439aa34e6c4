-- ===== src/Controller/Dispatch/Ordered.antt =====
-- Every handler of rotation_controller.go that deletes the claim of its own rotation does so under a
-- mirror that says draining.
use node_rotation_controller.Base.{
  String, Bool, true, false, Option, none, some, ◌≡◌, refl, get, str_eq_iff, Time, if◌then◌else◌,
}
use node_rotation_controller.Annotations.{TimeText, active_rotation_state, state_draining}
use node_rotation_controller.Surge.Pods.{Pod}
use node_rotation_controller.Controller.World.{NodeClaim, World, M}
use node_rotation_controller.Controller.Reads.{HostNode, Cache, Resolved}
use node_rotation_controller.Controller.Api.{pure, ◌>>◌, patch_pool, delete_claim}
use node_rotation_controller.Controller.Ending.{Requeue, short_requeue, long_requeue}
use node_rotation_controller.Controller.Pending.{
  build_placeholder, make_placeholder, drain_when_ready, escalate, record_surge_claim,
  unless_frozen, protect_and_escalate, start_forceful_fallback,
}
use node_rotation_controller.Controller.Pending.Safe.{
  IsOrdered, IsMarked, IsOrdered-IsLocal, Marks, patch_pool-Triple, delete_claim-Triple, weaken,
  drain_onto-Keeps, start_forceful_fallback-Keeps,
}
use node_rotation_controller.Controller.Dispatch.{put_draining, mirror_draining, advance_draining}
use node_rotation_controller.Controller.Hoare.{
  Triple, bind-Triple, Keeps, pure-Keeps, create_placeholder-Keeps, freeze_node-Keeps,
  cordon_node-Keeps, answer-Keeps, patch_claim_if-Keeps, run-Keeps, after_any,
}
use node_rotation_controller.Controller.Walk.{after-Keeps, when-Keeps, fail-Keeps}

build_placeholder-Keeps :
    (cache : Cache) (cand : NodeClaim) (o : Option (Option HostNode))
    → Keeps IsOrdered (build_placeholder cache cand o)
build_placeholder-Keeps cache cand none = fail-Keeps
build_placeholder-Keeps cache cand (some none) = pure-Keeps tt
build_placeholder-Keeps cache cand (some (some n)) =
    after-Keeps (answer-Keeps IsOrdered-IsLocal _) (λ pods.
      after-Keeps (answer-Keeps IsOrdered-IsLocal _)
        (λ hosts. create_placeholder-Keeps IsOrdered-IsLocal cand.name))

make_placeholder-Keeps :
    (cache : Cache) (cand : NodeClaim) → Keeps IsOrdered (make_placeholder cache cand)
unfolding make_placeholder
make_placeholder-Keeps cache cand =
    when-Keeps _ (pure-Keeps tt) (build_placeholder-Keeps cache cand _)

module _ ⦃text : TimeText⦄ (cache : Cache) (res : Resolved) (cand : NodeClaim)
    (now started : Time) where
  drain_when_ready-Keeps :
      (o : Option String) → Keeps IsOrdered (drain_when_ready cache cand now started o)
  drain_when_ready-Keeps none = pure-Keeps short_requeue
  drain_when_ready-Keeps (some host) = drain_onto-Keeps cache cand now started host

  escalate-Keeps : (o : Option Pod) → Keeps IsOrdered (escalate cache res cand now started o)
  escalate-Keeps none =
      after-Keeps (make_placeholder-Keeps cache cand) (λ u. pure-Keeps short_requeue)
  escalate-Keeps (some ph) = after-Keeps (answer-Keeps IsOrdered-IsLocal _) drain_when_ready-Keeps

  record_surge_claim-Keeps : Keeps IsOrdered (record_surge_claim cache cand)
  record_surge_claim-Keeps = when-Keeps _ (pure-Keeps tt) (
      after-Keeps (answer-Keeps IsOrdered-IsLocal _) (λ found.
        when-Keeps _ (pure-Keeps tt)
          (after-Keeps (patch_claim_if-Keeps IsOrdered-IsLocal cand.name _) (λ r. pure-Keeps tt))))

  unless_frozen-Keeps :
      (b : Bool) {m : M Requeue} → Keeps IsOrdered m → Keeps IsOrdered (unless_frozen b m)
  unless_frozen-Keeps true h = pure-Keeps long_requeue
  unless_frozen-Keeps false h = h

  protect_and_escalate-Keeps : Keeps IsOrdered (protect_and_escalate cache res cand now started)
  unfolding protect_and_escalate
  protect_and_escalate-Keeps =
      after-Keeps (freeze_node-Keeps IsOrdered-IsLocal cand.node_name cand.name) (λ u.
        after-Keeps (cordon_node-Keeps IsOrdered-IsLocal cand.node_name) (λ v.
          after-Keeps record_surge_claim-Keeps (λ r.
            unless_frozen-Keeps _ (after-Keeps (answer-Keeps IsOrdered-IsLocal _) escalate-Keeps))))

-- The pool says draining where the pass was handed one that does.
abbrev IsMirrored : Cache → World → Type 0
IsMirrored cache w =
    get cache.pool active_rotation_state ≡ state_draining
    → get w.pool active_rotation_state ≡ state_draining

put_draining-Marks : Marks put_draining
put_draining-Marks m = refl

mirror_draining-Triple :
    (cache : Cache)
    → Triple IsOrdered
        (λ w. IsOrdered w × IsMirrored cache w)
        (mirror_draining cache)
        (λ u. IsMarked)
mirror_draining-Triple cache =
    by_mirror _ (str_eq_iff (get cache.pool active_rotation_state) state_draining).0
  where
    by_mirror :
        (b : Bool)
        → (b ≡ true → get cache.pool active_rotation_state ≡ state_draining)
        → Triple {0} {A = Unit {0}} IsOrdered
            (λ w. IsOrdered w × IsMirrored cache w)
            (if b then pure tt else (patch_pool put_draining >> pure tt))
            (λ u. IsMarked)
    by_mirror true h = record { holds = λ w p. (p.0, p.1 (h refl)) }
    by_mirror false h = record {
      holds = λ w p.
          (bind-Triple (patch_pool put_draining) _
              (patch_pool-Triple put_draining put_draining-Marks)
              (λ r. weaken (pure tt) (pure-Keeps tt))).holds
            w p.0;
    }

advance_draining-Triple :
    (cache : Cache) (cand : NodeClaim)
    → Triple IsOrdered
        (λ w. IsOrdered w × IsMirrored cache w)
        (advance_draining cache cand)
        (λ r. IsOrdered)
unfolding advance_draining
advance_draining-Triple cache cand =
    bind-Triple (mirror_draining cache) _ (mirror_draining-Triple cache) (λ u.
      bind-Triple (if cand.deleting then pure tt else delete_claim cand.name) _
        (unless_deleting cand.deleting) (λ v. pure-Keeps short_requeue))
  where
    unless_deleting :
        (b : Bool)
        → Triple IsOrdered IsMarked (if b then pure tt else delete_claim cand.name) (λ u. IsOrdered)
    unless_deleting true = record { holds = λ w p. p.0 }
    unless_deleting false = delete_claim-Triple cand.name

-- Whatever fails or lags, the handlers that delete the claim of their own rotation issue that
-- delete only once the pool's mirror durably says draining: a pending attempt, from the protection
-- of its node on, a forceful fallback, and the draining state. It is assumed that the pool that the
-- pass was handed says draining only if the pool itself does.
pub own_delete-IsOrdered :
    ⦃text : TimeText⦄
    → (cache : Cache) (res : Resolved) (cand : NodeClaim) (now started : Time) (w : World)
    → IsOrdered w
    → (get cache.pool active_rotation_state ≡ state_draining
        → get w.pool active_rotation_state ≡ state_draining)
    → IsOrdered (protect_and_escalate cache res cand now started w).1
      × IsOrdered (start_forceful_fallback cand now w).1
      × IsOrdered (advance_draining cache cand w).1
own_delete-IsOrdered cache res cand now started w p h = (
  run-Keeps (protect_and_escalate cache res cand now started)
      (protect_and_escalate-Keeps cache res cand now started) w p,
  run-Keeps (start_forceful_fallback cand now) (start_forceful_fallback-Keeps cand now) w p,
  after_any IsOrdered (advance_draining cache cand w)
      ((advance_draining-Triple cache cand).holds w (p, h)),
)
