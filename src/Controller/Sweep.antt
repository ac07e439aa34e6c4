-- ===== src/Controller/Sweep.antt =====
-- internal/controller/sweep.go: the nodes and the claims that no anchor refers to, at the start;
-- Sweep/Cluster has the placeholders, the torn pools and the whole sweep.
pub mod Spares
pub mod Cluster
use node_rotation_controller.Base.{
  String, Bool, true, false, not, ◌&&◌, ◌||◌, Option, none, some, List, [], ◌∷◌, any, Annotations,
  get, has, put, delete, str_eq, Time, if◌then◌else◌,
}
use node_rotation_controller.Annotations.{
  TimeText, state, state_pending, state_draining, state_failed, failed_at, started_at, surge_claim,
  surge_for, cordoned, active_rotation,
}
use node_rotation_controller.NodeOps.{Node, apply_uncordon, apply_unfreeze}
use node_rotation_controller.Controller.World.{NodeClaim, failure, World, Result, ok, M}
use node_rotation_controller.Controller.Api.{
  pure, answer, ◌>>=◌, ◌>>◌, Mutator, Written, gone, vetoed, written, report, patch_node,
  patch_claim_if,
}

-- The set of anchoredClaims, from the annotations of the pools.
unfoldable pub anchored_in : List Annotations → String → Bool
anchored_in pools claim =
    any (λ m. not (str_eq (get m active_rotation) "") && str_eq (get m active_rotation) claim) pools

-- A step whose error is collected, and does not stop the sweep.
abbrev pub collected {ℓ} : {A : Type ℓ} → M A → M (Unit {0})
collected m w = (ok tt, (m w).1)

module _ (anchored : String → Bool) where
  abbrev pub is_kept : Node → Bool
  is_kept n =
      (has n.annotations surge_for && anchored (get n.annotations surge_for))
      || (not (has n.annotations surge_for) && not (has n.annotations cordoned))

  -- The mutator of sweepNodes, on the node that its write reads.
  unfoldable pub sweep_node_edit : Node → Node × Bool
  sweep_node_edit n =
      if is_kept n
      then (n, false)
      else if not (has n.annotations surge_for)
      then apply_uncordon n
      else apply_unfreeze n

  abbrev pub sweep_listed_nodes : List Node → M (Unit {0})
  sweep_listed_nodes [] = pure tt
  sweep_listed_nodes (n ∷ ns) =
      if is_kept n
      then sweep_listed_nodes ns
      else (collected (patch_node n.name sweep_node_edit) >> sweep_listed_nodes ns)

  -- sweepNodes
  unfoldable pub sweep_nodes : Option (List Node) → M (Unit {0})
  sweep_nodes listed = answer listed >>= sweep_listed_nodes

  module _ ⦃text : TimeText⦄ (now : Time) where
    abbrev pub in_flight : Annotations → Bool
    in_flight m = str_eq (get m state) state_pending || str_eq (get m state) state_draining

    -- The edit of sweepClaims, on the claim that its write reads.
    unfoldable pub sweep_claim_edit : Mutator
    sweep_claim_edit m =
        if not (in_flight m)
        then none
        else some (
            delete (delete (put (put m state state_failed) failed_at (text.format now)) started_at)
              surge_claim)

    abbrev pub announce_repair : String → Written → M (Unit {0})
    announce_repair name gone = pure tt
    announce_repair name (vetoed seen) = pure tt
    announce_repair name (written before after) = report (failure name)

    abbrev pub sweep_listed_claims : List NodeClaim → M (Unit {0})
    sweep_listed_claims [] = pure tt
    sweep_listed_claims (c ∷ cs) =
        if not (in_flight c.annotations) || anchored c.name
        then sweep_listed_claims cs
        else (collected (patch_claim_if c.name sweep_claim_edit >>= announce_repair c.name)
            >> sweep_listed_claims cs)

    -- sweepClaims
    unfoldable pub sweep_claims : Option (List NodeClaim) → M (Unit {0})
    sweep_claims listed = answer listed >>= sweep_listed_claims

    -- The end of Sweep.
    unfoldable pub sweep_orphans : Option (List Node) → Option (List NodeClaim) → M (Unit {0})
    sweep_orphans nodes claims = collected (sweep_nodes nodes) >> collected (sweep_claims claims)
