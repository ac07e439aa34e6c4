-- ===== src/Surge/Sizing/Whole.antt =====
-- placeholderSizing with the reservation of whole nodes.
use node_rotation_controller.Base.{ℕ, suc, String, true, false, ◌≡◌, sym, subst, ◌⊎◌, some, List}
use node_rotation_controller.Surge.Pods.{Pod, census_on_node}
use node_rotation_controller.Surge.Quantity.{
  Quantities, ResourceList, is_positive, lookup, reschedulable_requests, daemon_set_requests,
}
use node_rotation_controller.Surge.Clamp.{provisionable_limit, clamp}
use node_rotation_controller.Surge.WholeNode.{cpu, memory, whole_node}
use node_rotation_controller.Surge.WholeNode.Reserved.{IsAll, whole_node-IsAll}
use node_rotation_controller.Surge.Sizing.{Candidate, placeholder_sizing}

module _ ⦃q : Quantities⦄ (requests : Pod → ResourceList) (pods : List Pod) (cand : Candidate)
    (n : String) (limit : q.Quantity) where
  abbrev daemons : ResourceList
  daemons = daemon_set_requests requests pods cand.node_name

  abbrev SizedFor : ℕ → Type 0
  SizedFor k =
      let asked =
        whole_node (reschedulable_requests requests pods cand.node_name) cand.allocatable daemons
          k in
      (clamp asked cand.allocatable daemons).refused ≡ false
      → IsAll limit (lookup n (clamp asked cand.allocatable daemons).requests)

  sized_for :
      (k j : ℕ)
      → j ≡ suc k
      → (n ≡ cpu) ⊎ (n ≡ memory)
      → provisionable_limit cand.allocatable daemons n ≡ some limit
      → is_positive limit ≡ true
      → SizedFor j
  sized_for k j e w known p = subst SizedFor (sym e) (
      whole_node-IsAll (reschedulable_requests requests pods cand.node_name) cand.allocatable
        daemons k n limit w known p)

-- A whole-node placeholder takes the whole node: where the census counts a Pod of the candidate's
-- node that must land again, the CPU or the memory that a fresh node can provide, besides what
-- its daemon sets take, is known and positive, and the clamp does not refuse, the placeholder
-- asks for exactly that much of it.
pub placeholder_sizing-IsAll :
    ⦃q : Quantities⦄
    → (requests : Pod → ResourceList) (pods : List Pod) (cand : Candidate) (n : String)
      (limit : q.Quantity) (k : ℕ)
    → (census_on_node pods cand.node_name).counted ≡ suc k
    → (n ≡ cpu) ⊎ (n ≡ memory)
    → provisionable_limit cand.allocatable (daemon_set_requests requests pods cand.node_name) n
      ≡ some limit
    → is_positive limit ≡ true
    → (placeholder_sizing requests pods true cand).1.refused ≡ false
    → IsAll limit (lookup n (placeholder_sizing requests pods true cand).1.requests)
unfolding placeholder_sizing
placeholder_sizing-IsAll requests pods cand n limit k e w known p h =
    sized_for requests pods cand n limit k _ e w known p h
