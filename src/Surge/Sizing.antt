-- ===== src/Surge/Sizing.antt =====
-- placeholderSizing, candidateRequests and headroom of rotation_controller.go: what the
-- placeholder of a claim asks for, and whether the pool has room for it.
pub mod Whole
use node_rotation_controller.Base.{
  String, Bool, Option, none, some, List, [], str_eq, if◌then◌else◌,
}
use node_rotation_controller.Surge.Pods.{Pod, census_on_node}
use node_rotation_controller.Surge.Quantity.{
  Quantities, ResourceList, reschedulable_requests, daemon_set_requests,
}
use node_rotation_controller.Surge.Clamp.{ClampResult, unclamped, clamp}
use node_rotation_controller.Surge.WholeNode.{whole_node}
use node_rotation_controller.Surge.Headroom.{HeadroomResult, headroom}

module _ ⦃q : Quantities⦄ where
  -- The fields of the claim's status that are read.
  pub record Candidate : Type 0 where
    pub node_name : String
    pub allocatable : ResourceList

  -- placeholderSizing, from the requests of each Pod.
  unfoldable pub placeholder_sizing :
      (Pod → ResourceList) → List Pod → Bool → Candidate → ResourceList × ClampResult
  placeholder_sizing requests pods reserve_whole_node cand =
      let drain = reschedulable_requests requests pods cand.node_name in
      let daemons = daemon_set_requests requests pods cand.node_name in
      let counted = (census_on_node pods cand.node_name).counted in
      let asked =
        (if reserve_whole_node then whole_node drain cand.allocatable daemons counted else drain) in
      (drain, clamp asked cand.allocatable daemons)

  abbrev sized : (Pod → ResourceList) → Option (List Pod) → Bool → Candidate → Option ClampResult
  sized requests none reserve cand = none
  sized requests (some pods) reserve cand = some (placeholder_sizing requests pods reserve cand).1

  -- candidateRequests
  unfoldable pub candidate_requests :
      (Pod → ResourceList) → Option (List Pod) → Bool → Candidate → Option ClampResult
  candidate_requests requests listed reserve cand =
      if str_eq cand.node_name "" then some (unclamped []) else sized requests listed reserve cand

  abbrev with_headroom :
      ResourceList → ResourceList → Option ClampResult → Option (HeadroomResult × ClampResult)
  with_headroom limits used none = none
  with_headroom limits used (some c) = some (headroom limits used c.requests, c)

  -- headroom
  unfoldable pub candidate_headroom :
      ResourceList
      → ResourceList
      → (Pod → ResourceList)
      → Option (List Pod)
      → Bool
      → Candidate
      → Option (HeadroomResult × ClampResult)
  candidate_headroom limits used requests listed reserve cand =
      with_headroom limits used (candidate_requests requests listed reserve cand)
