-- ===== src/Examples/NodeCases.antt =====
-- internal/controller/nodeops.go at a node that an operator protects.
use node_rotation_controller.Base.{String, ◌≡◌, refl, false, empty_map, put}
use node_rotation_controller.NodeOps.{do_not_disrupt, Node}
use node_rotation_controller.NodeOps.Ownership.{protect, release, left_over, release-protect}

abbrev protected : Node
protected = record {
  name = "node-a";
  annotations = put (put empty_map "team" "payments") do_not_disrupt "true";
  unschedulable = false;
}

release-protect_example :
    ((release (protect protected "claim-a")).unschedulable ≡ false)
    × ((j : String) → (release (protect protected "claim-a")).annotations j ≡ left_over protected j)
release-protect_example =
    release-protect protected "claim-a" (λ e. cc)
      (record { no_surge_for = refl; no_cordoned = refl; no_owned = refl })
