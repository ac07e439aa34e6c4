-- ===== src/NodeOps/Excluded.antt =====
-- internal/controller/nodeops.go: the claims whose nodes an operator keeps out of rotation. A map
-- to booleans that is nil reads false everywhere.
use node_rotation_controller.Base.{String, Bool, ◌&&◌, List, any, str_eq}
use node_rotation_controller.NodeOps.{Node, operator_owns_do_not_disrupt}
use node_rotation_controller.Controller.World.{NodeClaim}

unfoldable pub excluded_node_names : List Node → String → Bool
excluded_node_names nodes name =
    any (λ n. operator_owns_do_not_disrupt n && str_eq n.name name) nodes

unfoldable pub excluded_claim_names : List NodeClaim → (String → Bool) → String → Bool
excluded_claim_names claims excluded name =
    any (λ c. excluded c.node_name && str_eq c.name name) claims
