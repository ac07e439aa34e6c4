-- ===== src/Adapt.antt =====
-- internal/adapt/adapt.go: the view of a NodeClaim that the selection reads.
use node_rotation_controller.Base.{
  String, Bool, false, Option, none, some, List, [], ◌∷◌, map, str_eq, if◌then◌else◌,
}
use node_rotation_controller.Selection.{Claim}
use node_rotation_controller.Controller.World.{NodeClaim}

-- The first condition of type Ready decides.
unfoldable pub ready : List (String × String) → Bool
ready [] = false
ready ((kind, status) ∷ cs) = if str_eq kind "Ready" then str_eq status "True" else ready cs

-- Claim
unfoldable pub claim_view : NodeClaim → Claim
claim_view c = record {
  name = c.name;
  created_at = c.created_at;
  deleting = c.deleting;
  expire_after = c.expire_after;
  tgp = c.tgp;
  ready = ready c.conditions;
  annotations = c.annotations;
}

unfoldable pub claim_views : List NodeClaim → List Claim
claim_views cs = map claim_view cs

-- What the map byName of Claims holds: the last claim of a name.
unfoldable pub by_name : String → List NodeClaim → Option NodeClaim
by_name name [] = none
by_name name (c ∷ cs) = elim (by_name name cs) [
  | some later ↦ some later
  | none ↦ if str_eq c.name name then some c else none
]
