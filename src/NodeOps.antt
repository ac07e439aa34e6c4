-- ===== src/NodeOps.antt =====
-- internal/controller/nodeops.go: the mutators of a node. Each returns the node and whether it
-- changed. karpenter.sh/do-not-disrupt is the key that Karpenter reads.
mod Writes
pub mod Ownership
pub mod Excluded
use node_rotation_controller.Base.{
  String, Bool, true, false, not, ◌&&◌, ◌||◌, Annotations, get, has, put, delete, str_eq,
  if◌then◌else◌,
}
use node_rotation_controller.Annotations.{surge_for, cordoned, do_not_disrupt_owned}

abbrev pub do_not_disrupt : String
do_not_disrupt = "karpenter.sh/do-not-disrupt"

pub record Node : Type 0 where
  pub name : String
  pub annotations : Annotations
  pub unschedulable : Bool

unfoldable pub set_annotation : Node → String → String → Node × Bool
set_annotation n key value =
    if str_eq (get n.annotations key) value
    then (n, false)
    else (record n { annotations = put n.annotations key value }, true)

unfoldable pub remove_annotation : Node → String → Node × Bool
remove_annotation n key =
    if has n.annotations key
    then (record n { annotations = delete n.annotations key }, true)
    else (n, false)

unfoldable pub operator_owns_do_not_disrupt : Node → Bool
operator_owns_do_not_disrupt n =
    str_eq (get n.annotations do_not_disrupt) "true" && not (has n.annotations do_not_disrupt_owned)

-- changed = f(n) || changed
abbrev and_then : Node × Bool → (Node → Node × Bool) → Node × Bool
and_then (n, changed) f = let (n', c) = f n in (n', c || changed)

-- do-not-disrupt with the marker that makes it the controller's.
abbrev take_over : Node → Node × Bool
take_over n =
    and_then (and_then (n, false) (λ m. set_annotation m do_not_disrupt "true"))
      (λ m. set_annotation m do_not_disrupt_owned "true")

unfoldable pub apply_freeze : Node → String → Node × Bool
apply_freeze n claim_name =
    and_then (if operator_owns_do_not_disrupt n then (n, false) else take_over n)
      (λ m. set_annotation m surge_for claim_name)

unfoldable pub apply_cordon : Node → Node × Bool
apply_cordon n =
    let (n', set) = set_annotation (record n { unschedulable = true }) cordoned "true" in
    if n.unschedulable && not (has n.annotations cordoned)
    then (n, false)
    else (n', set || not n.unschedulable)

unfoldable pub apply_uncordon : Node → Node × Bool
apply_uncordon n =
    if has n.annotations cordoned
    then (record (remove_annotation n cordoned).0 { unschedulable = false }, true)
    else (n, false)

-- do-not-disrupt goes where it is the controller's.
abbrev give_back : Node × Bool → Node × Bool
give_back (n, changed) =
    if has n.annotations do_not_disrupt_owned
    then and_then (and_then (n, changed) (λ m. remove_annotation m do_not_disrupt))
        (λ m. remove_annotation m do_not_disrupt_owned)
    else (n, changed)

unfoldable pub apply_unfreeze : Node → Node × Bool
apply_unfreeze n = and_then (give_back (remove_annotation n surge_for)) apply_uncordon
