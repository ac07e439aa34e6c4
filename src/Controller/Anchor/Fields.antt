-- ===== src/Controller/Anchor/Fields.antt =====
-- clearRotationAnchorFields: what it takes from the pool's annotations, and what it leaves.
use node_rotation_controller.Base.{
  String, Bool, ◌||◌, Option, none, ◌≡◌, Annotations, str_eq, if◌then◌else◌, arith,
}
use node_rotation_controller.Annotations.{
  active_rotation, active_rotation_state, draining_at, surge_wait, surge_path, rotation_mode,
}
use node_rotation_controller.Controller.Anchor.{clear_rotation_anchor_fields}

-- The keys of a rotation in flight.
abbrev pub is_anchor_key : String → Bool
is_anchor_key j =
    str_eq rotation_mode j
    || str_eq surge_path j
    || str_eq surge_wait j
    || str_eq draining_at j
    || str_eq active_rotation_state j
    || str_eq active_rotation j

chain :
    (a b c d e f : Bool) (o : Option String)
    → (if a
        then none
        else if b
        then none
        else if c
        then none
        else if d
        then none
        else if e
        then none
        else if f
        then none
        else o)
      ≡ (if a || b || c || d || e || f then none else o)
chain a b c d e f o = ground arith

-- The release of an anchor takes exactly the six keys of the rotation in flight: the pauses after a
-- success and after a failure, the freeze, and all that others wrote, stay.
pub clear_rotation_anchor_fields-at :
    (m : Annotations) (j : String)
    → clear_rotation_anchor_fields m j ≡ (if is_anchor_key j then none else m j)
unfolding clear_rotation_anchor_fields
clear_rotation_anchor_fields-at m j =
    chain (str_eq rotation_mode j) (str_eq surge_path j) (str_eq surge_wait j)
      (str_eq draining_at j) (str_eq active_rotation_state j) (str_eq active_rotation j) (m j)
