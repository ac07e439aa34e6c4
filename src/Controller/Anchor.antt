-- ===== src/Controller/Anchor.antt =====
-- The anchor on the NodePool and the transition into the terminal state of a claim.
pub mod Fields
use node_rotation_controller.Base.{
  String, Bool, true, false, not, ◌||◌, none, some, List, Annotations, get, put, delete, str_eq,
  any, if◌then◌else◌,
}
use node_rotation_controller.Annotations.{
  state, state_expired, active_rotation, active_rotation_state, draining_at, surge_wait, surge_path,
  rotation_mode,
}
use node_rotation_controller.Controller.World.{M}
use node_rotation_controller.Controller.Api.{
  pure, ◌>>=◌, Mutator, Written, gone, vetoed, written, patch_pool, patch_pool_if, patch_claim_if,
}

unfoldable pub clear_rotation_anchor_fields : Annotations → Annotations
clear_rotation_anchor_fields m =
    delete
      (delete
        (delete (delete (delete (delete m active_rotation) active_rotation_state) draining_at)
          surge_wait)
        surge_path)
      rotation_mode

abbrev pub rotation_mode_of : Annotations → String
rotation_mode_of m = let mode = get m rotation_mode in if str_eq mode "" then "surge" else mode

unfoldable pub clear_anchor : M Written
clear_anchor = patch_pool clear_rotation_anchor_fields

-- The edit of clearAnchorIf.
abbrev pub clear_if_anchored : String → Mutator
clear_if_anchored claim m =
    if str_eq (get m active_rotation) claim then some (clear_rotation_anchor_fields m) else none

abbrev was_written : Written → Bool
was_written gone = false
was_written (vetoed seen) = false
was_written (written before after) = true

-- clearAnchorIf
unfoldable pub clear_anchor_if : String → M Bool
clear_anchor_if claim = do w ← patch_pool_if (clear_if_anchored claim); pure (was_written w)

pub data Expiry : Type 0 where
  expiry_gone expiry_raced expiry_already expiry_claimed : Expiry

-- The edit of markExpired, from one of the states `allowed`.
abbrev pub expire_edit : (Annotations → Annotations) → List String → Mutator
expire_edit extra allowed m =
    let cur = get m state in
    if str_eq cur state_expired || not (any (λ s. str_eq s cur) allowed)
    then none
    else some (extra (put m state state_expired))

abbrev expiry_of : Written → Expiry
expiry_of gone = expiry_gone
expiry_of (vetoed seen) =
    if str_eq (get seen state) state_expired then expiry_already else expiry_raced
expiry_of (written before after) = expiry_claimed

-- markExpired
unfoldable pub mark_expired : String → (Annotations → Annotations) → List String → M Expiry
mark_expired name extra allowed = do
  w ← patch_claim_if name (expire_edit extra allowed)
  pure (expiry_of w)
