-- ===== src/Controller/Moves.antt =====
-- The edits of the pool's annotations, by what they do to the name of the rotation in flight.
use node_rotation_controller.Base.{
  String, Bool, true, false, not, Option, none, some, ◌≡◌, inl, inr, refl, arith, Annotations, get,
  str_eq, Bool-cases, Time, Duration, if◌then◌else◌,
}
use node_rotation_controller.Annotations.{TimeText, active_rotation}
use node_rotation_controller.Decide.Window.{WindowInputs}
use node_rotation_controller.Controller.World.{NodeClaim}
use node_rotation_controller.Controller.Api.{Mutator, always}
use node_rotation_controller.Controller.Anchor.{clear_rotation_anchor_fields, clear_if_anchored}
use node_rotation_controller.Controller.Ending.{complete_edit}
use node_rotation_controller.Controller.Pending.{surge_draining_edit, fallback_draining_edit}
use node_rotation_controller.Controller.Failing.{release_failed}
use node_rotation_controller.Controller.Dispatch.{put_draining, repair_edit}
use node_rotation_controller.Controller.Edge.{edge_edit, clear_stamp, put_stamp}

-- The name stays, is taken away, or is put where there was none.
pub data Moves (a b : String) : Type 0 where
  stays : b ≡ a → Moves a b
  released : b ≡ "" → Moves a b
  taken : a ≡ "" → Moves a b

-- What an edit does that is not the start of a rotation.
pub data Settles (m m' : Annotations) : Type 0 where
  kept : get m' active_rotation ≡ get m active_rotation → Settles m m'
  cleared : get m' active_rotation ≡ "" → Settles m m'

abbrev pub SettlesIf : Annotations → Option Annotations → Type 0
SettlesIf m none = Unit
SettlesIf m (some m') = Settles m m'

-- An edit that starts nothing.
abbrev pub IsSettling : Mutator → Type 0
IsSettling f = (m : Annotations) → SettlesIf m (f m)

clear_cleared : (m : Annotations) → get (clear_rotation_anchor_fields m) active_rotation ≡ ""
unfolding clear_rotation_anchor_fields
clear_cleared m = refl

pub put_draining-IsSettling : IsSettling (always put_draining)
put_draining-IsSettling m = kept refl

pub clear-IsSettling : IsSettling (always clear_rotation_anchor_fields)
clear-IsSettling m = cleared (clear_cleared m)

SettlesIf-guard :
    (b : Bool) (m m' : Annotations) → Settles m m' → SettlesIf m (if b then none else some m')
SettlesIf-guard true m m' s = tt
SettlesIf-guard false m m' s = s

pub clear_if_anchored-IsSettling : (claim : String) → IsSettling (clear_if_anchored claim)
clear_if_anchored-IsSettling claim m = elim (Bool-cases (str_eq (get m active_rotation) claim)) [
  | inl e ↦ rw e (cleared (clear_cleared m))
  | inr e ↦ rw e tt
]

module _ ⦃text : TimeText⦄ (now : Time) where
  pub complete_edit-IsSettling : (name : String) → IsSettling (complete_edit name now)
  complete_edit-IsSettling name m =
      SettlesIf-guard (not (str_eq (get m active_rotation) name)) m _ (cleared (clear_cleared _))

  pub release_failed-IsSettling : IsSettling (always (release_failed now))
  unfolding release_failed
  release_failed-IsSettling m = cleared (clear_cleared _)

  pub surge_draining_edit-IsSettling :
      (wait : Duration) (path : String) → IsSettling (always (surge_draining_edit now wait path))
  unfolding surge_draining_edit
  surge_draining_edit-IsSettling wait path m = kept (ground arith)

  pub fallback_draining_edit-IsSettling : IsSettling (always (fallback_draining_edit now))
  unfolding fallback_draining_edit
  fallback_draining_edit-IsSettling m = kept (ground arith)

  pub repair_edit-IsSettling : (cand : NodeClaim) → IsSettling (always (repair_edit cand))
  unfolding repair_edit
  repair_edit-IsSettling cand m = cleared (clear_cleared _)

  pub edge_clear-IsSettling : (i : WindowInputs) → IsSettling (edge_edit i clear_stamp)
  unfolding edge_edit
  edge_clear-IsSettling i m = SettlesIf-guard _ m _ (kept refl)

  pub edge_put-IsSettling : (i : WindowInputs) → IsSettling (edge_edit i (put_stamp now))
  unfolding edge_edit
  edge_put-IsSettling i m = SettlesIf-guard _ m _ (kept refl)
