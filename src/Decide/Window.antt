-- ===== src/Decide/Window.antt =====
-- internal/decide/windowclose.go: what to do about the edge of the maintenance window.
pub mod Verdict
use node_rotation_controller.Base.{
  ℕ, ◌+◌, ◌==◌, Bool, true, false, not, Option, none, some, ltb_ℤ, Time, Annotations, get, str_eq,
  if◌then◌else◌,
}
use node_rotation_controller.Annotations.{
  TimeText, parse_time, window_opened_at, active_rotation, last_rotation_at,
}
use node_rotation_controller.Selection.Census.{Census}
use node_rotation_controller.Decide.{frozen}

pub data WindowAction : Type 0 where
  window_nothing window_stamp window_defer window_settled window_missed : WindowAction

pub record WindowInputs : Type 0 where
  pub now : Time
  pub in_window : Bool
  pub annotations : Annotations
  pub census : Census

unfoldable pub outstanding : Census → ℕ
outstanding c = c.eligible + c.in_backoff_triggered

abbrev pub is_some : Option Time → Bool
is_some none = false
is_some (some t) = true

-- Whether a rotation completed at or after the instant at which the window opened.
abbrev pub rotated_since : Option Time → Option Time → Bool
rotated_since (some opened) (some rotated) = not (ltb_ℤ rotated opened)
rotated_since (some opened) none = false
rotated_since none last = false

module _ ⦃text : TimeText⦄ where
  unfoldable pub window_edge : WindowInputs → WindowAction
  window_edge i =
      let raw = get i.annotations window_opened_at in
      let opened = parse_time raw in
      if i.in_window
      then (if is_some opened then window_nothing else window_stamp)
      else if str_eq raw ""
      then window_nothing
      else if not (is_some opened)
      then window_settled
      else if not (str_eq (get i.annotations active_rotation) "")
      then window_defer
      else if frozen i.annotations i.now
      then window_settled
      else if outstanding i.census == 0
      then window_settled
      else if rotated_since opened (parse_time (get i.annotations last_rotation_at))
      then window_settled
      else window_missed
