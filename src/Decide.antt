-- ===== src/Decide.antt =====
-- internal/decide/decide.go: the start gates and the choice of the surge-less path.
pub mod Gates
pub mod Window
use node_rotation_controller.Base.{
  Bool, true, false, not, ◌&&◌, Option, none, some, List, ℤ, ltb_ℤ, max_int64, Duration, Time,
  String, Annotations, get, add_duration, add_time, sub_time, if◌then◌else◌,
}
use node_rotation_controller.Annotations.{
  TimeText, parse_time, freeze, last_rotation_at, last_failure_at,
}
use node_rotation_controller.Selection.{Claim}

pub data Gate : Type 0 where
  gate_none gate_out_of_window gate_frozen gate_cooldown_after_success gate_failure_pause : Gate

pub record Inputs : Type 0 where
  pub now : Time
  pub in_window : Bool
  pub annotations : Annotations
  pub cooldown : Duration
  pub failure_pause : Duration
  pub fallback_enabled : Bool
  pub ready_timeout : Duration
  pub drain_bound : Duration

module _ ⦃text : TimeText⦄ where
  -- A timestamp that is unset or unreadable is infinitely long ago.
  unfoldable pub since : String → Time → Duration
  since ts now = elim (parse_time ts) [ none ↦ max_int64 | some t ↦ sub_time now t ]

  unfoldable pub frozen : Annotations → Time → Bool
  frozen ann now = elim (parse_time (get ann freeze)) [
    | none ↦ false
    | some until ↦ ltb_ℤ now until
  ]

  unfoldable pub start_gate : Inputs → Bool × Gate
  start_gate i =
      if not i.in_window
      then (false, gate_out_of_window)
      else if frozen i.annotations i.now
      then (false, gate_frozen)
      else if ltb_ℤ (since (get i.annotations last_rotation_at) i.now) i.cooldown
      then (false, gate_cooldown_after_success)
      else if ltb_ℤ (since (get i.annotations last_failure_at) i.now) i.failure_pause
      then (false, gate_failure_pause)
      else (true, gate_none)

unfoldable pub surgeless_fallback : Claim → Inputs → Bool
surgeless_fallback c i = if not i.fallback_enabled then false else elim c.expire_after [
  | none ↦ false
  | some e ↦
      ltb_ℤ (sub_time (add_time c.created_at e) i.now) (add_duration i.ready_timeout i.drain_bound)
]
