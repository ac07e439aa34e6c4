-- ===== src/Examples/DecideCases.antt =====
-- internal/decide at concrete pools.
use node_rotation_controller.Base.{
  ℕ, ◌*◌, ◌≡◌, ◌↔◌, refl, true, false, none, some, arith, pos, ◌-ℤ◌, empty_map, put, Duration,
  sub_time, saturate64,
}
use node_rotation_controller.Annotations.{
  parse_time, freeze, last_rotation_at, window_opened_at, active_rotation,
}
use node_rotation_controller.Selection.{Claim}
use node_rotation_controller.Selection.Census.{no_claims}
use node_rotation_controller.Decide.{Inputs, gate_cooldown_after_success, since, frozen, start_gate}
use node_rotation_controller.Decide.Gates.{Says, MayStart, start_gate-Says}
use node_rotation_controller.Decide.Window.{WindowInputs, window_missed, outstanding, window_edge}
use node_rotation_controller.Decide.Window.Verdict.{IsMissed, window_edge-IsMissed_iff}
use node_rotation_controller.Examples.Stamps.{stamps, at, stamp}

abbrev seconds : ℕ → Duration
seconds n = pos (n * 1_000_000_000)

-- The last rotation ended 5 seconds ago, and the cooldown is 10.
abbrev cooling : Inputs
cooling = record {
  now = at 100;
  in_window = true;
  annotations = put (put empty_map freeze (stamp 90)) last_rotation_at (stamp 95);
  cooldown = seconds 10;
  failure_pause = seconds 20;
  fallback_enabled = true;
  ready_timeout = seconds 30;
  drain_bound = seconds 40;
}

cooling_blocks : start_gate cooling ≡ (false, gate_cooldown_after_success)
unfolding start_gate frozen since parse_time sub_time saturate64 ◌-ℤ◌
cooling_blocks = refl

start_gate-Says_example :
    Says (start_gate cooling).1 cooling × (((start_gate cooling).0 ≡ true) ↔ MayStart cooling)
start_gate-Says_example = start_gate-Says cooling (omega arith) (omega arith)

abbrev expiring : Claim
expiring = record {
  name = "expiring";
  created_at = at 50;
  deleting = false;
  expire_after = some (seconds 80);
  tgp = none;
  ready = true;
  annotations = empty_map;
}

abbrev closed : WindowInputs
closed = record {
  now = at 100;
  in_window = false;
  annotations = put (put empty_map window_opened_at (stamp 50)) last_rotation_at (stamp 40);
  census = record (no_claims 2) { in_backoff = 1; in_backoff_triggered = 1; not_ready = 1 };
}

closed_missed : window_edge closed ≡ window_missed
unfolding window_edge frozen outstanding parse_time
closed_missed = refl

window_edge-IsMissed_iff_example : (window_edge closed ≡ window_missed) ↔ IsMissed closed
window_edge-IsMissed_iff_example = window_edge-IsMissed_iff closed

abbrev rotating : WindowInputs
rotating = record closed { annotations = put closed.annotations active_rotation "claim-a" }
