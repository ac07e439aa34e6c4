-- ===== src/Sim/Intervals.antt =====
-- internal/sim/loop.go: the events that cover an interval, one for each change of the reason.
use node_rotation_controller.Base.{
  ℕ, Bool, false, not, ◌&&◌, ◌==◌, Option, none, some, pos, Time, is_zero_time, if◌then◌else◌,
}
use node_rotation_controller.Selection.Census.{Census}
use node_rotation_controller.Decide.{Gate, gate_none}
use node_rotation_controller.Sim.{blocked_by_gate, no_eligible_claim, Run}
use node_rotation_controller.Sim.Fleet.{emit}
use node_rotation_controller.Sim.Loop.{event_at}

abbrev pub gate_number : Gate → ℕ
gate_number gate_none = 0
gate_number Gate.gate_out_of_window = 1
gate_number Gate.gate_frozen = 2
gate_number Gate.gate_cooldown_after_success = 3
gate_number Gate.gate_failure_pause = 4

abbrev same_census : Census → Census → Bool
same_census a b =
    (a.total == b.total)
    && ((a.eligible == b.eligible)
        && ((a.opted_out == b.opted_out)
            && ((a.deleting == b.deleting)
                && ((a.not_ready == b.not_ready)
                    && ((a.in_flight == b.in_flight)
                        && ((a.terminal == b.terminal)
                            && ((a.in_backoff == b.in_backoff)
                                && ((a.not_triggered == b.not_triggered)
                                    && (a.in_backoff_triggered == b.in_backoff_triggered)))))))))

unfoldable pub flush_blocked : Time → Run → Run
flush_blocked at r =
    if is_zero_time r.block_from
    then r
    else record (emit
        (record (event_at blocked_by_gate r.block_from "") { until = at; gate = r.block_gate }) r) {
          block_from = pos 0;
          block_gate = gate_none;
        }

unfoldable pub record_blocked : Time → Gate → Run → Run
record_blocked now gate r =
    if (gate_number r.block_gate == gate_number gate) && not (is_zero_time r.block_from)
    then r
    else record (flush_blocked now r) { block_gate = gate; block_from = now }

abbrev pub flush_held : Time → Option Census → Run → Run
flush_held at none r = r
flush_held at (some c) r =
    record (emit
      (record (event_at no_eligible_claim r.census_from "") { until = at; census = some c }) r) {
        census = none;
      }

-- flushCensus; hasCensus is that there is one.
unfoldable pub flush_census : Time → Run → Run
flush_census at r = flush_held at r.census r

abbrev pub holds_census : Option Census → Census → Bool
holds_census none c = false
holds_census (some d) c = same_census d c

unfoldable pub record_census : Time → Census → Run → Run
record_census now c r =
    if holds_census r.census c
    then r
    else record (flush_census now r) { census = some c; census_from = now }
