-- ===== src/Controller/Warnings/Calls.antt =====
-- The calls of the warning emitter of internal/controller/warnings.go, in any order.
use node_rotation_controller.Base.{String, Bool, List, [], ◌∷◌}
use node_rotation_controller.Schedule.{Finding}
use node_rotation_controller.Selection.{LeadTime}
use node_rotation_controller.Selection.Census.{Census}
use node_rotation_controller.Controller.World.{NodeClaim}
use node_rotation_controller.Controller.Warnings.{
  Output, Emitter, new_warning_emitter, emit_findings, emit_short_lead,
}
use node_rotation_controller.Controller.Warnings.Latched.{
  HeadroomBlock, PodCondition, emit_conflict, emit_static_node_pool, emit_window_missed,
  emit_headroom_blocked, emit_no_candidate, emit_no_candidate_census, emit_placeholder_pending,
  clear_static_node_pool, clear_headroom_blocked, clear_conflict, clear_no_candidate,
  clear_placeholder_pending, forget,
}

-- A call for a pool. `reset` constructors clear, the others announce.
pub data Call : Type 0 where
  say_findings : List Finding → Call
  say_short_lead : List NodeClaim → LeadTime → Call
  say_conflict : String → Call
  say_static : String → Call
  say_window_missed : String → Census → Call
  say_headroom : HeadroomBlock → Call
  say_gate : String → Call
  say_census : Census → Call
  say_pending : String → List PodCondition → Call
  reset_static : Call
  reset_headroom : Call
  reset_conflict : Call
  reset_candidate : Call
  reset_pending : String → Call
  reset_all : Call

abbrev silent : Emitter → Emitter × List Output
silent e = (e, [])

module _ (show : Census → String) where
  unfoldable pub call : Emitter → String → Call → Emitter × List Output
  call e pool (say_findings fs) = emit_findings e pool fs
  call e pool (say_short_lead cs lead) = emit_short_lead e pool cs lead
  call e pool (say_conflict d) = emit_conflict e pool d
  call e pool (say_static uid) = emit_static_node_pool e pool uid
  call e pool (say_window_missed opened c) = emit_window_missed e pool opened c
  call e pool (say_headroom b) = emit_headroom_blocked e pool b
  call e pool (say_gate g) = emit_no_candidate e pool g
  call e pool (say_census c) = emit_no_candidate_census show e pool c
  call e pool (say_pending claim cs) = emit_placeholder_pending e pool claim cs
  call e pool reset_static = silent (clear_static_node_pool e pool)
  call e pool reset_headroom = silent (clear_headroom_blocked e pool)
  call e pool reset_conflict = silent (clear_conflict e pool)
  call e pool reset_candidate = silent (clear_no_candidate e pool)
  call e pool (reset_pending claim) = silent (clear_placeholder_pending e pool claim)
  call e pool reset_all = silent (forget e pool)

  -- The emitter after a history of calls, the latest first.
  unfoldable pub after : Bool → List (String × Call) → Emitter
  after events [] = new_warning_emitter events
  after events ((pool, c) ∷ earlier) = (call (after events earlier) pool c).0
