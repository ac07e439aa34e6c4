-- ===== src/Examples/WarningCases.antt =====
-- internal/controller/warnings.go: an emitter, and a history of four calls for two pools.
use node_rotation_controller.Base.{◌≡◌, ◌&&◌, String, true, List, [], ◌∷◌, any}
use node_rotation_controller.Schedule.{Finding, finding, warn}
use node_rotation_controller.Selection.Census.{Census}
use node_rotation_controller.Controller.Warnings.{new_warning_emitter, warns_of, emit_findings}
use node_rotation_controller.Controller.Warnings.Calls.{
  Call, say_conflict, reset_conflict, say_static, call, after,
}
use node_rotation_controller.Controller.Warnings.History.{call-says}
use node_rotation_controller.Controller.Warnings.Passes.{
  is_raised, is_new, emit_findings-raised_iff,
}

-- The conflict of the pool "a" was told, and cleared since; that of "b" was told.
abbrev history : List (String × Call)
history =
    ("b", say_conflict "p, q")
    ∷ ("a", reset_conflict)
    ∷ ("a", say_conflict "p, q")
    ∷ ("a", say_static "uid")
    ∷ []

abbrev show : Census → String
show c = "census"

-- The announcement that was made of "b" is not made again.
told_already : (call show (after show true history) "b" (say_conflict "p, q")).1 ≡ []
told_already = call-says show true history "b" (say_conflict "p, q")

abbrev first_findings : List Finding
first_findings = finding warn "ShortWindow" ∷ []

abbrev second_findings : List Finding
second_findings = finding warn "LateWindow" ∷ first_findings

emit_findings-raised_iff_example :
    any is_raised
      (emit_findings
        (emit_findings (new_warning_emitter true) "a" first_findings).0
        "a"
        second_findings).1
    ≡ (new_warning_emitter true).events && any (is_new (warns_of first_findings)) second_findings
emit_findings-raised_iff_example =
    emit_findings-raised_iff (new_warning_emitter true) "a" first_findings second_findings
