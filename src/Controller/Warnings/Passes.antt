-- ===== src/Controller/Warnings/Passes.antt =====
-- EmitFindings of internal/controller/warnings.go over two passes.
use node_rotation_controller.Base.{
  String, Bool, true, false, not, ◌&&◌, ◌||◌, List, [], ◌∷◌, ◌++◌, ◌≡◌, refl, ap, ◌∙◌, str_eq,
  str_eq_iff, any, arith, if◌then◌else◌,
}
use node_rotation_controller.Schedule.{Finding}
use node_rotation_controller.Controller.Warnings.{
  Output, raised, Notice, Emitter, PoolWarnState, is_warn, warns_of, newly, finding_notice,
  finding_lines, emit_findings,
}
use node_rotation_controller.Controller.Warnings.Effects.{pool_state-set_state}

abbrev pub is_raised : Output → Bool
is_raised (raised n) = true
is_raised _ = false

-- A warning whose code did not stand before.
abbrev pub is_new : (String → Bool) → Finding → Bool
is_new before f = is_warn f && not (before f.code)

newly-raised :
    (before : String → Bool) (on : Bool) (n : String → Notice) (code : String) (later : List Output)
    → any is_raised (newly before on n code ++ later)
      ≡ (on && not (before code)) || any is_raised later
newly-raised before on n code later = ground arith

spread : (a b c : Bool) → (a && b) || (a && c) ≡ a && (b || c)
spread a b c = ground arith

joined :
    (new on : Bool) (now rest : List Output) (later w : Bool)
    → any is_raised now ≡ (on && new) || any is_raised rest
    → any is_raised rest ≡ on && later
    → any is_raised (if w then now else rest) ≡ on && ((w && new) || later)
joined new on now rest later true h k = h ∙ ap (λ b. (on && new) || b) k ∙ spread on new later
joined new on now rest later false h k = k

finding_lines-raised :
    (before : String → Bool) (on : Bool) (pool : String) (fs : List Finding)
    → any is_raised (finding_lines before on pool fs) ≡ on && any (is_new before) fs
finding_lines-raised before on pool [] = ground arith
finding_lines-raised before on pool (f ∷ fs) =
    joined (not (before f.code)) on _ (finding_lines before on pool fs) (any (is_new before) fs)
      (is_warn f)
      (newly-raised before on (λ c. finding_notice pool f) f.code (finding_lines before on pool fs))
      (finding_lines-raised before on pool fs)

-- In the second of two passes over a pool an Event is raised when and only when there is a
-- recorder and a finding of warning severity whose code was not among the warnings of the first.
pub emit_findings-raised_iff :
    (e : Emitter) (pool : String) (fs gs : List Finding)
    → any is_raised (emit_findings (emit_findings e pool fs).0 pool gs).1
      ≡ e.events && any (is_new (warns_of fs)) gs
unfolding emit_findings
emit_findings-raised_iff e pool fs gs =
    ap (λ (s : PoolWarnState). any is_raised (finding_lines s.finding_codes e.events pool gs))
      (pool_state-set_state e pool pool _ ∙ own _ _ ((str_eq_iff pool pool).1 refl))
    ∙ finding_lines-raised (warns_of fs) e.events pool gs
  where
    own : (s t : PoolWarnState) → str_eq pool pool ≡ true → (if str_eq pool pool then s else t) ≡ s
    own s t h = rw h refl
