-- ===== src/Controller/Warnings/History.antt =====
-- The warning emitter of internal/controller/warnings.go says what its calls before make it say.
use node_rotation_controller.Base.{
  String, Bool, true, false, Option, none, some, List, [], ◌∷◌, ◌≡◌, refl, ap, ◌∙◌, str_eq,
  str_eq_iff, get, delete, if◌then◌else◌, Annotations,
}
use mathlib.Core.Path.{ap₂}
use node_rotation_controller.Selection.{short_lead_claims}
use node_rotation_controller.Selection.Census.{Census}
use node_rotation_controller.Adapt.{claim_views}
use node_rotation_controller.Controller.Warnings.{
  PoolWarnState, fresh_state, Emitter, pool_state, emit_findings, once, announce, emit_short_lead,
  new_warning_emitter, finding_lines, short_lead_lines,
}
use node_rotation_controller.Controller.Warnings.Latched.{
  emit_pending, emit_static_node_pool, emit_window_missed, emit_headroom_blocked, log_once,
  emit_no_candidate_key, emit_no_candidate, emit_no_candidate_census, emit_placeholder_pending,
  gate_key, census_key, emit_conflict, block_key, pending_key, pod_scheduled_false, PodCondition,
  missed_notice, conflict_notice, static_notice, block_notice, no_candidate_notice, census_values,
}
use node_rotation_controller.Controller.Warnings.Calls.{
  Call, say_findings, say_short_lead, say_conflict, say_static, say_window_missed, say_headroom,
  say_gate, say_census, say_pending, reset_pending, call, after,
}
use node_rotation_controller.Controller.Warnings.Effects.{
  effect, events-call, pending_map, pool_state-call,
}
use node_rotation_controller.Controller.Warnings.Stateless.{
  settle, latest, settles_conflict, settles_static, settles_headroom, settles_candidate,
  settles_findings, settles_short_lead, settles_pending, key_of, says_pending, says,
}

if_both {ℓ} :
    {A K : Type ℓ} (field : A → K) (b : Bool) {x y : A} {x' y' : K}
    → (b ≡ true → field x ≡ x')
    → field y ≡ y'
    → field (if b then x else y) ≡ (if b then x' else y')
if_both field true h k = h refl
if_both field false h k = k

-- What an index of a map reads.
abbrev text_of : Option String → String
text_of o = elim o [ none ↦ "" | some v ↦ v ]

text_settled :
    (b : Bool) (o x : Option String)
    → text_of (if b then o else x) ≡ settle (if b then some (text_of o) else none) (text_of x)
text_settled true o x = refl
text_settled false o x = refl

get-delete :
    (claim other : String) (m : Annotations)
    → get (delete m other) claim
      ≡ settle (if str_eq other claim then some "" else none) (get m claim)
get-delete claim other m = text_settled (str_eq other claim) none (m claim)

same_settled : (b : Bool) (x : String) → x ≡ settle (if b then none else none) x
same_settled true x = refl
same_settled false x = refl

get-pending_map :
    (claim other : String) (o : Option PodCondition) (m : Annotations)
    → get (pending_map other o m) claim
      ≡ settle (if str_eq other claim then key_of o else none) (get m claim)
get-pending_map claim other none m = same_settled (str_eq other claim) (get m claim)
get-pending_map claim other (some c) m =
    text_settled (str_eq other claim) (some (pending_key c)) (m claim)

pending_says :
    (e : Emitter) (pool claim : String) (o : Option PodCondition)
    → (emit_pending e pool claim o).1
      ≡ says_pending e.events (get (pool_state e pool).ph_pending claim) claim o
pending_says e pool claim none = refl
pending_says e pool claim (some c) = refl

module _ (show : Census → String) where
  events-after : (on : Bool) (h : List (String × Call)) → (after show on h).events ≡ on
  unfolding after new_warning_emitter
  events-after on [] = refl
  events-after on ((p, c) ∷ h) = events-call show (after show on h) p c ∙ events-after on h

  pool_state-new :
      (on : Bool) (pool : String) → pool_state (new_warning_emitter on) pool ≡ fresh_state
  unfolding pool_state new_warning_emitter
  pool_state-new on pool = refl

  module _ {K : Type 0} (field : PoolWarnState → K) (f : Call → Option K) where
    field-after :
        (each : (c : Call) (s : PoolWarnState) → field (effect show c s) ≡ settle (f c) (field s))
        (on : Bool) (h : List (String × Call)) (pool : String)
        → field (pool_state (after show on h) pool) ≡ latest f (field fresh_state) pool h
    unfolding after new_warning_emitter
    field-after e on [] pool = ap field (pool_state-new on pool)
    field-after e on ((p, c) ∷ h) pool =
        ap field (pool_state-call show (after show on h) p pool c)
        ∙ if_both field (str_eq p pool)
            (λ t.
              e c (pool_state (after show on h) p)
              ∙ ap (λ q. settle (f c) (field (pool_state (after show on h) q)))
                  ((str_eq_iff p pool).0 t)
              ∙ ap (settle (f c)) (field-after e on h pool))
            (field-after e on h pool)

  conflict-effect :
      (c : Call) (s : PoolWarnState)
      → (effect show c s).conflict ≡ settle (settles_conflict c) s.conflict
  conflict-effect (say_conflict d) s = refl
  conflict-effect c s = refl

  static-effect :
      (c : Call) (s : PoolWarnState)
      → (effect show c s).static_pool ≡ settle (settles_static c) s.static_pool
  static-effect (say_static u) s = refl
  static-effect c s = refl

  headroom-effect :
      (c : Call) (s : PoolWarnState)
      → (effect show c s).headroom ≡ settle (settles_headroom c) s.headroom
  headroom-effect (say_headroom b) s = refl
  headroom-effect c s = refl

  candidate-effect :
      (c : Call) (s : PoolWarnState)
      → (effect show c s).no_candidate ≡ settle (settles_candidate show c) s.no_candidate
  candidate-effect (say_gate g) s = refl
  candidate-effect c s = refl

  findings-effect :
      (c : Call) (s : PoolWarnState)
      → (effect show c s).finding_codes ≡ settle (settles_findings c) s.finding_codes
  findings-effect (say_findings fs) s = refl
  findings-effect c s = refl

  short_lead-effect :
      (c : Call) (s : PoolWarnState)
      → (effect show c s).short_lead ≡ settle (settles_short_lead c) s.short_lead
  short_lead-effect (say_short_lead cs lead) s = refl
  short_lead-effect c s = refl

  pending-effect :
      (claim : String) (c : Call) (s : PoolWarnState)
      → get (effect show c s).ph_pending claim
        ≡ settle (settles_pending claim c) (get s.ph_pending claim)
  pending-effect claim (say_pending other cs) s =
      get-pending_map claim other (pod_scheduled_false cs) s.ph_pending
  pending-effect claim (reset_pending other) s = get-delete claim other s.ph_pending
  pending-effect claim c s = refl

  pub call-says :
      (on : Bool) (h : List (String × Call)) (pool : String) (c : Call)
      → (call show (after show on h) pool c).1 ≡ says show on h pool c
  unfolding call emit_findings emit_short_lead emit_conflict emit_static_node_pool
      emit_window_missed emit_headroom_blocked emit_no_candidate_key emit_no_candidate
      emit_no_candidate_census emit_placeholder_pending
  call-says on h pool (say_findings fs) =
      ap₂ (λ b o. finding_lines b o pool fs)
        (field-after (λ s. s.finding_codes) settles_findings findings-effect on h pool)
        (events-after on h)
  call-says on h pool (say_short_lead cs lead) =
      ap₂ (λ b o. short_lead_lines b o (short_lead_claims (claim_views cs) lead))
        (field-after (λ s. s.short_lead) settles_short_lead short_lead-effect on h pool)
        (events-after on h)
  call-says on h pool (say_conflict d) =
      ap₂ (λ b o. once o b d (conflict_notice pool d))
        (field-after (λ s. s.conflict) settles_conflict conflict-effect on h pool)
        (events-after on h)
  call-says on h pool (say_static u) =
      ap₂ (λ b o. once o b u (static_notice pool))
        (field-after (λ s. s.static_pool) settles_static static-effect on h pool)
        (events-after on h)
  call-says on h pool (say_window_missed opened c) =
      ap (λ o. announce o (missed_notice pool opened c)) (events-after on h)
  call-says on h pool (say_headroom b) =
      ap₂ (λ l o. once o l (block_key b) (block_notice pool b))
        (field-after (λ s. s.headroom) settles_headroom headroom-effect on h pool)
        (events-after on h)
  call-says on h pool (say_gate g) =
      ap (λ l. log_once l (gate_key g) (no_candidate_notice pool (g ∷ [])))
        (field-after (λ s. s.no_candidate) (settles_candidate show) candidate-effect on h pool)
  call-says on h pool (say_census c) =
      ap (λ l. log_once l (census_key show c) (no_candidate_notice pool (census_values c)))
        (field-after (λ s. s.no_candidate) (settles_candidate show) candidate-effect on h pool)
  call-says on h pool (say_pending claim cs) =
      pending_says (after show on h) pool claim (pod_scheduled_false cs)
      ∙ ap₂ (λ l o. says_pending o l claim (pod_scheduled_false cs))
          (field-after (λ s. get s.ph_pending claim) (settles_pending claim) (pending-effect claim)
            on h pool)
          (events-after on h)
  call-says on h pool c = refl
