-- ===== src/Controller/Warnings/Stateless.antt =====
-- The warning emitter of internal/controller/warnings.go without its state: what a call says,
-- read off the calls before it.
use node_rotation_controller.Base.{
  String, Bool, false, Option, none, some, List, [], ◌∷◌, str_eq, if◌then◌else◌,
}
use node_rotation_controller.Selection.{short_lead_claims}
use node_rotation_controller.Selection.Census.{Census}
use node_rotation_controller.Adapt.{claim_views}
use node_rotation_controller.Controller.Warnings.{
  warns_of, named_in, Output, once, announce, finding_lines, short_lead_lines,
}
use node_rotation_controller.Controller.Warnings.Latched.{
  log_once, gate_key, census_key, block_key, pending_key, pod_scheduled_false, PodCondition,
  missed_notice, conflict_notice, static_notice, block_notice, no_candidate_notice, census_values,
  pending_notice,
}
use node_rotation_controller.Controller.Warnings.Calls.{
  Call, say_findings, say_short_lead, say_conflict, say_static, say_window_missed, say_headroom,
  say_gate, say_census, say_pending, reset_static, reset_headroom, reset_conflict, reset_candidate,
  reset_pending, reset_all,
}

abbrev pub settle {ℓ} : {K : Type ℓ} → Option K → K → K
settle o before = elim o [ none ↦ before | some k ↦ k ]

-- The latest call for the pool that settles a condition, and what it settles it to.
abbrev pub latest {ℓ} : {K : Type ℓ} → (Call → Option K) → K → String → List (String × Call) → K
latest f none_yet pool [] = none_yet
latest f none_yet pool ((p, c) ∷ earlier) =
    let before = latest f none_yet pool earlier in
    if str_eq p pool then settle (f c) before else before

abbrev pub settles_conflict : Call → Option String
settles_conflict (say_conflict d) = some d
settles_conflict reset_conflict = some ""
settles_conflict reset_all = some ""
settles_conflict _ = none

abbrev pub settles_static : Call → Option String
settles_static (say_static uid) = some uid
settles_static reset_static = some ""
settles_static reset_all = some ""
settles_static _ = none

abbrev pub settles_headroom : Call → Option String
settles_headroom (say_headroom b) = some (block_key b)
settles_headroom reset_headroom = some ""
settles_headroom reset_all = some ""
settles_headroom _ = none

abbrev pub settles_candidate : (Census → String) → Call → Option String
settles_candidate show (say_gate g) = some (gate_key g)
settles_candidate show (say_census c) = some (census_key show c)
settles_candidate show reset_candidate = some ""
settles_candidate show reset_all = some ""
settles_candidate show _ = none

abbrev pub settles_findings : Call → Option (String → Bool)
settles_findings (say_findings fs) = some (warns_of fs)
settles_findings reset_all = some (λ c. false)
settles_findings _ = none

abbrev pub settles_short_lead : Call → Option (String → Bool)
settles_short_lead (say_short_lead cs lead) =
    some (named_in (short_lead_claims (claim_views cs) lead))
settles_short_lead reset_all = some (λ c. false)
settles_short_lead _ = none

abbrev pub key_of : Option PodCondition → Option String
key_of none = none
key_of (some c) = some (pending_key c)

-- Only what the scheduler says of this claim's placeholder, and the end of its attempt.
abbrev pub settles_pending : String → Call → Option String
settles_pending claim (say_pending other cs) =
    if str_eq other claim then key_of (pod_scheduled_false cs) else none
settles_pending claim (reset_pending other) = if str_eq other claim then some "" else none
settles_pending claim reset_all = some ""
settles_pending claim _ = none

abbrev pub says_pending : Bool → String → String → Option PodCondition → List Output
says_pending events last claim none = []
says_pending events last claim (some c) = once events last (pending_key c) (pending_notice claim c)

module _ (show : Census → String) where
  -- What a call says, by the calls before it, the latest first.
  abbrev pub says : Bool → List (String × Call) → String → Call → List Output
  says events h pool (say_findings fs) =
      finding_lines (latest settles_findings (λ c. false) pool h) events pool fs
  says events h pool (say_short_lead cs lead) =
      short_lead_lines (latest settles_short_lead (λ c. false) pool h) events
        (short_lead_claims (claim_views cs) lead)
  says events h pool (say_conflict d) =
      once events (latest settles_conflict "" pool h) d (conflict_notice pool d)
  says events h pool (say_static uid) =
      once events (latest settles_static "" pool h) uid (static_notice pool)
  says events h pool (say_window_missed opened c) = announce events (missed_notice pool opened c)
  says events h pool (say_headroom b) =
      once events (latest settles_headroom "" pool h) (block_key b) (block_notice pool b)
  says events h pool (say_gate g) =
      log_once (latest (settles_candidate show) "" pool h) (gate_key g)
        (no_candidate_notice pool (g ∷ []))
  says events h pool (say_census c) =
      log_once (latest (settles_candidate show) "" pool h) (census_key show c)
        (no_candidate_notice pool (census_values c))
  says events h pool (say_pending claim cs) =
      says_pending events (latest (settles_pending claim) "" pool h) claim (pod_scheduled_false cs)
  says events h pool _ = []
