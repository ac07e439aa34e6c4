-- ===== src/Controller/Warnings/Latched.antt =====
-- internal/controller/warnings.go and transitions.go: the conditions that are announced where
-- their key is not the one announced last, and what makes a pool forget it.
use Prim.Native.String.{◌++◌ as append}
use node_rotation_controller.Base.{
  ℕ, String, Bool, Option, none, some, List, [], ◌∷◌, str_eq, map, put, delete, get, itoa, pos,
  if◌then◌else◌,
}
use node_rotation_controller.Selection.Census.{Census}
use node_rotation_controller.Decide.Window.{outstanding}
use node_rotation_controller.Controller.Warnings.{
  node_pool, node_claim, Notice, Output, logged, PoolWarnState, Emitter, pool_state, set_state,
  announce, once,
}

abbrev pub conflict_notice : String → String → Notice
conflict_notice pool detail = record {
  about = node_pool pool;
  related = none;
  reason = "PolicyConflict";
  action = "ResolvePolicy";
  values = detail ∷ [];
}

unfoldable pub emit_conflict : Emitter → String → String → Emitter × List Output
emit_conflict e pool detail =
    let s = pool_state e pool in
    (
      set_state e pool (record s { conflict = detail }),
      once e.events s.conflict detail (conflict_notice pool detail),
    )

abbrev pub static_notice : String → Notice
static_notice pool = record {
  about = node_pool pool;
  related = none;
  reason = "StaticNodePool";
  action = "EvaluateNodePool";
  values = pool ∷ [];
}

unfoldable pub emit_static_node_pool : Emitter → String → String → Emitter × List Output
emit_static_node_pool e pool uid =
    let s = pool_state e pool in
    (
      set_state e pool (record s { static_pool = uid }),
      once e.events s.static_pool uid (static_notice pool),
    )

abbrev pub missed_notice : String → String → Census → Notice
missed_notice pool opened_at c = record {
  about = node_pool pool;
  related = none;
  reason = "WindowMissed";
  action = "EvaluateSchedule";
  values =
      opened_at
      ∷ itoa (pos (outstanding c))
      ∷ itoa (pos c.eligible)
      ∷ itoa (pos c.in_backoff_triggered)
      ∷ [];
}

-- The census is the one of an occurrence that has ended. There is no state: its caller has made
-- sure that it is called once.
unfoldable pub emit_window_missed : Emitter → String → String → Census → Emitter × List Output
emit_window_missed e pool opened_at c = (e, announce e.events (missed_notice pool opened_at c))

-- What a block of the headroom gate is: the candidate, the resource that does not fit, and the
-- clamp's refusal; then the amounts, as texts.
pub record HeadroomBlock : Type 0 where
  pub candidate : String
  pub resource : String
  pub refused : Bool
  pub refused_resource : String
  pub want : String
  pub remaining : String
  pub limit : String
  pub provisioned : String

abbrev bar : String → String → String
bar s t = append s (append "|" t)

unfoldable pub block_key : HeadroomBlock → String
block_key b =
    bar b.candidate
      (bar b.resource (bar (if b.refused then "true" else "false") b.refused_resource))

abbrev pub block_notice : String → HeadroomBlock → Notice
block_notice pool b = record {
  about = node_pool pool;
  related = some (node_claim b.candidate);
  reason = "InsufficientHeadroom";
  action = "EvaluateNodePool";
  values =
      b.candidate
      ∷ b.want
      ∷ b.resource
      ∷ b.remaining
      ∷ b.limit
      ∷ b.provisioned
      ∷ (if b.refused then b.refused_resource ∷ [] else []);
}

unfoldable pub emit_headroom_blocked : Emitter → String → HeadroomBlock → Emitter × List Output
emit_headroom_blocked e pool b =
    let s = pool_state e pool in
    (
      set_state e pool (record s { headroom = block_key b }),
      once e.events s.headroom (block_key b) (block_notice pool b),
    )

-- A pool that idles is a line and no Event.
abbrev pub log_once : String → String → Notice → List Output
log_once last key n = if str_eq last key then [] else logged n ∷ []

abbrev pub no_candidate_notice : String → List String → Notice
no_candidate_notice pool values = record {
  about = node_pool pool;
  related = none;
  reason = "no rotation candidate";
  action = "";
  values = values;
}

abbrev pub census_values : Census → List String
census_values c =
    "noEligibleClaim"
    ∷ map (λ (n : ℕ). itoa (pos n))
        (c.total ∷ c.not_triggered ∷ c.in_backoff ∷ c.in_flight ∷ c.opted_out ∷ c.deleting
          ∷ c.not_ready ∷ c.terminal ∷ [])

-- emitNoCandidate
unfoldable pub emit_no_candidate_key : Emitter → String → String → Notice → Emitter × List Output
emit_no_candidate_key e pool key n =
    let s = pool_state e pool in
    (set_state e pool (record s { no_candidate = key }), log_once s.no_candidate key n)

abbrev pub gate_key : String → String
gate_key gate = append "gate:" gate

abbrev pub census_key : (Census → String) → Census → String
census_key show c = append "census:" (show c)

unfoldable pub emit_no_candidate : Emitter → String → String → Emitter × List Output
emit_no_candidate e pool gate =
    emit_no_candidate_key e pool (gate_key gate) (no_candidate_notice pool (gate ∷ []))

unfoldable pub emit_no_candidate_census :
    (Census → String) → Emitter → String → Census → Emitter × List Output
emit_no_candidate_census show e pool c =
    emit_no_candidate_key e pool (census_key show c) (no_candidate_notice pool (census_values c))

-- A Pod condition: type, status, reason and message.
pub record PodCondition : Type 0 where
  pub kind : String
  pub status : String
  pub reason : String
  pub message : String

-- podScheduledFalse, on the conditions of a Pod that is there.
unfoldable pub pod_scheduled_false : List PodCondition → Option PodCondition
pod_scheduled_false [] = none
pod_scheduled_false (c ∷ cs) =
    let rest = pod_scheduled_false cs in
    if str_eq c.kind "PodScheduled"
    then (if str_eq c.status "False" then some c else rest)
    else rest

abbrev pub pending_notice : String → PodCondition → Notice
pending_notice claim c = record {
  about = node_claim claim;
  related = none;
  reason = "SurgeUnschedulable";
  action = "ProvisionSurge";
  values = c.reason ∷ c.message ∷ [];
}

abbrev pub pending_key : PodCondition → String
pending_key c = bar c.reason c.message

abbrev pub emit_pending : Emitter → String → String → Option PodCondition → Emitter × List Output
emit_pending e pool claim none = (e, [])
emit_pending e pool claim (some c) =
    let s = pool_state e pool in
    (
      set_state e pool (record s { ph_pending = put s.ph_pending claim (pending_key c) }),
      once e.events (get s.ph_pending claim) (pending_key c) (pending_notice claim c),
    )

-- The conditions of the claim's placeholder, none where there is no placeholder.
unfoldable pub emit_placeholder_pending :
    Emitter → String → String → List PodCondition → Emitter × List Output
emit_placeholder_pending e pool claim cs = emit_pending e pool claim (pod_scheduled_false cs)

-- A change of a state that is there.
abbrev pub touch : Emitter → String → (PoolWarnState → PoolWarnState) → Emitter
touch e pool f = elim (e.state pool) [ none ↦ e | some s ↦ set_state e pool (f s) ]

unfoldable pub clear_static_node_pool : Emitter → String → Emitter
clear_static_node_pool e pool = touch e pool (λ s. record s { static_pool = "" })

unfoldable pub clear_headroom_blocked : Emitter → String → Emitter
clear_headroom_blocked e pool = touch e pool (λ s. record s { headroom = "" })

unfoldable pub clear_conflict : Emitter → String → Emitter
clear_conflict e pool = touch e pool (λ s. record s { conflict = "" })

unfoldable pub clear_no_candidate : Emitter → String → Emitter
clear_no_candidate e pool = touch e pool (λ s. record s { no_candidate = "" })

unfoldable pub clear_placeholder_pending : Emitter → String → String → Emitter
clear_placeholder_pending e pool claim =
    touch e pool (λ s. record s { ph_pending = delete s.ph_pending claim })

unfoldable pub forget : Emitter → String → Emitter
forget e pool = record e { state = λ q. if str_eq pool q then none else e.state q }
