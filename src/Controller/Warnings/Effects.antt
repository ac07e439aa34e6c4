-- ===== src/Controller/Warnings/Effects.antt =====
-- What a call of the warning emitter of internal/controller/warnings.go leaves as the state of each
-- pool: its own pool's is changed by the call, any other's is not.
use node_rotation_controller.Base.{
  String, Bool, true, false, Option, none, some, ◌≡◌, refl, ap, sym, ◌∙◌, str_eq, str_eq_iff,
  fun_ext, Annotations, put, delete, empty_map, if◌then◌else◌, Option-cases, inl, inr, arith,
}
use node_rotation_controller.Selection.{short_lead_claims}
use node_rotation_controller.Selection.Census.{Census}
use node_rotation_controller.Adapt.{claim_views}
use node_rotation_controller.Controller.Warnings.{
  emit_findings, emit_short_lead, PoolWarnState, fresh_state, Emitter, pool_state, set_state,
  warns_of, named_in,
}
use node_rotation_controller.Controller.Warnings.Latched.{
  emit_pending, emit_static_node_pool, emit_window_missed, emit_headroom_blocked,
  emit_no_candidate_key, emit_no_candidate, emit_no_candidate_census, emit_placeholder_pending,
  clear_static_node_pool, clear_headroom_blocked, clear_conflict, clear_no_candidate,
  clear_placeholder_pending, forget, gate_key, census_key, touch, emit_conflict, block_key,
  pending_key, pod_scheduled_false, PodCondition,
}
use node_rotation_controller.Controller.Warnings.Calls.{
  Call, say_findings, say_short_lead, say_conflict, say_static, say_window_missed, say_headroom,
  say_gate, say_census, say_pending, reset_static, reset_headroom, reset_conflict, reset_candidate,
  reset_pending, reset_all, call,
}

pub pool_state-set_state :
    (e : Emitter) (p q : String) (s : PoolWarnState)
    → pool_state (set_state e p s) q ≡ (if str_eq p q then s else pool_state e q)
unfolding pool_state
pool_state-set_state e p q s = ground arith

state-none : (e : Emitter) (p : String) → e.state p ≡ none → pool_state e p ≡ fresh_state
unfolding pool_state
state-none e p n = rw (n, pool_state) refl

state-some :
    (e : Emitter) (p : String) (s : PoolWarnState) → e.state p ≡ some s → pool_state e p ≡ s
unfolding pool_state
state-some e p s n = rw (n, pool_state) refl

touch-some :
    (e : Emitter) (p : String) (f : PoolWarnState → PoolWarnState) (s : PoolWarnState)
    → e.state p ≡ some s
    → touch e p f ≡ set_state e p (f (pool_state e p))
touch-some e p f s n = rw (n, touch) (ap (λ t. set_state e p (f t)) (sym (state-some e p s n)))

-- A fresh state that a change leaves as it is stays where it is.
if_same {ℓ} : {A : Type ℓ} (b : Bool) (x y : A) → (b ≡ true → x ≡ y) → y ≡ (if b then x else y)
if_same true x y h = sym (h refl)
if_same false x y h = refl

pool_state-touch :
    (e : Emitter) (p q : String) (f : PoolWarnState → PoolWarnState)
    → f fresh_state ≡ fresh_state
    → pool_state (touch e p f) q ≡ (if str_eq p q then f (pool_state e p) else pool_state e q)
pool_state-touch e p q f h = elim (Option-cases (e.state p)) [
  | inl n ↦
      ap (λ (t : Emitter). pool_state t q) (touch_none e p f n)
      ∙ if_same (str_eq p q) (f (pool_state e p)) (pool_state e q) (λ b.
        ap f (state-none e p n)
        ∙ h
        ∙ sym (state-none e p n)
        ∙ ap (pool_state e) ((str_eq_iff p q).0 b))
  | inr (s, n) ↦
      ap (λ (t : Emitter). pool_state t q) (touch-some e p f s n) ∙ pool_state-set_state e p q _
]
  where
    touch_none :
        (e : Emitter) (p : String) (f : PoolWarnState → PoolWarnState)
        → e.state p ≡ none
        → touch e p f ≡ e
    touch_none e p f n = rw (n, touch) refl

abbrev pub pending_map : String → Option PodCondition → Annotations → Annotations
pending_map claim none m = m
pending_map claim (some c) m = put m claim (pending_key c)

-- What a call does to the state of its pool.
abbrev pub effect : (Census → String) → Call → PoolWarnState → PoolWarnState
effect show (say_findings fs) s = record s { finding_codes = warns_of fs }
effect show (say_short_lead cs lead) s = record s {
  short_lead = named_in (short_lead_claims (claim_views cs) lead);
}
effect show (say_conflict d) s = record s { conflict = d }
effect show (say_static uid) s = record s { static_pool = uid }
effect show (say_window_missed opened c) s = s
effect show (say_headroom b) s = record s { headroom = block_key b }
effect show (say_gate g) s = record s { no_candidate = gate_key g }
effect show (say_census c) s = record s { no_candidate = census_key show c }
effect show (say_pending claim cs) s = record s {
  ph_pending = pending_map claim (pod_scheduled_false cs) s.ph_pending;
}
effect show reset_static s = record s { static_pool = "" }
effect show reset_headroom s = record s { headroom = "" }
effect show reset_conflict s = record s { conflict = "" }
effect show reset_candidate s = record s { no_candidate = "" }
effect show (reset_pending claim) s = record s { ph_pending = delete s.ph_pending claim }
effect show reset_all s = fresh_state

same_pool :
    (e : Emitter) (p q : String)
    → pool_state e q ≡ (if str_eq p q then pool_state e p else pool_state e q)
same_pool e p q =
    if_same (str_eq p q) (pool_state e p) (pool_state e q)
      (λ b. ap (pool_state e) ((str_eq_iff p q).0 b))

pool_state-forget :
    (e : Emitter) (p q : String)
    → pool_state (forget e p) q ≡ (if str_eq p q then fresh_state else pool_state e q)
unfolding pool_state forget
pool_state-forget e p q = ground arith

pool_state-emit_pending :
    (e : Emitter) (p q claim : String) (o : Option PodCondition)
    → pool_state (emit_pending e p claim o).0 q ≡ (
        if str_eq p q
        then record (pool_state e p) {
          ph_pending = pending_map claim o (pool_state e p).ph_pending;
        }
        else pool_state e q)
pool_state-emit_pending e p q claim none = same_pool e p q
pool_state-emit_pending e p q claim (some c) = pool_state-set_state e p q _

delete-empty : (claim : String) → delete empty_map claim ≡ empty_map
delete-empty claim = fun_ext λ j. ground arith

events-touch :
    (e : Emitter) (p : String) (f : PoolWarnState → PoolWarnState) → (touch e p f).events ≡ e.events
events-touch e p f = ground arith

events-emit_pending :
    (e : Emitter) (p claim : String) (o : Option PodCondition)
    → (emit_pending e p claim o).0.events ≡ e.events
events-emit_pending e p claim none = refl
events-emit_pending e p claim (some c) = refl

module _ (show : Census → String) where
  pub pool_state-call :
      (e : Emitter) (p q : String) (c : Call)
      → pool_state (call show e p c).0 q
        ≡ (if str_eq p q then effect show c (pool_state e p) else pool_state e q)
  unfolding call emit_findings emit_short_lead emit_conflict emit_static_node_pool
      emit_window_missed emit_headroom_blocked emit_no_candidate_key emit_no_candidate
      emit_no_candidate_census emit_placeholder_pending clear_static_node_pool
      clear_headroom_blocked clear_conflict clear_no_candidate clear_placeholder_pending forget
  pool_state-call e p q (say_pending claim cs) =
      pool_state-emit_pending e p q claim (pod_scheduled_false cs)
  pool_state-call e p q (say_window_missed opened c) = same_pool e p q
  pool_state-call e p q reset_static = pool_state-touch e p q _ refl
  pool_state-call e p q reset_headroom = pool_state-touch e p q _ refl
  pool_state-call e p q reset_conflict = pool_state-touch e p q _ refl
  pool_state-call e p q reset_candidate = pool_state-touch e p q _ refl
  pool_state-call e p q (reset_pending claim) =
      pool_state-touch e p q _
        (ap (λ m. record fresh_state { ph_pending = m }) (delete-empty claim))
  pool_state-call e p q reset_all = pool_state-forget e p q
  pool_state-call e p q (say_findings fs) = pool_state-set_state e p q _
  pool_state-call e p q (say_short_lead cs l) = pool_state-set_state e p q _
  pool_state-call e p q (say_conflict d) = pool_state-set_state e p q _
  pool_state-call e p q (say_static u) = pool_state-set_state e p q _
  pool_state-call e p q (say_headroom b) = pool_state-set_state e p q _
  pool_state-call e p q (say_gate g) = pool_state-set_state e p q _
  pool_state-call e p q (say_census c) = pool_state-set_state e p q _

  pub events-call : (e : Emitter) (p : String) (c : Call) → (call show e p c).0.events ≡ e.events
  unfolding call emit_findings emit_short_lead emit_conflict emit_static_node_pool
      emit_window_missed emit_headroom_blocked emit_no_candidate_key emit_no_candidate
      emit_no_candidate_census emit_placeholder_pending clear_static_node_pool
      clear_headroom_blocked clear_conflict clear_no_candidate clear_placeholder_pending forget
  events-call e p (say_pending claim cs) = events-emit_pending e p claim (pod_scheduled_false cs)
  events-call e p reset_static = events-touch e p _
  events-call e p reset_headroom = events-touch e p _
  events-call e p reset_conflict = events-touch e p _
  events-call e p reset_candidate = events-touch e p _
  events-call e p (reset_pending claim) = events-touch e p _
  events-call e p _ = refl
