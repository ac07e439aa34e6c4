-- ===== src/Sim/Start.antt =====
-- internal/sim/loop.go: whether a rotation starts, on which node, and what its start records.
pub mod Decision
pub mod Agree
pub mod Found
use node_rotation_controller.Base.{
  ℕ, zero, suc, ◌+◌, ◌-◌, ◌*◌, ◌/◌, ◌%◌, String, Bool, true, false, not, ◌&&◌, ◌||◌, ◌==◌, Option,
  none, some, List, [], ◌∷◌, ◌++◌, map, length, ℤ, pos, negsuc, ltb_ℤ, leb_ℤ, Time, Duration,
  Annotations, add_time, is_zero_time, nanos_per_minute, str_eq, get, put, empty_map, any,
  if◌then◌else◌,
}
use node_rotation_controller.Annotations.{
  TimeText, state, state_pending, state_draining, state_failed, last_rotation_at,
}
use node_rotation_controller.Schedule.{Severity, warn, fatal, Finding}
use node_rotation_controller.Schedule.Derive.{has_fatal}
use node_rotation_controller.Selection.{Claim, pick_earliest_deadline_eligible}
use node_rotation_controller.Selection
use node_rotation_controller.Selection.Census.{Census, take_census}
use node_rotation_controller.Decide.{Gate, gate_none, start_gate, surgeless_fallback}
use node_rotation_controller.Decide
use node_rotation_controller.Window.{Zones, Schedule, in_window}
use node_rotation_controller.Window.Search.{occurrence_bounds}
use node_rotation_controller.Sim.{
  tick, max_steps, SimEvent, Kind, window_open, window_close, rotation_start, node_is_ready,
  rotation_done, expire_after_breach, blocked_by_gate, no_eligible_claim, birth_surge,
  birth_surgeless, rotation_surge, rotation_surgeless, Rotation, Generation, SimNode, name_of,
  deadline, InFlight, Run,
}
use node_rotation_controller.Sim.Fleet.{
  update_at, get_elem?, emit, diag_once, record_generation, drain_for, open_window, close_window,
}
use node_rotation_controller.Sim.Loop.{event_at, set_node}
use node_rotation_controller.Sim.Intervals.{
  flush_blocked, record_blocked, flush_census, record_census,
}

abbrev state_annotations : String → Annotations
state_annotations s = if str_eq s "" then empty_map else put empty_map state s

abbrev pub view_of : SimNode → Claim
view_of n = record {
  name = name_of n;
  created_at = n.created_at;
  deleting = false;
  expire_after = some n.expire_after;
  tgp = n.tgp;
  ready = true;
  annotations = state_annotations n.state;
}

unfoldable pub views : Run → List Claim
views r = map view_of r.nodes

-- slotOf, none for -1.
abbrev pub index_of : String → List SimNode → Option ℕ
index_of name [] = none
index_of name (n ∷ ns) =
    let later = index_of name ns in
    if str_eq (name_of n) name then some 0 else elim later [ none ↦ none | some i ↦ some (suc i) ]

unfoldable pub slot_of : Run → String → Option ℕ
slot_of r name = index_of name r.nodes

-- hasFailedClaim
unfoldable pub any_failed : List Claim → Bool
any_failed vs = any (λ c. str_eq (get c.annotations state) state_failed) vs

abbrev pub bounds_or_zero : Bool → Option (Time × Time) → Time × Time
bounds_or_zero true (some b) = b
bounds_or_zero true none = (pos 0, pos 0)
bounds_or_zero false o = (pos 0, pos 0)

-- The replacement of a surge, at its start.
abbrev pub surged : Time → SimNode → Run → SimNode
surged now n r = record {
  base = n.base;
  gen = suc n.gen;
  created_at = now;
  expire_after = r.template.expire_after;
  tgp = r.template.tgp;
  state = "";
  breached = false;
}

abbrev rotation_from : ℕ → SimNode → Time → Bool → Rotation
rotation_from slot n now surgeless = record {
  slot = slot;
  from_gen = n.gen;
  to_gen = (if surgeless then none else some (suc n.gen));
  mode = (if surgeless then rotation_surgeless else rotation_surge);
  start = now;
  ready = pos 0;
  done = pos 0;
}

abbrev in_flight_from : ℕ → Time → Duration → Bool → Run → InFlight
in_flight_from slot now drain surgeless r =
    let ready = add_time now r.env.provisioning in
    record {
      slot = slot;
      start = now;
      ready_at = (if surgeless then pos 0 else ready);
      done_at = add_time (if surgeless then now else ready) drain;
      surgeless = surgeless;
      rot_idx = length r.tl.rotations;
      gen_idx = (if surgeless then none else some (length r.tl.generations));
    }

-- From the pick on.
unfoldable pub begin_rotation : ℕ → SimNode → Bool → Time → Run → Run
begin_rotation slot n surgeless now r0 =
    let (drain, r) = drain_for n r0 in
    let r' =
      set_node slot (record n { state = (if surgeless then state_draining else state_pending) })
        (if surgeless
          then r
          else record_generation slot (surged now n r) birth_surge (some n.gen) true r) in
    emit (record (event_at rotation_start now (name_of n)) { surgeless = surgeless })
      (record r' {
        tl = record r'.tl {
          rotations = r'.tl.rotations ++ (rotation_from slot n now surgeless ∷ []);
        };
        rot = some (in_flight_from slot now drain surgeless r);
      })

abbrev pub begin_at : Option ℕ → Bool → Time → Run → Run
begin_at none surgeless now r = r
begin_at (some slot) surgeless now r = elim (get_elem? slot r.nodes) [
  | none ↦ r
  | some n ↦ begin_rotation slot n surgeless now r
]

module _ ⦃text : TimeText⦄ ⦃zones : Zones⦄ where
  -- selectionInputs
  unfoldable pub selection_inputs : Schedule → Run → Time → List Claim → Selection.Inputs
  selection_inputs sched r now vs =
      let b = bounds_or_zero (any_failed vs) (occurrence_bounds sched now) in
      record {
        now = now;
        lead_time = r.res.lead_time;
        override = r.res.override;
        retry_backoff = r.res.retry_backoff;
        excluded = λ name. false;
        window_start = b.0;
        window_end = b.1;
      }

unfoldable pub gate_inputs : Run → Time → Bool → Decide.Inputs
gate_inputs r now in_window = record {
  now = now;
  in_window = in_window;
  annotations = r.pool_ann;
  cooldown = r.res.cooldown;
  failure_pause = r.res.failure_pause;
  fallback_enabled = r.fallback_enabled;
  ready_timeout = r.res.ready_timeout;
  drain_bound = r.res.drain_bound;
}

module _ ⦃text : TimeText⦄ ⦃zones : Zones⦄ (sched : Schedule) where
  abbrev pub start_with : Time → Decide.Inputs → List Claim → Option Claim → Run → Run
  start_with now gi vs none r =
      record_census now (take_census vs (selection_inputs sched r now vs)) r
  start_with now gi vs (some pick) r =
      let r' = flush_census now r in
      begin_at (slot_of r' pick.name) (surgeless_fallback pick gi) now r'

  abbrev pub start_open : Time → Decide.Inputs → Run → Run
  start_open now gi r0 =
      let r = flush_blocked now r0 in
      let vs = views r in
      start_with now gi vs (pick_earliest_deadline_eligible vs (selection_inputs sched r now vs)) r

  -- maybeStart
  unfoldable pub maybe_start : Time → Bool → Run → Run
  maybe_start now in_window r =
      if has_fatal r.res.derived.findings
      then r
      else (let gi = gate_inputs r now in_window in
          let (is_open, gate) = start_gate gi in
          if not is_open then record_blocked now gate (flush_census now r) else start_open now gi r)
