-- ===== src/Sim/Drive.antt =====
-- internal/sim: the loop of the virtual clock, and a run of the simulator.
pub mod Clock
pub mod Within
pub mod Step
pub mod Through
use node_rotation_controller.Base.{
  ℕ, zero, suc, ◌+◌, ◌-◌, ◌*◌, ◌/◌, ◌%◌, String, Bool, true, false, not, ◌&&◌, ◌||◌, ◌==◌, Option,
  none, some, List, [], ◌∷◌, map, length, ℤ, pos, negsuc, ltb_ℤ, leb_ℤ, Time, Duration, Annotations,
  add_time, is_zero_time, nanos_per_minute, str_eq, get, put, empty_map, any, if◌then◌else◌,
}
use node_rotation_controller.Annotations.{
  TimeText, state, state_pending, state_draining, state_failed, last_rotation_at,
}
use node_rotation_controller.Schedule.{Severity, warn, fatal, Finding}
use node_rotation_controller.Schedule.Derive.{has_fatal}
use node_rotation_controller.Selection.{Claim, pick_earliest_deadline_eligible}
use node_rotation_controller.Selection
use node_rotation_controller.Selection.Census.{Census, take_census}
use node_rotation_controller.Decide.{Gate, gate_none, start_gate, surgeless_fallback}
use node_rotation_controller.Decide
use node_rotation_controller.Window.{Zones, Schedule, in_window}
use node_rotation_controller.Window.Search.{occurrence_bounds}
use node_rotation_controller.Sim.{
  tick, max_steps, SimEvent, Kind, window_open, window_close, rotation_start, node_is_ready,
  rotation_done, expire_after_breach, blocked_by_gate, no_eligible_claim, birth_surge,
  birth_surgeless, rotation_surge, rotation_surgeless, Rotation, Generation, SimNode, name_of,
  deadline, InFlight, Run,
}
use node_rotation_controller.Sim.Fleet.{
  init_fleet, update_at, get_elem?, emit, diag_once, record_generation, drain_for, open_window,
  close_window,
}
use node_rotation_controller.Policy.{Policy, Formats, apply_defaults, validate}
use node_rotation_controller.Window.{new}
use node_rotation_controller.Sim.{FleetSpec, Env, Options, Timeline, SimResolved}
use node_rotation_controller.Sim.Resolve.{sim_resolve}
use node_rotation_controller.Sim.Loop.{next, advance, breach_check, event_at}
use node_rotation_controller.Sim.Intervals.{flush_blocked, flush_census}
use node_rotation_controller.Sim.Start.{maybe_start}

-- The finding of firstFatal.
abbrev pub first_fatal : List Finding → Option Finding
first_fatal [] = none
first_fatal (f ∷ fs) =
    let later = first_fatal fs in elim f.severity [ fatal ↦ some f | warn ↦ later ]

abbrev warn_of_fatal : Option Finding → Run → Run
warn_of_fatal none r = r
warn_of_fatal (some f) r =
    diag_once (record { severity = fatal; code = f.code; subject = f.code; amounts = [] }) r

-- Where the loop stopped: the last instant that it processed, and whether its steps ran out.
pub record Stop : Type 0 where
  pub run : Run
  pub last : Time
  pub exhausted : Bool

abbrev exhaust : Time → Run → Run
exhaust last r =
    diag_once
      (record {
        severity = warn;
        code = "StepBudgetExhausted";
        subject = "";
        amounts = last ∷ pos max_steps ∷ tick ∷ [];
      })
      (record r { tl = record r.tl { partial = true } })

-- The trailing edge of the horizon.
unfoldable pub finish : Stop → Run
finish s =
    let through = (if s.exhausted then s.last else s.run.opts.end_of) in
    let r = record s.run { tl = record s.run.tl { simulated_through = through } } in
    close_window through true
      (flush_census through (flush_blocked through (breach_check through r)))

module _ ⦃text : TimeText⦄ ⦃zones : Zones⦄ (sched : Schedule) where
  abbrev pub cross_edge : Time → Bool → Bool → Run → Run
  cross_edge now true true r = r
  cross_edge now false false r = r
  cross_edge now false true r = open_window sched now (emit (event_at window_open now "") r)
  cross_edge now true false r = close_window now false (emit (event_at window_close now "") r)

  abbrev pub start_unless_rotating : Time → Bool → Run → Run
  start_unless_rotating now is_open r = elim r.rot [
    | none ↦ maybe_start sched now is_open r
    | some rot ↦ r
  ]

  -- The body of the loop, up to the next instant.
  unfoldable pub step_at : Time → Bool → Run → Run
  step_at now was_open r =
      let is_open = in_window sched now in
      start_unless_rotating now is_open
        (breach_check now (advance now (cross_edge now was_open is_open r)))

  -- The loop, with the steps that are left.
  unfoldable pub loop_from : ℕ → Time → Bool → Time → Run → Stop
  loop_from zero now was_open last r =
      if ltb_ℤ r.opts.end_of now
      then record { run = r; last = last; exhausted = false }
      else record { run = exhaust last r; last = last; exhausted = true }
  loop_from (suc steps) now was_open last r = elim (ltb_ℤ r.opts.end_of now) [
    | true ↦ record { run = r; last = last; exhausted = false }
    | false ↦
        let r' = step_at now was_open r in
        elim (ltb_ℤ now (next r' now)) [
          | false ↦ record { run = r'; last = now; exhausted = false }
          | true ↦ loop_from steps (next r' now) (in_window sched now) now r'
        ]
  ]

  abbrev pub open_at_start : Bool → Time → Run → Run
  open_at_start false now r = r
  open_at_start true now r = open_window sched now (emit (event_at window_open now "") r)

  -- loop, with the budget of steps.
  unfoldable pub loop : ℕ → Run → Run
  loop steps r0 =
      let r = warn_of_fatal (first_fatal r0.res.derived.findings) r0 in
      let now = r0.opts.start in
      let is_open = in_window sched now in
      finish (loop_from steps now is_open now (open_at_start is_open now r))

-- sort.SliceStable on the events, by their instants: an event goes before the first later one.
abbrev insert_event : SimEvent → List SimEvent → List SimEvent
insert_event e [] = e ∷ []
insert_event e (d ∷ ds) =
    let later = insert_event e ds in if ltb_ℤ e.at d.at then e ∷ d ∷ ds else d ∷ later

-- The events of a run, of which the latest stands first.
unfoldable pub sort_events : List SimEvent → List SimEvent
sort_events [] = []
sort_events (e ∷ es) = insert_event e (sort_events es)
