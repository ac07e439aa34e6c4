-- ===== src/Sim/Drive/Within.antt =====
-- No event and no window of a run of internal/sim lies beyond the instant that it was simulated
-- through.
use node_rotation_controller.Base.{
  ℕ, Bool, true, false, not, ◌&&◌, Option, none, some, List, [], ◌∷◌, ◌≡◌, refl, pos, ◌≤ℤ◌, ltb_ℤ,
  leb_ℤ, is_zero_time, str_eq, ◌==◌, Time, All, arith, if◌then◌else◌, any,
}
use node_rotation_controller.Annotations.{TimeText, state_pending}
use node_rotation_controller.Decide.{Gate}
use node_rotation_controller.Selection.Census.{Census}
use node_rotation_controller.Sim.{
  SimEvent, WindowInterval, Generation, Diagnostic, SimNode, InFlight, Options, Run, deadline,
  name_of, node_is_ready, rotation_done, expire_after_breach, BirthMode, birth_surgeless,
}
use node_rotation_controller.Sim.Fleet.{
  same_diagnostic, emit, diag_once, record_generation, get_elem?,
}
use node_rotation_controller.Sim.Loop.{
  edit_generation, mark_ready, record_replacement, complete, advance_node, advance_flight, advance,
  check_nodes, breaches, breach_check, replacement_of, event_at,
}
use node_rotation_controller.Sim.Intervals.{
  flush_blocked, record_blocked, flush_held, flush_census, record_census, holds_census, gate_number,
}

abbrev pub EventBy : Time → SimEvent → Type 0
EventBy now e = (e.at ≤ℤ now) × (e.until ≤ℤ now)

abbrev pub WindowBy : Time → WindowInterval → Type 0
WindowBy now w = (w.start ≤ℤ now) × (w.end_of ≤ℤ now)

-- The options of a run, and where it says that it was simulated through.
abbrev pub Frame : Type 0
Frame = Options × Time

abbrev pub frame_of : Run → Frame
frame_of r = (r.opts, r.tl.simulated_through)

abbrev Recorded : Frame → Time → Run → Type 0
Recorded o now r =
    (frame_of r ≡ o)
    × (pos 0 ≤ℤ now)
    × All (EventBy now) r.tl.events
    × All (WindowBy now) r.tl.windows
    × (r.block_from ≤ℤ now)
    × (r.census_from ≤ℤ now)

-- What a run in this frame has recorded by an instant.
pub record IsWithin (o : Frame) (now : Time) (r : Run) : Type 0 where
  pub recorded : Recorded o now r

events_later :
    (now later : Time) (es : List SimEvent)
    → now ≤ℤ later
    → All (EventBy now) es
    → All (EventBy later) es
events_later now later [] h k = tt
events_later now later (e ∷ es) h (k, ks) =
    ((omega arith, omega arith), events_later now later es h ks)

windows_later :
    (now later : Time) (ws : List WindowInterval)
    → now ≤ℤ later
    → All (WindowBy now) ws
    → All (WindowBy later) ws
windows_later now later [] h k = tt
windows_later now later (w ∷ ws) h (k, ks) =
    ((omega arith, omega arith), windows_later now later ws h ks)

module _ (o : Frame) where
  pub later-IsWithin :
      (now later : Time) (r : Run) → now ≤ℤ later → IsWithin o now r → IsWithin o later r
  later-IsWithin now later r h w =
      let (i, z, es, ws, b, c) = w.recorded in
      record {
        recorded = (
          i,
          omega arith,
          events_later now later r.tl.events h es,
          windows_later now later r.tl.windows h ws,
          omega arith,
          omega arith,
        );
      }

  module _ (now : Time) where
    pub emit-IsWithin :
        (e : SimEvent) (r : Run) → EventBy now e → IsWithin o now r → IsWithin o now (emit e r)
    emit-IsWithin e r h w =
        let (i, z, es, ws, b, c) = w.recorded in record { recorded = (i, z, (h, es), ws, b, c) }

    pub if-IsWithin :
        (b : Bool) (x y : Run)
        → (b ≡ true → IsWithin o now x)
        → (b ≡ false → IsWithin o now y)
        → IsWithin o now (if b then x else y)
    if-IsWithin true x y h k = h refl
    if-IsWithin false x y h k = k refl

    pub diag_once-IsWithin :
        (d : Diagnostic) (r : Run) → IsWithin o now r → IsWithin o now (diag_once d r)
    unfolding diag_once
    diag_once-IsWithin d r h =
        if-IsWithin (any (same_diagnostic d) r.tl.diagnostics) _ _ (λ e. h)
          (λ e. record { recorded = h.recorded })

    pub record_generation-IsWithin :
        (slot : ℕ) (n : SimNode) (birth : BirthMode) (p : Option ℕ) (b : Bool) (r : Run)
        → IsWithin o now r
        → IsWithin o now (record_generation slot n birth p b r)
    unfolding record_generation
    record_generation-IsWithin slot n birth p b r h = record { recorded = h.recorded }

    edit_generation-IsWithin :
        (i : Option ℕ) (f : Generation → Generation) (r : Run)
        → IsWithin o now r
        → IsWithin o now (edit_generation i f r)
    edit_generation-IsWithin none f r h = h
    edit_generation-IsWithin (some i) f r h = record { recorded = h.recorded }

    mark_ready-IsWithin :
        (rot : InFlight) (n : SimNode) (r : Run)
        → IsWithin o now r
        → IsWithin o now (mark_ready now rot n r)
    mark_ready-IsWithin rot n r h =
        if-IsWithin (not rot.surgeless && (str_eq n.state state_pending && leb_ℤ rot.ready_at now))
          _ r
          (λ e.
            edit_generation-IsWithin rot.gen_idx (λ g. record g { ready_at = rot.ready_at }) _
              (record {
                recorded =
                    (emit-IsWithin (event_at node_is_ready rot.ready_at (name_of n)) r
                      (
                        last_reached (not rot.surgeless) (str_eq n.state state_pending) rot.ready_at
                            e,
                        h.recorded.1,
                      )
                      h).recorded;
              }))
          (λ e. h)
      where
        last_reached : (a b : Bool) (t : Time) → a && (b && leb_ℤ t now) ≡ true → t ≤ℤ now
        last_reached a b t e = ground arith

    record_replacement-IsWithin :
        (rot : InFlight) (n : SimNode) (before : ℕ) (r : Run)
        → IsWithin o now r
        → IsWithin o now (record_replacement rot n before r)
    record_replacement-IsWithin rot n before r h =
        if-IsWithin rot.surgeless _ _
          (λ e. record {
            recorded =
                (record_generation-IsWithin rot.slot n birth_surgeless (some before) false r
                  h).recorded;
          })
          (λ e. edit_generation-IsWithin rot.gen_idx (λ g. record g { provisional = false }) r h)

    complete-IsWithin :
        ⦃text : TimeText⦄ (rot : InFlight) (n : SimNode) (r : Run)
        → rot.done_at ≤ℤ now
        → IsWithin o now r
        → IsWithin o now (complete rot n r)
    complete-IsWithin rot n r d h = record {
      recorded =
          (record_replacement-IsWithin rot (replacement_of rot r n) n.gen _ (record {
            recorded =
                (emit-IsWithin (event_at rotation_done rot.done_at "") r (d, h.recorded.1)
                  h).recorded;
          })).recorded;
    }

    pub advance-IsWithin :
        ⦃text : TimeText⦄ (r : Run) → IsWithin o now r → IsWithin o now (advance now r)
    unfolding advance
    advance-IsWithin r h = flight r.rot
      where
        node : (rot : InFlight) (n : Option SimNode) → IsWithin o now (advance_node now rot n r)
        node rot none = h
        node rot (some n) =
            if-IsWithin (ltb_ℤ now rot.done_at) _ _ (λ e. mark_ready-IsWithin rot n r h)
              (λ e. complete-IsWithin rot n _ (ground arith) (mark_ready-IsWithin rot n r h))

        flight : (rot : Option InFlight) → IsWithin o now (advance_flight now rot r)
        flight none = h
        flight (some rot) = node rot (get_elem? rot.slot r.nodes)

    check_nodes-IsWithin :
        (ns : List SimNode) (r : Run) → IsWithin o now r → IsWithin o now (check_nodes now ns r).1
    check_nodes-IsWithin [] r h = h
    check_nodes-IsWithin (n ∷ ns) r h = check_nodes-IsWithin ns _ (
        if-IsWithin (breaches now n) _ r
          (λ e.
            emit-IsWithin (event_at expire_after_breach (deadline n) (name_of n)) r
              (reached n.breached e, h.recorded.1) h)
          (λ e. h))
      where
        reached :
            (b : Bool) → (if b then false else leb_ℤ (deadline n) now) ≡ true → deadline n ≤ℤ now
        reached b e = ground arith

    pub breach_check-IsWithin : (r : Run) → IsWithin o now r → IsWithin o now (breach_check now r)
    unfolding breach_check
    breach_check-IsWithin r h = record { recorded = (check_nodes-IsWithin r.nodes r h).recorded }

    pub flush_blocked-IsWithin : (r : Run) → IsWithin o now r → IsWithin o now (flush_blocked now r)
    unfolding flush_blocked
    flush_blocked-IsWithin r h =
        if-IsWithin (is_zero_time r.block_from) r _ (λ e. h)
          (λ e.
            let (i, z, es, ws, b, c) = h.recorded in
            record { recorded = (i, z, ((b, omega arith), es), ws, z, c) })

    pub flush_census-IsWithin : (r : Run) → IsWithin o now r → IsWithin o now (flush_census now r)
    unfolding flush_census
    flush_census-IsWithin r h = held r.census h
      where
        held : (k : Option Census) → IsWithin o now r → IsWithin o now (flush_held now k r)
        held none h = h
        held (some k) h =
            let (i, z, es, ws, b, c) = h.recorded in
            record { recorded = (i, z, ((c, omega arith), es), ws, b, c) }

    pub record_blocked-IsWithin :
        (g : Gate) (r : Run) → IsWithin o now r → IsWithin o now (record_blocked now g r)
    unfolding record_blocked
    record_blocked-IsWithin g r h =
        if-IsWithin ((gate_number r.block_gate == gate_number g) && not (is_zero_time r.block_from))
          r _ (λ e. h)
          (λ e.
            let (i, z, es, ws, b, c) = (flush_blocked-IsWithin r h).recorded in
            record { recorded = (i, z, es, ws, omega arith, c) })

    pub record_census-IsWithin :
        (k : Census) (r : Run) → IsWithin o now r → IsWithin o now (record_census now k r)
    unfolding record_census
    record_census-IsWithin k r h =
        if-IsWithin (holds_census r.census k) r _ (λ e. h)
          (λ e.
            let (i, z, es, ws, b, c) = (flush_census-IsWithin r h).recorded in
            record { recorded = (i, z, es, ws, b, omega arith) })
