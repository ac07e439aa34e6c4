-- ===== src/Sim/Drive/Step.antt =====
-- A step of the loop of internal/sim records nothing beyond its own instant.
use node_rotation_controller.Base.{
  ℕ, Bool, true, false, not, Option, none, some, List, [], ◌∷◌, ◌++◌, ltb_ℤ, Time, Duration, All,
  arith, if◌then◌else◌,
}
use node_rotation_controller.Annotations.{TimeText}
use node_rotation_controller.Decide.{Gate, start_gate}
use node_rotation_controller.Decide
use node_rotation_controller.Schedule.Derive.{has_fatal}
use node_rotation_controller.Selection.{Claim}
use node_rotation_controller.Window.{Zones, Schedule, in_window}
use node_rotation_controller.Sim.{
  WindowInterval, SimNode, InFlight, Run, window_open, window_close, rotation_start, name_of,
  birth_surge,
}
use node_rotation_controller.Sim.Fleet.{
  emit, drain_cap, drain_for, open_window, close_window, update_last, get_elem?, record_generation,
}
use node_rotation_controller.Sim.Loop.{event_at}
use node_rotation_controller.Sim.Start.{
  begin_rotation, begin_at, start_with, maybe_start, gate_inputs, surged,
}
use node_rotation_controller.Sim.Drive.{cross_edge, start_unless_rotating, step_at}
use node_rotation_controller.Sim.Drive.Within.{
  IsWithin, Frame, WindowBy, if-IsWithin, emit-IsWithin, diag_once-IsWithin,
  record_generation-IsWithin, advance-IsWithin, breach_check-IsWithin, flush_blocked-IsWithin,
  flush_census-IsWithin, record_blocked-IsWithin, record_census-IsWithin,
}

append_window :
    (now : Time) (ws : List WindowInterval) (w : WindowInterval)
    → All (WindowBy now) ws
    → WindowBy now w
    → All (WindowBy now) (ws ++ (w ∷ []))
append_window now [] w h k = (k, tt)
append_window now (x ∷ xs) w (h, hs) k = (h, append_window now xs w hs k)

end_last :
    (now : Time) (clipped : Bool) (ws : List WindowInterval)
    → All (WindowBy now) ws
    → All (WindowBy now) (update_last (λ w. record w { end_of = now; end_clipped = clipped }) ws)
end_last now clipped [] h = tt
end_last now clipped (x ∷ []) (h, hs) = ((h.0, omega arith), tt)
end_last now clipped (x ∷ y ∷ ys) (h, hs) = (h, end_last now clipped (y ∷ ys) hs)

module _ (o : Frame) (now : Time) where
  pub close_window-IsWithin :
      (clipped : Bool) (r : Run) → IsWithin o now r → IsWithin o now (close_window now clipped r)
  unfolding close_window
  close_window-IsWithin clipped r h =
      if-IsWithin o now (not r.win_open) r _ (λ e. h)
        (λ e.
          let (i, z, es, ws, b, c) = h.recorded in
          record { recorded = (i, z, es, end_last now clipped r.tl.windows ws, b, c) })

  drain_for-IsWithin : (n : SimNode) (r : Run) → IsWithin o now r → IsWithin o now (drain_for n r).1
  unfolding drain_for
  drain_for-IsWithin n r h =
      either (ltb_ℤ (drain_cap n).0 r.env.drain) _ _ _ _ (diag_once-IsWithin o now _ r h) h
    where
      either :
          (b : Bool) (d e : Duration) (x y : Run)
          → IsWithin o now x
          → IsWithin o now y
          → IsWithin o now (if◌then◌else◌ {A = Duration × Run} b (d, x) (e, y)).1
      either true d e x y h k = h
      either false d e x y h k = k

  begin_rotation-IsWithin :
      (slot : ℕ) (n : SimNode) (surgeless : Bool) (r : Run)
      → IsWithin o now r
      → IsWithin o now (begin_rotation slot n surgeless now r)
  unfolding begin_rotation
  begin_rotation-IsWithin slot n surgeless r h =
      let k = drain_for-IsWithin n r h in
      emit-IsWithin o now
        (record (event_at rotation_start now (name_of n)) { surgeless = surgeless }) _
        (omega arith, h.recorded.1)
        (record {
          recorded =
              (if-IsWithin o now surgeless (drain_for n r).1
                (record_generation slot (surged now n (drain_for n r).1) birth_surge (some n.gen)
                  true (drain_for n r).1)
                (λ e. k)
                (λ e.
                  record_generation-IsWithin o now slot _ birth_surge (some n.gen) true _
                    k)).recorded;
        })

  begin_at-IsWithin :
      (slot : Option ℕ) (surgeless : Bool) (r : Run)
      → IsWithin o now r
      → IsWithin o now (begin_at slot surgeless now r)
  begin_at-IsWithin none surgeless r h = h
  begin_at-IsWithin (some slot) surgeless r h = on (get_elem? slot r.nodes)
    where
      on :
          (n : Option SimNode)
          → IsWithin o now (elim n [ none ↦ r | some m ↦ begin_rotation slot m surgeless now r ])
      on none = h
      on (some n) = begin_rotation-IsWithin slot n surgeless r h

  module _ ⦃text : TimeText⦄ ⦃zones : Zones⦄ (sched : Schedule) where
    open_window-IsWithin : (r : Run) → IsWithin o now r → IsWithin o now (open_window sched now r)
    unfolding open_window
    open_window-IsWithin r h =
        let (i, z, es, ws, b, c) = h.recorded in
        record { recorded = (i, z, es, append_window now r.tl.windows _ ws (omega arith, z), b, c) }

    pub opened-IsWithin :
        (r : Run)
        → IsWithin o now r
        → IsWithin o now (open_window sched now (emit (event_at window_open now "") r))
    opened-IsWithin r h =
        open_window-IsWithin _
          (emit-IsWithin o now (event_at window_open now "") r (omega arith, h.recorded.1) h)

    cross_edge-IsWithin :
        (was is : Bool) (r : Run)
        → IsWithin o now r
        → IsWithin o now (cross_edge sched now was is r)
    cross_edge-IsWithin true true r h = h
    cross_edge-IsWithin false false r h = h
    cross_edge-IsWithin false true r h = opened-IsWithin r h
    cross_edge-IsWithin true false r h =
        close_window-IsWithin false _
          (emit-IsWithin o now (event_at window_close now "") r (omega arith, h.recorded.1) h)

    start_with-IsWithin :
        (gi : Decide.Inputs) (vs : List Claim) (pick : Option Claim) (r : Run)
        → IsWithin o now r
        → IsWithin o now (start_with sched now gi vs pick r)
    start_with-IsWithin gi vs none r h = record_census-IsWithin o now _ r h
    start_with-IsWithin gi vs (some c) r h =
        begin_at-IsWithin _ _ _ (flush_census-IsWithin o now r h)

    maybe_start-IsWithin :
        (is : Bool) (r : Run) → IsWithin o now r → IsWithin o now (maybe_start sched now is r)
    unfolding maybe_start
    maybe_start-IsWithin is r h =
        if-IsWithin o now (has_fatal r.res.derived.findings) r _ (λ e. h)
          (λ e.
            if-IsWithin o now (not (start_gate (gate_inputs r now is)).0) _ _
              (λ f. record_blocked-IsWithin o now _ _ (flush_census-IsWithin o now r h))
              (λ f. start_with-IsWithin _ _ _ _ (flush_blocked-IsWithin o now r h)))

    start_unless_rotating-IsWithin :
        (is : Bool) (r : Run)
        → IsWithin o now r
        → IsWithin o now (start_unless_rotating sched now is r)
    start_unless_rotating-IsWithin is r h = on r.rot
      where
        on :
            (k : Option InFlight)
            → IsWithin o now (elim k [ none ↦ maybe_start sched now is r | some rot ↦ r ])
        on none = maybe_start-IsWithin is r h
        on (some k) = h

    pub step_at-IsWithin :
        (was : Bool) (r : Run) → IsWithin o now r → IsWithin o now (step_at sched now was r)
    unfolding step_at
    step_at-IsWithin was r h = start_unless_rotating-IsWithin _ _ (
        breach_check-IsWithin o now _
          (advance-IsWithin o now _ (cross_edge-IsWithin was (in_window sched now) r h)))
