-- ===== src/Sim/Drive/Through.antt =====
-- The loop of internal/sim records nothing beyond the instant that it says it simulated through.
use node_rotation_controller.Base.{
  ℕ, zero, suc, Bool, true, false, Option, none, some, [], ◌≡◌, refl, sym, ap, subst, ℤ, pos, ◌≤ℤ◌,
  ◌<ℤ◌, ltb_ℤ, Time, All, arith, if◌then◌else◌,
}
use node_rotation_controller.Annotations.{TimeText}
use node_rotation_controller.Schedule.{Finding}
use node_rotation_controller.Window.{Zones, Schedule, in_window}
use node_rotation_controller.Sim.{Run}
use node_rotation_controller.Sim.Fleet.{close_window}
use node_rotation_controller.Sim.Loop.{next, breach_check}
use node_rotation_controller.Sim.Intervals.{flush_blocked, flush_census}
use node_rotation_controller.Sim.Drive.{
  Stop, first_fatal, warn_of_fatal, exhaust, step_at, loop_from, finish, open_at_start, loop,
}
use node_rotation_controller.Sim.Drive.Clock.{next-advances}
use node_rotation_controller.Sim.Drive.Within.{
  IsWithin, Frame, frame_of, WindowBy, EventBy, later-IsWithin, diag_once-IsWithin,
  breach_check-IsWithin, flush_blocked-IsWithin, flush_census-IsWithin,
}
use node_rotation_controller.Sim.Drive.Step.{
  close_window-IsWithin, opened-IsWithin, step_at-IsWithin,
}

module _ ⦃text : TimeText⦄ ⦃zones : Zones⦄ (sched : Schedule) (o : Frame) where
  -- Where the loop stopped, nothing lies beyond the last instant, nor that beyond the end.
  abbrev StopsWithin : Stop → Type 0
  StopsWithin s = IsWithin o s.last s.run × (s.last ≤ℤ o.0.end_of)

  not_after_end :
      (now last : Time) (r : Run)
      → IsWithin o last r
      → ltb_ℤ r.opts.end_of now ≡ false
      → now ≤ℤ o.0.end_of
  not_after_end now last r h e =
      subst (λ (p : Frame). now ≤ℤ p.0.end_of) h.recorded.0 (ground arith)

  if_stops :
      (b : Bool) (s t : Stop)
      → (b ≡ true → StopsWithin s)
      → (b ≡ false → StopsWithin t)
      → StopsWithin (elim b [ true ↦ s | false ↦ t ])
  if_stops true s t h k = h refl
  if_stops false s t h k = k refl

  exhaust-IsWithin : (last : Time) (r : Run) → IsWithin o last r → IsWithin o last (exhaust last r)
  exhaust-IsWithin last r h = diag_once-IsWithin o last _ _ (record { recorded = h.recorded })

  pub loop_from-StopsWithin :
      (steps : ℕ) (now : Time) (was : Bool) (last : Time) (r : Run)
      → IsWithin o last r
      → last ≤ℤ now
      → last ≤ℤ o.0.end_of
      → StopsWithin (loop_from sched steps now was last r)
  unfolding loop_from
  loop_from-StopsWithin zero now was last r h l k = over (ltb_ℤ r.opts.end_of now)
    where
      over :
          (b : Bool)
          → StopsWithin (
              if◌then◌else◌ {A = Stop} b
                (record { run = r; last = last; exhausted = false })
                (record { run = exhaust last r; last = last; exhausted = true }))
      over true = (h, k)
      over false = (exhaust-IsWithin last r h, k)
  loop_from-StopsWithin (suc n) now was last r h l k =
      if_stops (ltb_ℤ r.opts.end_of now) _ _ (λ e. (h, k))
        (λ e.
          let e' = not_after_end now last r h e in
          let h' = step_at-IsWithin o now sched was r (later-IsWithin o last now r l h) in
          if_stops (ltb_ℤ now (next (step_at sched now was r) now)) _ _
            (λ f.
              loop_from-StopsWithin n _ _ now _ h'
                (le_of_lt now _ (next-advances (step_at sched now was r) now).0) e')
            (λ f. (h', e')))
    where
      le_of_lt : (a b : ℤ) → a <ℤ b → a ≤ℤ b
      le_of_lt a b h = omega arith

  abbrev edge_at : Time → Run → Run
  edge_at t r = close_window t true (
      flush_census t (
        flush_blocked t (breach_check t (record r { tl = record r.tl { simulated_through = t } }))))

  abbrev EndsBy : Time → Run → Type 0
  EndsBy t r = (t ≤ℤ o.0.end_of) × All (EventBy t) r.tl.events × All (WindowBy t) r.tl.windows

  -- The trailing edge, at an instant that is not before the last one.
  EndsBy-at :
      (t : Time) (s : Stop)
      → IsWithin o s.last s.run
      → s.last ≤ℤ t
      → t ≤ℤ o.0.end_of
      → EndsBy (edge_at t s.run).tl.simulated_through (edge_at t s.run)
  EndsBy-at t s h l e =
      let r = record s.run { tl = record s.run.tl { simulated_through = t } } in
      let f : Frame = (s.run.opts, t) in
      let (i, z, es, ws, b, c) = (later-IsWithin o s.last t s.run l h).recorded in
      let k : IsWithin f t r = record { recorded = (refl, z, es, ws, b, c) } in
      let done =
        (close_window-IsWithin f t true _ (
          flush_census-IsWithin f t _
            (flush_blocked-IsWithin f t _ (breach_check-IsWithin f t r k)))).recorded in
      subst (λ x. EndsBy x (edge_at t s.run)) (ap (λ (p : Frame). p.1) (sym done.0))
        (e, done.2, done.3)

  finish-EndsBy : (s : Stop) → StopsWithin s → EndsBy (finish s).tl.simulated_through (finish s)
  unfolding finish
  finish-EndsBy s h = on s.exhausted
    where
      on :
          (b : Bool)
          → EndsBy
              (edge_at (if b then s.last else s.run.opts.end_of) s.run).tl.simulated_through
              (edge_at (if b then s.last else s.run.opts.end_of) s.run)
      on true = EndsBy-at s.last s h.0 (omega arith) h.1
      on false =
          let e = ap (λ (p : Frame). p.0.end_of) h.0.recorded.0 in
          EndsBy-at s.run.opts.end_of s h.0 (subst (λ t. s.last ≤ℤ t) (sym e) h.1)
            (subst (λ t. t ≤ℤ o.0.end_of) (sym e) (omega arith))

-- A run that has recorded nothing yet.
pub record IsFresh (r : Run) : Type 0 where
  pub no_events : r.tl.events ≡ []
  pub no_windows : r.tl.windows ≡ []
  pub no_block : r.block_from ≡ pos 0
  pub no_census : r.census_from ≡ pos 0

IsFresh-IsWithin :
    (r : Run) → IsFresh r → pos 0 ≤ℤ r.opts.start → IsWithin (frame_of r) r.opts.start r
IsFresh-IsWithin r h z = record {
  recorded = (
    refl,
    z,
    subst (All (EventBy r.opts.start)) (sym h.no_events) tt,
    subst (All (WindowBy r.opts.start)) (sym h.no_windows) tt,
    subst (λ t. t ≤ℤ r.opts.start) (sym h.no_block) z,
    subst (λ t. t ≤ℤ r.opts.start) (sym h.no_census) z,
  );
}

-- Whatever the schedule, the fleet and the budget of steps are: after the loop from a fresh run
-- whose horizon is in order and starts no earlier than the zero time, no event starts or ends, and
-- no window opens or closes, beyond the instant that the run says it was simulated through, and
-- that lies within the horizon.
pub loop-within :
    ⦃text : TimeText⦄ ⦃zones : Zones⦄ (sched : Schedule) (steps : ℕ) (r : Run)
    → IsFresh r
    → pos 0 ≤ℤ r.opts.start
    → r.opts.start ≤ℤ r.opts.end_of
    → ((loop sched steps r).tl.simulated_through ≤ℤ r.opts.end_of)
      × All (EventBy (loop sched steps r).tl.simulated_through) (loop sched steps r).tl.events
      × All (WindowBy (loop sched steps r).tl.simulated_through) (loop sched steps r).tl.windows
unfolding loop
loop-within sched steps r f z h = finish-EndsBy sched (frame_of r) _ (
    loop_from-StopsWithin sched (frame_of r) steps r.opts.start _ r.opts.start _
      (opened (in_window sched r.opts.start)) (omega arith) h)
  where
    warned :
        IsWithin (frame_of r) r.opts.start (warn_of_fatal (first_fatal r.res.derived.findings) r)
    warned = warn (first_fatal r.res.derived.findings)
      where
        warn : (k : Option Finding) → IsWithin (frame_of r) r.opts.start (warn_of_fatal k r)
        warn none = IsFresh-IsWithin r f z
        warn (some k) = diag_once-IsWithin (frame_of r) r.opts.start _ r (IsFresh-IsWithin r f z)

    opened :
        (b : Bool)
        → IsWithin (frame_of r) r.opts.start (
            open_at_start sched b r.opts.start
              (warn_of_fatal (first_fatal r.res.derived.findings) r))
    opened true = opened-IsWithin (frame_of r) r.opts.start sched _ warned
    opened false = warned
