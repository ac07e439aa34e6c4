-- ===== src/Sim/Start/Decision.antt =====
-- maybeStart of internal/sim/loop.go and the start of a rotation by the controller, each as what it
-- does on a decision.
use node_rotation_controller.Base.{
  ℕ, String, Bool, true, false, not, Bool-cases, inl, inr, is_zero_time, if◌then◌else◌, Option,
  none, some, List, ◌≡◌, refl, ap, ◌∙◌, Time,
}
use node_rotation_controller.Annotations.{TimeText}
use node_rotation_controller.Adapt.{claim_views, by_name}
use node_rotation_controller.Selection
use node_rotation_controller.Selection.{Claim, pick_earliest_deadline_eligible}
use node_rotation_controller.Selection.Census.{Census, take_census}
use node_rotation_controller.Decide
use node_rotation_controller.Decide.{Gate, start_gate, surgeless_fallback}
use node_rotation_controller.Controller.World.{NodeClaim, M}
use node_rotation_controller.Controller.Api.{pure, fail, answer, ◌>>=◌}
use node_rotation_controller.Controller.Ending.{Requeue, long_requeue}
use node_rotation_controller.Controller.Edge.{PoolView}
use node_rotation_controller.Controller.Start.{
  anchor_and_begin, if_it_fits, start_picked, start_pick, try_start,
}
use node_rotation_controller.Sim.Intervals.{
  flush_blocked, record_blocked, flush_census, record_census,
}
use node_rotation_controller.Window.{Zones, Schedule, in_window}
use node_rotation_controller.Controller.Reads.{Cache, Resolved}
use node_rotation_controller.Controller.Dispatch
use node_rotation_controller.Schedule.Derive.{has_fatal}
use node_rotation_controller.Sim.{Run}
use node_rotation_controller.Sim.Start.{
  gate_inputs, selection_inputs, views, slot_of, begin_at, start_with, start_open, maybe_start,
}

-- What a pass comes to about a start.
pub data Decision : Type 0 where
  held : Decision
  blocked : Gate → Decision
  idle : Census → Decision
  starts : String → Bool → Decision

abbrev of_pick : Decide.Inputs → Census → Option Claim → Decision
of_pick gi census none = idle census
of_pick gi census (some pick) = starts pick.name (surgeless_fallback pick gi)

-- A fatal finding holds every start; then the first closed gate blocks it; then the pick decides,
-- with or without a surge.
module _ ⦃text : TimeText⦄ where
  abbrev pub decision : Bool → Decide.Inputs → Selection.Inputs → List Claim → Decision
  decision fatal gi sel vs =
      if fatal
      then held
      else if not (start_gate gi).0
      then blocked (start_gate gi).1
      else of_pick gi (take_census vs sel) (pick_earliest_deadline_eligible vs sel)

-- What the simulator does on a decision.
abbrev pub in_simulator : Time → Decision → Run → Run
in_simulator now held r = r
in_simulator now (blocked gate) r = record_blocked now gate (flush_census now r)
in_simulator now (idle census) r = record_census now census (flush_blocked now r)
in_simulator now (starts name surgeless) r =
    let r' = flush_census now (flush_blocked now r) in begin_at (slot_of r' name) surgeless now r'

module _ ⦃text : TimeText⦄ (p : PoolView) (start : Cache) (caches : ℕ → Cache) (res : Resolved)
    (now : Time) where
  abbrev rotate : Bool → Option NodeClaim → M Requeue
  rotate surgeless none = fail
  rotate true (some cand) = anchor_and_begin p caches res cand now true
  rotate false (some cand) =
      answer start.fits >>= λ fits. if_it_fits fits (anchor_and_begin p caches res cand now false)

  -- What the controller does on a decision: it requeues, or anchors the claim and begins, with a
  -- surge where the headroom admits it.
  abbrev pub in_controller : List NodeClaim → Decision → M Requeue
  in_controller claims held = pure long_requeue
  in_controller claims (blocked gate) = pure long_requeue
  in_controller claims (idle census) = pure long_requeue
  in_controller claims (starts name surgeless) = rotate surgeless (by_name name claims)

  pub try_start-decision :
      (claims : List NodeClaim) (sel : Selection.Inputs)
      → res.static_pool ≡ false
      → try_start p start caches res now claims sel
        ≡ in_controller claims (
            decision res.fatal
              (Dispatch.gate_inputs (record start { pool = p.annotations }) res now)
              sel
              (claim_views claims))
  unfolding try_start
  try_start-decision claims sel h =
      ap (λ b. if b then pure long_requeue else gated res.fatal (start_gate gi) pick) h
      ∙ by_fatal res.fatal (start_gate gi) pick
    where
      gi : Decide.Inputs
      gi = Dispatch.gate_inputs (record start { pool = p.annotations }) res now

      pick : Option Claim
      pick = pick_earliest_deadline_eligible (claim_views claims) sel

      gated : Bool → Bool × Gate → Option Claim → M Requeue
      gated fatal g o =
          if fatal
          then pure long_requeue
          else if not g.0
          then pure long_requeue
          else start_pick p start caches res now claims o

      by_path :
          (b : Bool) (o : Option NodeClaim) (pick : Claim)
          → surgeless_fallback pick gi ≡ b
          → start_picked p start caches res now pick o ≡ rotate b o
      by_path b none pick e = refl
      by_path true (some cand) pick e = rw e refl
      by_path false (some cand) pick e = rw e refl

      by_pick :
          (o : Option Claim)
          → start_pick p start caches res now claims o
            ≡ in_controller claims (of_pick gi (take_census (claim_views claims) sel) o)
      by_pick none = refl
      by_pick (some pick) = by_path _ (by_name pick.name claims) pick refl

      by_fatal :
          (fatal : Bool) (g : Bool × Gate) (o : Option Claim)
          → gated fatal g o
            ≡ in_controller claims (
                if fatal
                then held
                else if not g.0
                then blocked g.1
                else of_pick gi (take_census (claim_views claims) sel) o)
      by_fatal true g o = refl
      by_fatal false (true, g) o = by_pick o
      by_fatal false (false, g) o = refl

module _ ⦃text : TimeText⦄ ⦃zones : Zones⦄ (sched : Schedule) (now : Time) where
  -- The end of a blocked interval is not seen by the pick.
  selection_inputs-flush_blocked :
      (r : Run) (vs : List Claim)
      → selection_inputs sched (flush_blocked now r) now vs ≡ selection_inputs sched r now vs
  unfolding selection_inputs flush_blocked
  selection_inputs-flush_blocked r vs = elim (Bool-cases (is_zero_time r.block_from)) [
    | inl e ↦ rw e refl
    | inr e ↦ rw e refl
  ]

  views-flush_blocked : (r : Run) → views (flush_blocked now r) ≡ views r
  unfolding views flush_blocked
  views-flush_blocked r = elim (Bool-cases (is_zero_time r.block_from)) [
    | inl e ↦ rw e refl
    | inr e ↦ rw e refl
  ]

  pub maybe_start-decision :
      (in_window : Bool) (r : Run)
      → maybe_start sched now in_window r
        ≡ in_simulator now
            (decision
              (has_fatal r.res.derived.findings)
              (gate_inputs r now in_window)
              (selection_inputs sched r now (views r))
              (views r))
            r
  unfolding maybe_start
  maybe_start-decision in_window r = by_fatal (has_fatal r.res.derived.findings) (start_gate gi)
    where
      gi : Decide.Inputs
      gi = gate_inputs r now in_window

      by_pick :
          (vs : List Claim) (sel : Selection.Inputs)
          → selection_inputs sched (flush_blocked now r) now vs ≡ sel
          → (o : Option Claim)
          → start_with sched now gi vs o (flush_blocked now r)
            ≡ in_simulator now (of_pick gi (take_census vs sel) o) r
      by_pick vs sel e none = ap (λ s. record_census now (take_census vs s) (flush_blocked now r)) e
      by_pick vs sel e (some pick) = refl

      opened :
          (vs ws : List Claim) (sel sel' : Selection.Inputs)
          → vs ≡ ws
          → sel ≡ sel'
          → in_simulator now
              (of_pick gi (take_census vs sel) (pick_earliest_deadline_eligible vs sel))
              r
            ≡ in_simulator now
                (of_pick gi (take_census ws sel') (pick_earliest_deadline_eligible ws sel'))
                r
      opened vs ws sel sel' e f = cc

      by_fatal :
          (fatal : Bool) (g : Bool × Gate)
          → (if fatal
              then r
              else if not g.0
              then record_blocked now g.1 (flush_census now r)
              else start_open sched now gi r)
            ≡ in_simulator now
                (if fatal
                  then held
                  else if not g.0
                  then blocked g.1
                  else of_pick gi (take_census (views r) (selection_inputs sched r now (views r))) (
                      pick_earliest_deadline_eligible
                        (views r)
                        (selection_inputs sched r now (views r))))
                r
      by_fatal true g = refl
      by_fatal false (false, g) = refl
      by_fatal false (true, g) =
          by_pick (views (flush_blocked now r)) _ refl _
          ∙ opened _ _ _ _ (views-flush_blocked r) (
              selection_inputs-flush_blocked r (views (flush_blocked now r))
              ∙ ap (λ vs. selection_inputs sched r now vs) (views-flush_blocked r))

pub decision_alike :
    ⦃text : TimeText⦄ {a b : Bool} {gi gj : Decide.Inputs} {sel sel' : Selection.Inputs}
    {vs ws : List Claim}
    → a ≡ b
    → gi ≡ gj
    → sel ≡ sel'
    → vs ≡ ws
    → decision a gi sel vs ≡ decision b gj sel' ws
decision_alike e f g h = cc
