-- ===== src/Controller/Series/Begin.antt =====
-- The rotation in flight, or the start of one, in the series of anchors.
use node_rotation_controller.Base.{
  ℕ, String, Bool, true, false, not, ◌≡◌, inl, inr, Option, none, some, List, get, str_eq,
  str_eq_iff, Bool-cases, Time, if◌then◌else◌,
}
use node_rotation_controller.Annotations.{TimeText, active_rotation}
use node_rotation_controller.Selection
use node_rotation_controller.Selection.{Claim}
use node_rotation_controller.Controller.World.{NodeClaim, M}
use node_rotation_controller.Controller.Reads.{Cache, Resolved}
use node_rotation_controller.Controller.Api.{pure, answer, ◌>>=◌}
use node_rotation_controller.Controller.Ending.{Requeue, long_requeue}
use node_rotation_controller.Controller.Hoare.{Triple, bind-Triple, Keeps, pure-Keeps}
use node_rotation_controller.Controller.Walk.{when-Keeps, fail-Keeps}
use node_rotation_controller.Controller.Walk.Handlers.{start_forceful_fallback-Keeps}
use node_rotation_controller.Controller.Walk.Turns.{advance-Keeps}
use node_rotation_controller.Controller.Edge.{PoolView}
use node_rotation_controller.Controller.Start.{
  Anchored, anchored, conflict, begin, anchor_and_begin, if_it_fits, start_picked, start_pick,
  try_start, drive_or_start,
}
use node_rotation_controller.Adapt.{claim_views}
use node_rotation_controller.Selection.{pick_earliest_deadline_eligible}
use node_rotation_controller.Decide.{start_gate}
use node_rotation_controller.Controller.Dispatch.{gate_inputs}
use node_rotation_controller.Controller.Series.{
  InSeries, Viewed, InSeries-IsKept, weaken, anchor_rotation-Triple,
}

module _ (a : String) where
  module _ ⦃text : TimeText⦄ (caches : ℕ → Cache) (res : Resolved) (now : Time) where
    begin-Keeps :
        (cand : NodeClaim) (surgeless : Bool) (r : Anchored)
        → Keeps (InSeries a) (begin caches res cand now surgeless r)
    begin-Keeps cand surgeless conflict = pure-Keeps long_requeue
    begin-Keeps cand surgeless (anchored m) =
        when-Keeps surgeless (start_forceful_fallback-Keeps (InSeries-IsKept a) cand now)
          (advance-Keeps (InSeries-IsKept a) 2 _ res cand.name now)

    module _ (p : PoolView) (start : Cache) (free : get p.annotations active_rotation ≡ "") where
      abbrev Starts : M Requeue → Type 0
      Starts m = Triple (InSeries a) (Viewed a p) m (λ r. InSeries a)

      if-Starts : (b : Bool) {m n : M Requeue} → Starts m → Starts n → Starts (if b then m else n)
      if-Starts true h k = h
      if-Starts false h k = k

      anchor_and_begin-Starts :
          (cand : NodeClaim) (surgeless : Bool)
          → Starts (anchor_and_begin p caches res cand now surgeless)
      unfolding anchor_and_begin
      anchor_and_begin-Starts cand surgeless =
          bind-Triple _ _ (anchor_rotation-Triple a p cand.name free) (begin-Keeps cand surgeless)

      idle : Starts (pure long_requeue)
      idle = weaken a p (pure-Keeps long_requeue)

      if_it_fits-Starts : (b : Bool) {m : M Requeue} → Starts m → Starts (if_it_fits b m)
      if_it_fits-Starts true h = h
      if_it_fits-Starts false h = idle

      answer-Starts :
          (o : Option Bool) {f : Bool → M Requeue}
          → ((b : Bool) → Starts (f b))
          → Starts (answer o >>= f)
      unfolding ◌>>=◌
      answer-Starts none h = weaken a p fail-Keeps
      answer-Starts (some b) h = record { holds = (h b).holds }

      start_picked-Starts :
          (pick : Claim) (o : Option NodeClaim)
          → Starts (start_picked p start caches res now pick o)
      start_picked-Starts pick none = weaken a p fail-Keeps
      start_picked-Starts pick (some cand) = if-Starts _ (anchor_and_begin-Starts cand true) (
          answer-Starts start.fits
            (λ fits. if_it_fits-Starts fits (anchor_and_begin-Starts cand false)))

      start_pick-Starts :
          (claims : List NodeClaim) (o : Option Claim)
          → Starts (start_pick p start caches res now claims o)
      start_pick-Starts claims none = idle
      start_pick-Starts claims (some pick) = start_picked-Starts pick _

      try_start-Starts :
          (claims : List NodeClaim) (sel : Selection.Inputs)
          → Starts (try_start p start caches res now claims sel)
      unfolding try_start
      try_start-Starts claims sel = if-Starts res.static_pool idle (
          if-Starts res.fatal idle (
            if-Starts
              (not (start_gate (gate_inputs (record start { pool = p.annotations }) res now)).0)
              idle
              (start_pick-Starts claims
                (pick_earliest_deadline_eligible (claim_views claims) sel))))

    pub drive_or_start-Triple :
        (p : PoolView) (start : Cache) (claims : List NodeClaim) (sel : Selection.Inputs)
        → Triple
            (InSeries a)
            (Viewed a p)
            (drive_or_start p start caches res now claims sel)
            (λ r. InSeries a)
    unfolding drive_or_start
    drive_or_start-Triple p start claims sel =
        elim (Bool-cases (str_eq (get p.annotations active_rotation) "")) [
          | inl e ↦ rw e (try_start-Starts p start ((str_eq_iff _ _).0 e) claims sel)
          | inr e ↦ rw e (weaken a p (advance-Keeps (InSeries-IsKept a) 2 _ res _ now))
        ]
