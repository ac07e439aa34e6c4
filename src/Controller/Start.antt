-- ===== src/Controller/Start.antt =====
-- reconcileNodePool: the window's edge, the rotation in flight, and the start of a new one.
use node_rotation_controller.Base.{
  ℕ, String, Bool, true, false, not, ◌==◌, Option, none, some, List, length, Annotations, get, put,
  str_eq, Time, if◌then◌else◌, suc,
}
use node_rotation_controller.Annotations.{TimeText, active_rotation}
use node_rotation_controller.Adapt.{claim_views, by_name}
use node_rotation_controller.NodeOps.{Node}
use node_rotation_controller.NodeOps.Excluded.{excluded_node_names, excluded_claim_names}
use node_rotation_controller.Selection
use node_rotation_controller.Selection.{Claim, pick_earliest_deadline_eligible}
use node_rotation_controller.Selection.Census.{take_census}
use node_rotation_controller.Decide.{start_gate, surgeless_fallback}
use node_rotation_controller.Schedule.Derive.{has_fatal}
use node_rotation_controller.Controller.World.{
  NodeClaim, Attempt, fails, pool_written, World, Result, ok, err, M,
}
use node_rotation_controller.Controller.Reads.{Cache, Resolved}
use node_rotation_controller.Controller.Resolve.{
  PoolSpec, Calendar, sel_inputs, has_failed_claim, derived_thresholds,
}
use node_rotation_controller.Controller.Api.{pure, fail, answer, ◌>>=◌, first_attempt, tick, note}
use node_rotation_controller.Controller.Ending.{Requeue, long_requeue}
use node_rotation_controller.Controller.Edge.{PoolView, evaluate_window_edge}
use node_rotation_controller.Controller.Pending.{start_forceful_fallback}
use node_rotation_controller.Controller.Dispatch.{gate_inputs, advance}

pub data Anchored : Type 0 where
  anchored : Annotations → Anchored
  conflict : Anchored

-- An update under a resourceVersion goes through where that is the pool's own.
abbrev pub is_current : Option ℕ → ℕ → Bool
is_current none v = false
is_current (some u) v = u == v

abbrev pub put_anchor : String → Annotations → Annotations
put_anchor name m = put m active_rotation name

abbrev pub anchor_through : Bool → Annotations → World → Result Anchored × World
anchor_through false m w = (ok conflict, w)
anchor_through true m w =
    (ok (anchored m), note (pool_written m) (record w { pool = m; version = suc w.version }))

abbrev pub anchor_by : Attempt → PoolView → String → World → Result Anchored × World
anchor_by fails p name w = (err, w)
anchor_by _ p name w =
    anchor_through (is_current p.version w.version) (put_anchor name p.annotations) w

-- anchorRotation: the whole pool as the pass holds it, and the anchor.
unfoldable pub anchor_rotation : PoolView → String → M Anchored
anchor_rotation p name w = anchor_by (first_attempt w.script) p name (tick w)

-- The reads of a pass that holds the pool with these annotations.
abbrev pub holding : Annotations → (ℕ → Cache) → ℕ → Cache
holding m caches i = record (caches i) { pool = m }

module _ ⦃text : TimeText⦄ where
  abbrev pub begin : (ℕ → Cache) → Resolved → NodeClaim → Time → Bool → Anchored → M Requeue
  begin caches res cand now surgeless conflict = pure long_requeue
  begin caches res cand now surgeless (anchored m) =
      if surgeless
      then start_forceful_fallback cand now
      else advance 2 (holding m caches) res cand.name now

  -- The anchor, before any other side effect.
  unfoldable pub anchor_and_begin :
      PoolView → (ℕ → Cache) → Resolved → NodeClaim → Time → Bool → M Requeue
  anchor_and_begin p caches res cand now surgeless =
      anchor_rotation p cand.name >>= begin caches res cand now surgeless

  abbrev pub if_it_fits : Bool → M Requeue → M Requeue
  if_it_fits true m = m
  if_it_fits false m = pure long_requeue

  abbrev pub start_picked :
      PoolView → Cache → (ℕ → Cache) → Resolved → Time → Claim → Option NodeClaim → M Requeue
  start_picked p start caches res now pick none = fail
  start_picked p start caches res now pick (some cand) =
      if surgeless_fallback pick (gate_inputs (record start { pool = p.annotations }) res now)
      then anchor_and_begin p caches res cand now true
      else (answer start.fits >>= λ fits.
          if_it_fits fits (anchor_and_begin p caches res cand now false))

  abbrev pub start_pick :
      PoolView → Cache → (ℕ → Cache) → Resolved → Time → List NodeClaim → Option Claim → M Requeue
  start_pick p start caches res now claims none = pure long_requeue
  start_pick p start caches res now claims (some pick) =
      start_picked p start caches res now pick (by_name pick.name claims)

  -- The gates of a start, and the start.
  unfoldable pub try_start :
      PoolView
      → Cache
      → (ℕ → Cache)
      → Resolved
      → Time
      → List NodeClaim
      → Selection.Inputs
      → M Requeue
  try_start p start caches res now claims sel =
      if res.static_pool
      then pure long_requeue
      else if res.fatal
      then pure long_requeue
      else if not (start_gate (gate_inputs (record start { pool = p.annotations }) res now)).0
      then pure long_requeue
      else start_pick p start caches res now claims
          (pick_earliest_deadline_eligible (claim_views claims) sel)

  -- The rotation that the anchor names, or a start.
  unfoldable pub drive_or_start :
      PoolView
      → Cache
      → (ℕ → Cache)
      → Resolved
      → Time
      → List NodeClaim
      → Selection.Inputs
      → M Requeue
  drive_or_start p start caches res now claims sel =
      let name = get p.annotations active_rotation in
      if not (str_eq name "")
      then advance 2 (holding p.annotations caches) res name now
      else try_start p start caches res now claims sel

  -- From the claims and the nodes that were listed.
  unfoldable pub reconcile_listed :
      PoolSpec
      → Calendar
      → Cache
      → (ℕ → Cache)
      → Resolved
      → Time
      → List NodeClaim
      → List Node
      → M Requeue
  reconcile_listed pool sched start caches res now claims nodes =
      let views = claim_views claims in
      let excluded = excluded_claim_names claims (excluded_node_names nodes) in
      let sel = sel_inputs res now excluded (has_failed_claim views) in
      let derived = derived_thresholds pool res sched (length claims) in
      let res' = record res { fatal = has_fatal derived.findings } in
      evaluate_window_edge (record { annotations = start.pool; version = start.version })
        sched.in_window now (take_census views sel)
      >>= λ p. drive_or_start p start caches res' now claims sel

  -- reconcileNodePool, from the resolved policy. `start` answers the reads before the rotation, and
  -- `caches` those of the turns of advance.
  unfoldable pub reconcile_node_pool :
      PoolSpec → Calendar → Cache → (ℕ → Cache) → Resolved → Time → M Requeue
  reconcile_node_pool pool sched start caches res now = do
    claims ← answer start.pool_claims
    nodes ← answer start.pool_nodes
    reconcile_listed pool sched start caches res now claims nodes
