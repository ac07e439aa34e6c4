-- ===== src/Controller/Observe.antt =====
-- observe of rotation_controller.go: the gauges that a pass sets.
use mathlib.Core.List.{Memᴰ}
use node_rotation_controller.Base.{
  ℕ, String, Bool, false, not, ◌||◌, Option, none, some, List, [], ◌∷◌, map, ◌≡◌, refl, ◌∙◌, ℤ, pos,
  ◌≤ℤ◌, ltb_ℤ, Time, Duration, sub_time, Annotations, get, str_eq, arith, All, ◌⊎◌, inl, inr,
  Bool-cases, if◌then◌else◌,
}
use node_rotation_controller.Annotations.{
  TimeText, parse_time, active_rotation, active_rotation_state, state_draining, state_pending,
  retry_count, freeze,
}
use node_rotation_controller.Adapt.{claim_views}
use node_rotation_controller.Selection.{parse_int, count_short_lead}
use node_rotation_controller.Selection.Census.{take_census}
use node_rotation_controller.Schedule.Derive.{Result}
use node_rotation_controller.Controller.World.{NodeClaim}
use node_rotation_controller.Controller.Reads.{Resolved}
use node_rotation_controller.Controller.Resolve.{sel_inputs, has_failed_claim}

abbrev larger : ℤ → ℤ → ℤ
larger a b = if ltb_ℤ a b then b else a

abbrev retry_of : NodeClaim → ℤ
retry_of c = parse_int (get c.annotations retry_count)

-- The loop of highestRetry.
abbrev pub highest_from : ℤ → List NodeClaim → ℤ
highest_from h [] = h
highest_from h (c ∷ cs) = highest_from (larger h (retry_of c)) cs

unfoldable pub highest_retry : List NodeClaim → ℤ
highest_retry cs = highest_from (pos 0) cs

-- A claim with the instant of its deletion, where it is being deleted.
abbrev pub Deleting : Type 0
Deleting = NodeClaim × Option Time

abbrev over_bound : Duration → Time → Option Time → Bool → Bool
over_bound bound now none later = later
over_bound bound now (some at) later = ltb_ℤ bound (sub_time now at)

abbrev stuck_in : String → Duration → Time → List Deleting → Bool
stuck_in name bound now [] = false
stuck_in name bound now ((c, at) ∷ cs) =
    let later = stuck_in name bound now cs in
    if str_eq c.name name then over_bound bound now at later else later

-- drainStuck, on the annotations of the pool.
unfoldable pub drain_stuck : Annotations → List Deleting → Duration → Time → Bool
drain_stuck pool cs bound now =
    if str_eq (get pool active_rotation) ""
      || not (str_eq (get pool active_rotation_state) state_draining)
    then false
    else stuck_in (get pool active_rotation) bound now cs

-- reconcilePhase
unfoldable pub reconcile_phase : Annotations → String
reconcile_phase pool =
    if str_eq (get pool active_rotation) ""
    then "idle"
    else if not (str_eq (get pool active_rotation_state) "")
    then get pool active_rotation_state
    else state_pending

-- PoolObservation
pub record PoolObservation : Type 0 where
  pub candidates : ℕ
  pub in_backoff : ℕ
  pub short_lead_nodes : ℕ
  pub retries : ℤ
  pub is_drain_stuck : Bool
  pub window_period : Duration
  pub age_threshold : Duration
  pub rotation_chances : ℤ
  pub throughput_capacity : ℤ
  pub t_rot_estimate : Duration
  pub t_rot_bound : Duration
  pub in_progress : ℕ
  pub freeze_until : Time

module _ ⦃text : TimeText⦄ where
  abbrev later_than : Time → Option Time → Time
  later_than now none = pos 0
  later_than now (some t) = if ltb_ℤ now t then t else pos 0

  abbrev claims_of : List Deleting → List NodeClaim
  claims_of cs = map (λ c. c.0) cs

  -- observe: the window gauge, and the observation.
  unfoldable pub observe :
      Annotations
      → Resolved
      → Time
      → List Deleting
      → Duration
      → Result
      → (String → Bool)
      → Bool × PoolObservation
  observe pool res now cs period derived excluded =
      let views = claim_views (claims_of cs) in
      let census = take_census views (sel_inputs res now excluded (has_failed_claim views)) in
      (
        res.in_window,
        record {
          candidates = census.eligible;
          in_backoff = census.in_backoff_triggered;
          short_lead_nodes = count_short_lead views res.lead_time;
          retries = highest_retry (claims_of cs);
          is_drain_stuck = drain_stuck pool cs res.drain_bound now;
          window_period = period;
          age_threshold = derived.age_threshold;
          rotation_chances = derived.guaranteed;
          throughput_capacity = derived.capacity;
          t_rot_estimate = derived.t_rot_est;
          t_rot_bound = derived.t_rot;
          in_progress = (if str_eq (get pool active_rotation) "" then 0 else 1);
          freeze_until = later_than now (parse_time (get pool freeze));
        },
      )

highest_from-le : (h : ℤ) (cs : List NodeClaim) → h ≤ℤ highest_from h cs
highest_from-le h [] = omega arith
highest_from-le h (c ∷ cs) =
    le_step h (retry_of c) (highest_from (larger h (retry_of c)) cs)
      (highest_from-le (larger h (retry_of c)) cs)
  where
    le_step : (h r x : ℤ) → larger h r ≤ℤ x → h ≤ℤ x
    le_step h r x k = ground arith

-- No claim has had more retries than the number.
abbrev pub Bounds : ℤ → List NodeClaim → Type 0
Bounds h cs = All (λ c. retry_of c ≤ℤ h) cs

highest_from-Bounds : (h : ℤ) (cs : List NodeClaim) → Bounds (highest_from h cs) cs
highest_from-Bounds h [] = tt
highest_from-Bounds h (c ∷ cs) = (
  own h (retry_of c) _ (highest_from-le (larger h (retry_of c)) cs),
  highest_from-Bounds (larger h (retry_of c)) cs,
)
  where
    own : (h r x : ℤ) → larger h r ≤ℤ x → r ≤ℤ x
    own h r x k = ground arith

-- The number is the one that the loop began with, or that of a claim.
abbrev pub IsReached : ℤ → ℤ → List NodeClaim → Type 0
IsReached x h cs = (x ≡ h) ⊎ ((c : NodeClaim) × Memᴰ c cs × (x ≡ retry_of c))

larger_cases : (a b : ℤ) → (larger a b ≡ a) ⊎ (larger a b ≡ b)
larger_cases a b = elim (Bool-cases (ltb_ℤ a b)) [
  | inl e ↦ inr (rw e refl)
  | inr e ↦ inl (rw e refl)
]

highest_from-IsReached : (h : ℤ) (cs : List NodeClaim) → IsReached (highest_from h cs) h cs
highest_from-IsReached h [] = inl refl
highest_from-IsReached h (c ∷ cs) = elim (highest_from-IsReached (larger h (retry_of c)) cs) [
  | inl e ↦ elim (larger_cases h (retry_of c)) [
    | inl f ↦ inl (e ∙ f)
    | inr f ↦ inr (c, Memᴰ.head refl, e ∙ f)
  ]
  | inr (d, m, e) ↦ inr (d, Memᴰ.tail m, e)
]

-- The gauge of retries is 0 or the count of a claim of the pool, and no claim of the pool has had
-- more; a count that cannot be read is 0.
pub highest_retry-IsHighest :
    (cs : List NodeClaim)
    → (pos 0 ≤ℤ highest_retry cs)
      × Bounds (highest_retry cs) cs
      × IsReached (highest_retry cs) (pos 0) cs
unfolding highest_retry
highest_retry-IsHighest cs =
    (highest_from-le (pos 0) cs, highest_from-Bounds (pos 0) cs, highest_from-IsReached (pos 0) cs)
