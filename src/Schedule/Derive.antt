-- ===== src/Schedule/Derive.antt =====
-- internal/schedule/schedule.go: Derive, the two estimates, and the findings of the two layers.
pub mod Sound
use node_rotation_controller.Base.{
  ℕ, String, Bool, true, false, not, ◌&&◌, ◌||◌, Option, none, some, List, [], ◌∷◌, ◌++◌, ℤ, pos,
  pos_part, neg_part, sub_ℕ, ◌+◌, ◌*◌, ltb, ltb_ℤ, leb_ℤ, eqb_ℤ, wrap64, Duration, any,
  add_duration, sub_duration, if◌then◌else◌,
}
use node_rotation_controller.Schedule.{
  drain_estimate_default, provisioning_estimate_default, buffer, hard_cap, Severity, warn, fatal,
  Finding, finding, Inputs,
}
use node_rotation_controller.Schedule.Division.{floor_div, ceil_div}
use node_rotation_controller.Schedule.Float.{float_product}

pub record Result : Type 0 where
  pub t_rot : Duration
  pub t_rot_est : Duration
  pub drain_estimate : Duration
  pub provisioning_estimate : Duration
  pub age_threshold : Duration
  pub guaranteed : ℤ
  pub capacity : ℤ
  pub findings : List Finding

abbrev pub min_duration : Duration → Duration → Duration
min_duration a b = if ltb_ℤ b a then b else a

abbrev pub max_int : ℤ → ℤ → ℤ
max_int a b = if ltb_ℤ a b then b else a

-- The product of two int64 values.
unfoldable pub mul_int : ℤ → ℤ → ℤ
mul_int a b = wrap64 (
    sub_ℕ (pos_part a * pos_part b + neg_part a * neg_part b)
      (pos_part a * neg_part b + neg_part a * pos_part b))

-- resolveDrainEstimate
unfoldable pub resolve_drain_estimate : Duration → Bool → Option Duration → Duration × List Finding
resolve_drain_estimate tgp unset none = (min_duration tgp drain_estimate_default, [])
resolve_drain_estimate tgp unset (some d) =
    if not unset && ltb_ℤ tgp d then (tgp, finding warn "DrainEstimateAboveTGP" ∷ []) else (d, [])

-- resolveProvisioningEstimate
unfoldable pub resolve_provisioning_estimate : Duration → Option Duration → Duration × List Finding
resolve_provisioning_estimate ready none = (min_duration ready provisioning_estimate_default, [])
resolve_provisioning_estimate ready (some d) =
    if ltb_ℤ ready d
    then (ready, finding warn "ProvisioningEstimateAboveReadyTimeout" ∷ [])
    else (d, [])

abbrev pub chances_findings : ℤ → List Finding
chances_findings k =
    if ltb_ℤ k (pos 1)
    then finding fatal "KBelowOne" ∷ []
    else if eqb_ℤ k (pos 1)
    then finding warn "KBelowTwo" ∷ []
    else []

abbrev pub override_findings : Inputs → Result → List Finding
override_findings i r =
    (if leb_ℤ r.age_threshold (pos 0)
      then finding fatal "OverrideNonPositive" ∷ []
      else if ltb_ℤ r.guaranteed (pos 1)
      then finding fatal "OverrideGBelowOne" ∷ []
      else if ltb_ℤ r.guaranteed i.chances
      then finding warn "OverrideGBelowK" ∷ []
      else [])
    ++ (if ltb_ℤ (pos 0) r.age_threshold && ltb_ℤ r.age_threshold i.period
        then finding warn "AVeryAggressive" ∷ []
        else [])

abbrev pub auto_findings : Inputs → Result → List Finding
auto_findings i r =
    if leb_ℤ r.age_threshold (pos 0)
    then finding fatal "ANonPositive" ∷ []
    else if ltb_ℤ r.age_threshold i.period
    then finding warn "AVeryAggressive" ∷ []
    else []

abbrev pub threshold_findings : Inputs → Result → List Finding
threshold_findings i r = elim i.override [
  | some a ↦ override_findings i r
  | none ↦ auto_findings i r
]

abbrev pub advisory_findings : Inputs → List Finding
advisory_findings i =
    (if i.tgp_was_unset then finding warn "TGPUnset" ∷ [] else [])
    ++ ((if ltb_ℤ hard_cap (add_duration i.expire_after i.tgp)
          then finding warn "HardCapExceeded" ∷ []
          else [])
        ++ (if ltb_ℤ i.retry_backoff i.ready_timeout
            then finding warn "RetryBackoffShort" ∷ []
            else []))

-- layer1
unfoldable pub layer1 : Inputs → Result → List Finding
layer1 i r = chances_findings i.chances ++ (threshold_findings i r ++ advisory_findings i)

abbrev arrival_findings : Inputs → Result → List Finding
arrival_findings i r =
    if (ltb_ℤ (pos 0) i.node_count && ltb_ℤ (pos 0) r.age_threshold)
      && ltb (float_product (pos_part r.capacity) (pos_part r.age_threshold))
          (float_product (pos_part i.node_count) (pos_part i.period))
    then finding warn "ThroughputBelowArrival" ∷ []
    else []

abbrev burst_findings : Inputs → Result → List Finding
burst_findings i r =
    if (ltb_ℤ (pos 0) i.node_count && ltb_ℤ (pos 0) i.chances)
      && ltb_ℤ (mul_int i.chances r.capacity) i.node_count
    then finding warn "ThroughputBurstShortfall" ∷ []
    else []

abbrev carry_findings : Inputs → Result → List Finding
carry_findings i r = elim i.idle_gap [
  | none ↦ []
  | some gap ↦
      if ltb_ℤ gap (add_duration r.t_rot_est i.cooldown)
      then finding warn "RotationSpansNextWindow" ∷ []
      else []
]

-- layer2
unfoldable pub layer2 : Inputs → Result → List Finding
layer2 i r =
    if leb_ℤ i.window_len (pos 0) || ltb_ℤ r.capacity (pos 1)
    then []
    else arrival_findings i r ++ (burst_findings i r ++ carry_findings i r)

-- The part of Derive before the check of the window period.
unfoldable pub forecast : Inputs → Result
forecast i =
    let (est, est_findings) = resolve_drain_estimate i.tgp i.tgp_was_unset i.drain_estimate in
    let (prov, prov_findings) =
      resolve_provisioning_estimate i.ready_timeout i.provisioning_estimate in
    record {
      t_rot = add_duration (add_duration i.ready_timeout i.tgp) buffer;
      t_rot_est = add_duration prov est;
      drain_estimate = est;
      provisioning_estimate = prov;
      age_threshold = pos 0;
      guaranteed = pos 0;
      capacity = pos 0;
      findings = est_findings ++ prov_findings;
    }

-- A and G
unfoldable pub threshold : Inputs → Result → Result
threshold i r = elim i.override [
  | some a ↦ record r {
    age_threshold = a;
    guaranteed = floor_div (sub_duration (sub_duration i.expire_after r.t_rot) a) i.period;
  }
  | none ↦ record r {
    age_threshold = sub_duration i.expire_after (add_duration (mul_int i.chances i.period) r.t_rot);
    guaranteed = i.chances;
  }
]

-- C
unfoldable pub throughput : Inputs → Result → Result
throughput i r =
    let denom = add_duration r.t_rot_est i.cooldown in
    if ltb_ℤ (pos 0) denom && ltb_ℤ (pos 0) i.window_len
    then record r {
      capacity = mul_int (max_int i.max_unavailable (pos 1)) (ceil_div i.window_len denom);
    }
    else r

abbrev pub with_layers : Inputs → Result → Result
with_layers i r = record r { findings = r.findings ++ (layer1 i r ++ layer2 i r) }

abbrev pub no_windows : Result → Result
no_windows r = record r { findings = r.findings ++ (finding fatal "NoWindows" ∷ []) }

unfoldable pub derive : Inputs → Result
derive i =
    let r = forecast i in
    if leb_ℤ i.period (pos 0) then no_windows r else with_layers i (throughput i (threshold i r))

abbrev pub is_fatal : Finding → Bool
is_fatal f = elim f.severity [ fatal ↦ true | warn ↦ false ]

-- firstFatal of the controller, as a test
unfoldable pub has_fatal : List Finding → Bool
has_fatal fs = any is_fatal fs
