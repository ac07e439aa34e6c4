-- ===== src/Examples/SelectionCases.antt =====
-- internal/selection at three claims.
use mathlib.Core.List.{Memᴰ}
use node_rotation_controller.Base.{
  atoi, atoi_codes, unsigned, digits_value, ℕ, suc, ◌*◌, ◌≤◌, String, ◌≡◌, ◌↔◌, ◌⊎◌, inl, inr, ◌≢◌,
  refl, true, false, none, some, List, [], ◌∷◌, arith, pos, ◌-ℤ◌, ◌<ℤ◌, Annotations, empty_map, put,
  Duration, add_time, sub_time, sub_duration, add_duration, wrap64, sym, ap, ◌∙◌, saturate64, ◌+ℤ◌,
  scale, shift_duration, is_zero_time, str_ltb,
}
use node_rotation_controller.Annotations.{parse_time, state, state_failed, failed_at, retry_count}
use node_rotation_controller.Selection.{
  Claim, Inputs, lead_time_for, claim_tgp, triggered, deadline_of, is_older, earlier_by,
  is_earlier_deadline, parse_int, failed_past_backoff, state_allows, eligible, better, pick_from,
  pick_earliest_deadline_eligible, count_eligible,
}
use node_rotation_controller.Selection.Backoff.{
  ladder_shift, escalated_backoff, largest_step, effective_backoff,
}
use node_rotation_controller.Selection.Backoff.Clamp.{LandsAt, NoneLands, effective_backoff_largest}
use node_rotation_controller.Selection.Pick.{
  IsPick, pick_earliest_deadline_eligible_lem, pick_order_independent,
}
use node_rotation_controller.Selection.Census.{take_census, count_claim, census_from, count_state}
use node_rotation_controller.Selection.Census.Partition.{bucket_sum, take_census-IsPartition}
use node_rotation_controller.Selection.Trigger.{triggered-iff-past_deadline}
use node_rotation_controller.Examples.Stamps.{stamps, at, stamp}

abbrev seconds : ℕ → Duration
seconds n = pos (n * 1_000_000_000)

abbrev claim : String → ℕ → ℕ → Annotations → Claim
claim name created expire annotations = record {
  name = name;
  created_at = at created;
  deleting = false;
  expire_after = some (seconds expire);
  tgp = none;
  ready = true;
  annotations = annotations;
}

abbrev old_claim : Claim
old_claim = claim "old" 10 200 empty_map

-- Younger, and the first to expire.
abbrev short_claim : Claim
short_claim = claim "short" 20 100 empty_map

abbrev failed_claim : Claim
failed_claim =
    claim "failed" 5 100
      (put (put (put empty_map state state_failed) failed_at (stamp 90)) retry_count "2")

abbrev inputs : Inputs
inputs = record {
  now = at 100;
  lead_time = record { base = seconds 100; drain_fallback = seconds 50 };
  override = none;
  retry_backoff = seconds 30;
  excluded = λ name. false;
  window_start = at 80;
  window_end = at 150;
}

abbrev claims : List Claim
claims = old_claim ∷ short_claim ∷ failed_claim ∷ []

-- What a test by evaluation sees through.
opened : Unit {0}
unfolding pick_earliest_deadline_eligible pick_from better eligible state_allows failed_past_backoff
    triggered is_earlier_deadline earlier_by is_older deadline_of lead_time_for claim_tgp parse_int
    atoi atoi_codes unsigned digits_value parse_time effective_backoff escalated_backoff
    largest_step ladder_shift shift_duration scale wrap64 saturate64 add_time sub_time sub_duration
    add_duration ◌+ℤ◌ ◌-ℤ◌ is_zero_time str_ltb count_eligible take_census census_from count_claim
    count_state
opened = tt

picks_short : pick_earliest_deadline_eligible claims inputs ≡ some short_claim
unfolding opened
picks_short = refl

-- The retry is clamped from 60 to 30 seconds, and 10 of those have passed.
in_backoff : (take_census claims inputs).in_backoff ≡ 1
unfolding opened
in_backoff = refl

pick_earliest_deadline_eligible_lem_example :
    ((b : Claim) → pick_earliest_deadline_eligible claims inputs ≡ some b → IsPick inputs claims b)
    × ((pick_earliest_deadline_eligible claims inputs ≡ none) ↔ (count_eligible claims inputs ≡ 0))
pick_earliest_deadline_eligible_lem_example = pick_earliest_deadline_eligible_lem inputs claims

abbrev two : List Claim
two = old_claim ∷ short_claim ∷ []

abbrev two_turned : List Claim
two_turned = short_claim ∷ old_claim ∷ []

one_of_two : (a b c : Claim) → Memᴰ c (a ∷ b ∷ []) → (c ≡ a) ⊎ (c ≡ b)
one_of_two a b c (Memᴰ.head e) = inl e
one_of_two a b c (Memᴰ.tail (Memᴰ.head e)) = inr e
one_of_two a b c (Memᴰ.tail (Memᴰ.tail m)) = elim m [ ]

turn : (a b c : Claim) → Memᴰ c (a ∷ b ∷ []) → Memᴰ c (b ∷ a ∷ [])
turn a b c m = elim (one_of_two a b c m) [ inl e ↦ Memᴰ.tail (Memᴰ.head e) | inr e ↦ Memᴰ.head e ]

two_named : (a b : Claim) → Memᴰ a two → Memᴰ b two → a.name ≡ b.name → a ≡ b
two_named a b m n h = elim (one_of_two old_claim short_claim a m) [
  | inl e ↦ elim (one_of_two old_claim short_claim b n) [
    | inl f ↦ e ∙ sym f
    | inr f ↦
        absurd
          (names_differ (sym (ap (λ (c : Claim). c.name) e) ∙ h ∙ ap (λ (c : Claim). c.name) f))
  ]
  | inr e ↦ elim (one_of_two old_claim short_claim b n) [
    | inl f ↦
        absurd
          (names_differ (sym (ap (λ (c : Claim). c.name) f) ∙ sym h ∙ ap (λ (c : Claim). c.name) e))
    | inr f ↦ e ∙ sym f
  ]
]
  where
    names_differ : ◌≢◌ {A = String} "old" "short"
    names_differ e = cc

pick_order_independent_example :
    pick_earliest_deadline_eligible two inputs ≡ pick_earliest_deadline_eligible two_turned inputs
pick_order_independent_example =
    pick_order_independent inputs two two_turned (turn old_claim short_claim)
      (turn short_claim old_claim) two_named

effective_backoff_largest_example :
    let r = effective_backoff (pos 2) (seconds 30) (at 90) (at 80) (at 150) in
    ((j : ℕ) × LandsAt j (suc (ladder_shift (pos 2))) (seconds 30) (at 90) (at 150) r)
    ⊎ ((r ≡ escalated_backoff (pos 2) (seconds 30))
        × NoneLands (suc (ladder_shift (pos 2))) (seconds 30) (at 90) (at 150))
unfolding is_zero_time
effective_backoff_largest_example =
    effective_backoff_largest (pos 2) (seconds 30) (at 90) (at 80) (at 150) refl refl (omega arith)
      (omega arith)

take_census-IsPartition_example :
    let c = take_census claims inputs in
    (c.total ≡ 3)
    × (bucket_sum c ≡ c.total)
    × (c.eligible ≡ count_eligible claims inputs)
    × (c.in_backoff_triggered ≤ c.in_backoff)
take_census-IsPartition_example = take_census-IsPartition inputs claims

triggered-iff-past_deadline_example :
    (triggered short_claim inputs ≡ true)
    ↔ (add_time (at 20) (seconds 100) -ℤ lead_time_for inputs.lead_time short_claim <ℤ at 100)
unfolding opened
triggered-iff-past_deadline_example =
    triggered-iff-past_deadline short_claim inputs (seconds 100) refl refl (omega arith)
      (omega arith)
