-- ===== src/Selection.antt =====
-- internal/selection/selection.go: the view of a NodeClaim, the age trigger, eligibility, and the
-- pick of the earliest deadline. Pointers to durations are options; the pointer that
-- PickEarliestDeadlineEligible returns is the claim it points to.
pub mod Backoff
pub mod Order
pub mod Pick
pub mod Census
pub mod Trigger
use Backoff.{effective_backoff}
use node_rotation_controller.Base.{
  String, Option, none, some, List, [], ◌∷◌, Bool, true, false, not, atoi, get, ltb_ℤ, leb_ℤ, eqb_ℤ,
  ℤ, pos, Duration, Time, add_duration, sub_duration, add_time, sub_time, Annotations, str_eq,
  str_ltb, ℕ, suc, length, if◌then◌else◌,
}
use node_rotation_controller.Annotations.{
  TimeText, parse_time, state, state_failed, failed_at, retry_count,
}

pub record Claim : Type 0 where
  pub name : String
  pub created_at : Time
  pub deleting : Bool
  pub expire_after : Option Duration
  pub tgp : Option Duration
  pub ready : Bool
  pub annotations : Annotations

pub record LeadTime : Type 0 where
  pub base : Duration
  pub drain_fallback : Duration

-- claimTGP
unfoldable pub claim_tgp : Claim → Duration → Duration
claim_tgp c fallback = elim c.tgp [ some d ↦ d | none ↦ fallback ]

-- LeadTime.For
unfoldable pub lead_time_for : LeadTime → Claim → Duration
lead_time_for lt c = add_duration lt.base (claim_tgp c lt.drain_fallback)

-- A map to booleans reads false where the key is absent, so it is a test.
pub record Inputs : Type 0 where
  pub now : Time
  pub lead_time : LeadTime
  pub override : Option Duration
  pub retry_backoff : Duration
  pub excluded : String → Bool
  pub window_start : Time
  pub window_end : Time

-- An unreadable count is 0.
unfoldable pub parse_int : String → ℤ
parse_int s = elim (atoi s) [ some n ↦ n | none ↦ pos 0 ]

unfoldable pub triggered : Claim → Inputs → Bool
triggered c i =
    let age = sub_time i.now c.created_at in
    elim i.override [
      | some o ↦ ltb_ℤ o age
      | none ↦ elim c.expire_after [
        | none ↦ false
        | some e ↦ ltb_ℤ (sub_duration e (lead_time_for i.lead_time c)) age
      ]
    ]

unfoldable pub deadline_of : Claim → Inputs → Option Time
deadline_of c i = elim i.override [
  | some o ↦ none
  | none ↦ elim c.expire_after [ some e ↦ some (add_time c.created_at e) | none ↦ none ]
]

-- The order by creation and name, which decides what deadlines do not.
unfoldable pub is_older : Claim → Claim → Bool
is_older a b =
    if not (eqb_ℤ a.created_at b.created_at)
    then ltb_ℤ a.created_at b.created_at
    else str_ltb a.name b.name

unfoldable pub earlier_by : Option Time → Option Time → Bool → Bool
earlier_by (some da) (some db) older = if not (eqb_ℤ da db) then ltb_ℤ da db else older
earlier_by (some da) none older = true
earlier_by none (some db) older = false
earlier_by none none older = older

-- isEarlierDeadline
unfoldable pub is_earlier_deadline : Claim → Claim → Inputs → Bool
is_earlier_deadline a b i = earlier_by (deadline_of a i) (deadline_of b i) (is_older a b)

module _ ⦃text : TimeText⦄ where
  -- A failed claim with no readable failed-at counts as past its backoff.
  unfoldable pub failed_past_backoff : Claim → Inputs → Bool
  failed_past_backoff c i = elim (parse_time (get c.annotations failed_at)) [
    | none ↦ true
    | some at ↦
        leb_ℤ
          (effective_backoff (parse_int (get c.annotations retry_count)) i.retry_backoff at
            i.window_start i.window_end)
          (sub_time i.now at)
  ]

  unfoldable pub state_allows : Claim → Inputs → Bool
  state_allows c i =
      let s = get c.annotations state in
      if str_eq s "" then true else if str_eq s state_failed then failed_past_backoff c i else false

  unfoldable pub eligible : Claim → Inputs → Bool
  eligible c i =
      if i.excluded c.name
      then false
      else if c.deleting
      then false
      else if not c.ready
      then false
      else if not (state_allows c i)
      then false
      else triggered c i

  -- One round of the loop: `best` is what the claims before gave.
  unfoldable pub better : Option Claim → Claim → Inputs → Option Claim
  better none c i = some c
  better (some b) c i = if is_earlier_deadline c b i then some c else some b

  unfoldable pub pick_from : Option Claim → List Claim → Inputs → Option Claim
  pick_from best [] i = best
  pick_from best (c ∷ cs) i = pick_from (if eligible c i then better best c i else best) cs i

  -- PickEarliestDeadlineEligible
  unfoldable pub pick_earliest_deadline_eligible : List Claim → Inputs → Option Claim
  pick_earliest_deadline_eligible claims i = pick_from none claims i

  -- CountEligible
  unfoldable pub count_eligible : List Claim → Inputs → ℕ
  count_eligible [] i = 0
  count_eligible (c ∷ cs) i = let n = count_eligible cs i in if eligible c i then suc n else n

-- ShortLeadClaims
unfoldable pub is_short_lead : Claim → LeadTime → Bool
is_short_lead c lt =
    if c.deleting
    then false
    else elim c.expire_after [ none ↦ false | some e ↦ leb_ℤ e (lead_time_for lt c) ]

unfoldable pub short_lead_claims : List Claim → LeadTime → List Claim
unfolding is_short_lead
short_lead_claims [] lt = []
short_lead_claims (c ∷ cs) lt =
    let rest = short_lead_claims cs lt in if is_short_lead c lt then c ∷ rest else rest

-- CountShortLead
unfoldable pub count_short_lead : List Claim → LeadTime → ℕ
count_short_lead cs lt = length (short_lead_claims cs lt)
