-- ===== src/Selection/Census.antt =====
-- internal/selection/census.go: each claim counts in the bucket of the first check that it fails.
pub mod Partition
use node_rotation_controller.Base.{
  ℕ, ◌+◌, Bool, true, false, not, List, [], ◌∷◌, get, str_eq, if◌then◌else◌, length,
}
use node_rotation_controller.Annotations.{TimeText, state, state_failed, state_expired}
use node_rotation_controller.Selection.{Claim, Inputs, state_allows, triggered}

pub record Census : Type 0 where
  pub total : ℕ
  pub eligible : ℕ
  pub opted_out : ℕ
  pub deleting : ℕ
  pub not_ready : ℕ
  pub in_flight : ℕ
  pub terminal : ℕ
  pub in_backoff : ℕ
  pub not_triggered : ℕ
  pub in_backoff_triggered : ℕ

abbrev pub no_claims : ℕ → Census
no_claims n = record {
  total = n;
  eligible = 0;
  opted_out = 0;
  deleting = 0;
  not_ready = 0;
  in_flight = 0;
  terminal = 0;
  in_backoff = 0;
  not_triggered = 0;
  in_backoff_triggered = 0;
}

module _ ⦃text : TimeText⦄ where
  -- The claim whose state does not allow a selection.
  unfoldable pub count_state : Claim → Inputs → Census → Census
  count_state cl i c =
      let s = get cl.annotations state in
      if str_eq s state_expired
      then record c { terminal = c.terminal + 1 }
      else if str_eq s state_failed
      then record c {
        in_backoff = c.in_backoff + 1;
        in_backoff_triggered =
            if triggered cl i then c.in_backoff_triggered + 1 else c.in_backoff_triggered;
      }
      else record c { in_flight = c.in_flight + 1 }

  -- One round of the loop.
  unfoldable pub count_claim : Claim → Inputs → Census → Census
  count_claim cl i c =
      if i.excluded cl.name
      then record c { opted_out = c.opted_out + 1 }
      else if cl.deleting
      then record c { deleting = c.deleting + 1 }
      else if not cl.ready
      then record c { not_ready = c.not_ready + 1 }
      else if not (state_allows cl i)
      then count_state cl i c
      else if not (triggered cl i)
      then record c { not_triggered = c.not_triggered + 1 }
      else record c { eligible = c.eligible + 1 }

  unfoldable pub census_from : Census → List Claim → Inputs → Census
  census_from c [] i = c
  census_from c (cl ∷ cls) i = census_from (count_claim cl i c) cls i

  -- TakeCensus
  unfoldable pub take_census : List Claim → Inputs → Census
  take_census claims i = census_from (no_claims (length claims)) claims i
