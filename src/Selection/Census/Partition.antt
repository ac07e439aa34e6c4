-- ===== src/Selection/Census/Partition.antt =====
-- The census is a partition of the claims, and its eligible bucket is what CountEligible counts.
use node_rotation_controller.Base.{ℕ, ◌+◌, ◌≤◌, ◌≡◌, List, [], ◌∷◌, arith, refl, length}
use node_rotation_controller.Annotations.{TimeText}
use node_rotation_controller.Selection.{Claim, Inputs, eligible, count_eligible}
use node_rotation_controller.Selection.Census.{
  Census, no_claims, count_state, count_claim, census_from, take_census,
}

abbrev pub bucket_sum : Census → ℕ
bucket_sum c =
    c.eligible + c.opted_out + c.deleting + c.not_ready + c.in_flight + c.terminal + c.in_backoff
    + c.not_triggered

module _ ⦃text : TimeText⦄ (i : Inputs) where
  bucket_sum-count_claim :
      (cl : Claim) (c : Census) → bucket_sum (count_claim cl i c) ≡ bucket_sum c + 1
  unfolding count_claim count_state
  bucket_sum-count_claim cl c = ground arith

  triggered-count_claim :
      (cl : Claim) (c : Census)
      → c.in_backoff_triggered ≤ c.in_backoff
      → (count_claim cl i c).in_backoff_triggered ≤ (count_claim cl i c).in_backoff
  unfolding count_claim count_state
  triggered-count_claim cl c h = ground arith

  total-count_claim : (cl : Claim) (c : Census) → (count_claim cl i c).total ≡ c.total
  unfolding count_claim count_state
  total-count_claim cl c = ground arith

  eligible-count_claim :
      (cl : Claim) (c : Census) (cls : List Claim)
      → (count_claim cl i c).eligible + count_eligible cls i
        ≡ c.eligible + count_eligible (cl ∷ cls) i
  unfolding count_claim count_state count_eligible eligible
  eligible-count_claim cl c cls = ground arith

  -- The facts that the loop carries.
  record Counts (c : Census) (cls : List Claim) (r : Census) : Type 0 where
    sums : bucket_sum r ≡ bucket_sum c + length cls
    totals : r.total ≡ c.total
    eligibles : r.eligible ≡ c.eligible + count_eligible cls i
    triggers : c.in_backoff_triggered ≤ c.in_backoff → r.in_backoff_triggered ≤ r.in_backoff

  Counts-census_from : (c : Census) (cls : List Claim) → Counts c cls (census_from c cls i)
  unfolding census_from count_eligible
  Counts-census_from c [] = record {
    sums = omega arith;
    totals = refl;
    eligibles = omega arith;
    triggers = λ h. h;
  }
  Counts-census_from c (cl ∷ cls) =
      let rest = Counts-census_from (count_claim cl i c) cls in
      record {
        sums = omega (arith, rest.sums, bucket_sum-count_claim cl c);
        totals = omega (arith, rest.totals, total-count_claim cl c);
        eligibles = omega (arith, rest.eligibles, eligible-count_claim cl c cls);
        triggers = λ h. rest.triggers (triggered-count_claim cl c h);
      }

  -- Each claim counts in exactly one of the eight buckets, the eligible bucket is the number of
  -- eligible claims, and the triggered ones in backoff are among those in backoff.
  pub take_census-IsPartition :
      (claims : List Claim)
      → let c = take_census claims i in
        (c.total ≡ length claims)
        × (bucket_sum c ≡ c.total)
        × (c.eligible ≡ count_eligible claims i)
        × (c.in_backoff_triggered ≤ c.in_backoff)
  unfolding take_census
  take_census-IsPartition claims =
      let k = Counts-census_from (no_claims (length claims)) claims in
      (
        k.totals,
        omega (arith, k.sums, k.totals),
        omega (arith, k.eligibles),
        k.triggers (omega arith),
      )
