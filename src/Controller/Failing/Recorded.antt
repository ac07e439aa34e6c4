-- ===== src/Controller/Failing/Recorded.antt =====
-- failPending: the failure is recorded on the claim before the pool's anchor is released.
use node_rotation_controller.Base.{
  ℕ, suc, ◌<◌, String, true, Option, none, some, ◌≡◌, ◌⊎◌, inl, inr, refl, ap, ◌∙◌, Annotations,
  get, str_eq, str_eq_iff, pos, ◌+ℤ◌, put, if◌then◌else◌, wrap64, wrap64_of_IsInt64, eq_of_parts,
  +ℤ_parts, itoa, atoi-itoa, two63, Time, arith,
}
use node_rotation_controller.Annotations.{
  TimeText, state, state_failed, failed_at, retry_count, started_at, surge_claim, last_failure_at,
}
use node_rotation_controller.Selection.{parse_int}
use node_rotation_controller.Controller.World.{
  NodeClaim, Attempt, goes_through, fails, lags, lags_gone, failure, reported, World, Result,
}
use node_rotation_controller.Controller.Api.{
  pure, ◌>>=◌, continue, Written, report, patch_pool_if, patch_pool_by, always, patch_claim_if,
  patch_claim_by, claim_read, claim_through, tick, rest_of, note, first_attempt, write_claim,
}
use node_rotation_controller.Controller.Anchor.Fields.{
  is_anchor_key, clear_rotation_anchor_fields-at,
}
use node_rotation_controller.Controller.Ending.{Requeue, long_requeue}
use node_rotation_controller.Controller.Failing.{
  failed_edit, release_failed, after_failure, record_failure,
}

module _ ⦃text : TimeText⦄ (name : String) (now : Time) where
  -- The claim, which was there, holds the failed state, the instant and one more attempt, and
  -- nothing of the attempt that failed.
  pub record IsFailed (w w' : World) : Type 0 where
    pub claim : NodeClaim
    pub edited : Annotations
    pub before : w.claims name ≡ some claim
    pub after : w'.claims name ≡ some (record claim { annotations = edited })
    pub in_failed_state : edited state ≡ some state_failed
    pub stamped : edited failed_at ≡ some (text.format now)
    pub counted :
        edited retry_count
        ≡ some (itoa (wrap64 (parse_int (get claim.annotations retry_count) +ℤ pos 1)))
    pub not_started : edited started_at ≡ none
    pub no_surge_claim : edited surge_claim ≡ none

  -- The pool has the instant of the failure and no key of a rotation in flight; the others stay.
  abbrev pub IsReleased : World → World → Type 0
  IsReleased w w' =
      (j : String)
      → w'.pool j ≡ (
          if is_anchor_key j
          then none
          else if str_eq last_failure_at j
          then some (text.format now)
          else w.pool j)

  abbrev pub IsRecorded : World → World → Type 0
  IsRecorded w w' = IsFailed w w' × IsReleased w w'

  release_failed-IsReleased :
      (m : Annotations) (j : String)
      → release_failed now m j ≡ (
          if is_anchor_key j
          then none
          else if str_eq last_failure_at j
          then some (text.format now)
          else m j)
  unfolding release_failed
  release_failed-IsReleased m j =
      clear_rotation_anchor_fields-at (put m last_failure_at (text.format now)) j

  written-IsFailed :
      (c : NodeClaim) (w w' : World)
      → w.claims name ≡ some c
      → w'.claims name ≡ some (record c { annotations = failed_edit now c.annotations })
      → IsFailed w w'
  unfolding failed_edit
  written-IsFailed c w w' h k = record {
    claim = c;
    edited = failed_edit now c.annotations;
    before = h;
    after = k;
    in_failed_state = refl;
    stamped = refl;
    counted = refl;
    not_started = refl;
    no_surge_claim = refl;
  }

  abbrev Outcome : World → World → Type 0
  Outcome w w' = (w'.pool ≡ w.pool) ⊎ IsRecorded w w'

  abbrev goes_on : Result Written × World → Result Requeue × World
  goes_on (r, w) = continue r (after_failure name now) w

  -- The release, once the claim is written.
  release_Outcome :
      (c : NodeClaim) (w : World)
      → w.claims name ≡ some c
      → Outcome w (goes_on (claim_through name c (some (failed_edit now c.annotations)) (tick w))).1
  unfolding ◌>>=◌ report patch_pool_if
  release_Outcome c w here = go (first_attempt (rest_of w.script))
    where
      noted : World
      noted =
          note (reported (failure name))
            (write_claim name c (failed_edit now c.annotations) (tick w))

      ended : Result Written × World → Result Requeue × World
      ended (r, w') = continue r (λ a. pure long_requeue) w'

      same : str_eq name name ≡ true
      same = (str_eq_iff name name).1 refl

      go :
          (a : Attempt)
          → Outcome w (ended (patch_pool_by a (always (release_failed now)) (tick noted))).1
      go goes_through =
          inr (written-IsFailed c w _ here (rw same refl), release_failed-IsReleased w.pool)
      go fails = inl refl
      go (lags b s) = inl refl
      go lags_gone = inl refl

-- Whatever fails, the pool stays as it was, its anchor kept for the next pass, unless the claim
-- holds the failed state, with the instant, its attempt counted and nothing left of that attempt;
-- only then does the pool lose the keys of the rotation, with the failure's instant put on it and
-- its other keys kept.
pub record_failure-IsRecorded :
    ⦃text : TimeText⦄
    → (name : String) (now : Time) (w : World)
    → (((record_failure name now w).1).pool ≡ w.pool)
      ⊎ IsRecorded name now w (record_failure name now w).1
unfolding record_failure ◌>>=◌ patch_claim_if
record_failure-IsRecorded name now w = go (first_attempt w.script)
  where
    read :
        (o : Option NodeClaim)
        → w.claims name ≡ o
        → Outcome name now w
            (goes_on name now (claim_read name o (always (failed_edit now)) (tick w))).1
    read none e = inl refl
    read (some c) e = release_Outcome name now c w e

    go :
        (a : Attempt)
        → Outcome name now w
            (goes_on name now (patch_claim_by a name (always (failed_edit now)) (tick w))).1
    go goes_through = read (w.claims name) refl
    go fails = inl refl
    go (lags b s) = inl refl
    go lags_gone = inl refl

next_count : (n : ℕ) → suc n < two63 → wrap64 (pos n +ℤ pos 1) ≡ pos (suc n)
unfolding ◌+ℤ◌
next_count n h =
    wrap64_of_IsInt64 _ (ground arith) ∙ eq_of_parts _ _ (omega (arith, +ℤ_parts (pos n) (pos 1)))

read_count : (n : ℕ) → n < two63 → parse_int (itoa (pos n)) ≡ pos n
unfolding parse_int
read_count n h = ap (λ o. elim o [ some z ↦ z | none ↦ pos 0 ]) (atoi-itoa n h)

-- A failed attempt raises the retry count that is read back from the claim by one, below the
-- largest count that an int holds.
pub failed_edit-retry :
    ⦃text : TimeText⦄
    → (now : Time) (m : Annotations) (n : ℕ) → parse_int (get m retry_count) ≡ pos n
    → suc n < two63
    → parse_int (get (failed_edit now m) retry_count) ≡ pos (suc n)
unfolding failed_edit
failed_edit-retry now m n e h =
    ap (λ z. parse_int (itoa (wrap64 (z +ℤ pos 1)))) e
    ∙ (ap (λ z. parse_int (itoa z)) (next_count n h) ∙ read_count (suc n) h)
