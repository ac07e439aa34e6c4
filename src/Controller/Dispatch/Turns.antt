-- ===== src/Controller/Dispatch/Turns.antt =====
-- The re-entry of a failed claim ends: a pass takes two turns at most.
use node_rotation_controller.Base.{
  ℕ, suc, String, Bool, true, false, ◌||◌, ◌&&◌, Option, none, some, ◌≡◌, refl, sym, ap, ◌∙◌, subst,
  inl, inr, get, put, str_eq, Bool-cases, Time, if◌then◌else◌, Annotations, str_eq_iff,
}
use node_rotation_controller.Annotations.{
  TimeText, state, state_pending, state_draining, state_failed,
}
use node_rotation_controller.Controller.World.{
  NodeClaim, Attempt, goes_through, fails, lags, lags_gone, World, Result, M,
}
use node_rotation_controller.Controller.Reads.{Cache, Resolved}
use node_rotation_controller.Controller.Api.{
  answer, ◌>>=◌, continue, Written, patch_claim_if, patch_claim_by, claim_read, claim_through,
  lagging, tick, first_attempt, write_claim,
}
use node_rotation_controller.Controller.Ending.{Requeue}
use node_rotation_controller.Controller.Dispatch.{
  reenter_edit, begin_again, reenter, due_for_retry, retry_or_release, advance_failed, dispatch,
  advance_found, advance,
}

-- The claim does not durably stand as failed.
abbrev NotFailed : String → World → Type 0
NotFailed name w =
    (c : NodeClaim) → w.claims name ≡ some c → str_eq (get c.annotations state) state_failed ≡ false

-- Whether a claim, where there is one, stands as failed.
abbrev stands_failed : Bool → Option NodeClaim → Bool
stands_failed b none = b
stands_failed b (some c) = str_eq (get c.annotations state) state_failed

-- The claim that a re-entry wrote is pending.
written-NotFailed :
    (name : String) (c : NodeClaim) (w : World)
    → NotFailed name (write_claim name c (put c.annotations state state_pending) w)
written-NotFailed name c w d e =
    sym (ap (stands_failed false) e)
    ∙ ap (stands_failed false) (
        ap
          (λ b.
            if b
            then some (record c { annotations = put c.annotations state state_pending })
            else w.claims name)
          ((str_eq_iff name name).1 refl))

module _ (name : String) (again again' : M Requeue) where
  -- The end of a re-entry, from what the write did.
  abbrev ends : Result Written × World → (M Requeue) → Result Requeue × World
  ends (r, w) next = continue r (begin_again next) w

  lagging_same :
      (s : Annotations) (o : Option Annotations) (w : World)
      → ends (lagging s o w) again ≡ ends (lagging s o w) again'
  lagging_same s none w = refl
  lagging_same s (some m) w = refl

  -- A re-entry goes on only where the two turns agree.
  found_same :
      (c : NodeClaim) (w : World)
      → ((w' : World) → NotFailed name w' → again w' ≡ again' w')
      → ends (claim_through name c (reenter_edit c.annotations) w) again
        ≡ ends (claim_through name c (reenter_edit c.annotations) w) again'
  unfolding reenter_edit
  found_same c w h = elim (Bool-cases (str_eq (get c.annotations state) state_failed)) [
    | inl e ↦ rw e (h _ (written-NotFailed name c w))
    | inr e ↦ rw e refl
  ]

  stale_same :
      (c : NodeClaim) (w : World)
      → str_eq (get c.annotations state) state_failed ≡ false
      → ends (claim_through name c (reenter_edit c.annotations) w) again
        ≡ ends (claim_through name c (reenter_edit c.annotations) w) again'
  unfolding reenter_edit
  stale_same c w e = rw e refl

  reenter_same :
      (w : World)
      → ((w' : World) → NotFailed name w' → again w' ≡ again' w')
      → reenter name again w ≡ reenter name again' w
  unfolding reenter ◌>>=◌ patch_claim_if
  reenter_same w h = go (first_attempt w.script)
    where
      read :
          (o : Option NodeClaim)
          → ends (claim_read name o reenter_edit (tick w)) again
            ≡ ends (claim_read name o reenter_edit (tick w)) again'
      read none = refl
      read (some c) = found_same c (tick w) h

      go :
          (a : Attempt)
          → ends (patch_claim_by a name reenter_edit (tick w)) again
            ≡ ends (patch_claim_by a name reenter_edit (tick w)) again'
      go goes_through = read (w.claims name)
      go fails = refl
      go (lags b s) = lagging_same s (reenter_edit s) (tick w)
      go lags_gone = refl

  reenter_stale : (w : World) → NotFailed name w → reenter name again w ≡ reenter name again' w
  unfolding reenter ◌>>=◌ patch_claim_if
  reenter_stale w n = go (first_attempt w.script)
    where
      read :
          (o : Option NodeClaim)
          → w.claims name ≡ o
          → ends (claim_read name o reenter_edit (tick w)) again
            ≡ ends (claim_read name o reenter_edit (tick w)) again'
      read none e = refl
      read (some c) e = stale_same c (tick w) (n c e)

      go :
          (a : Attempt)
          → ends (patch_claim_by a name reenter_edit (tick w)) again
            ≡ ends (patch_claim_by a name reenter_edit (tick w)) again'
      go goes_through = read (w.claims name) refl
      go fails = refl
      go (lags b s) = lagging_same s (reenter_edit s) (tick w)
      go lags_gone = refl

module _ ⦃text : TimeText⦄ (cache : Cache) (res : Resolved) (now : Time) (again again' : M Requeue)
    (w : World) where
  if_same :
      (b : Bool) (m m' n n' : M Requeue)
      → m w ≡ m' w
      → n w ≡ n' w
      → (if b then m else n) w ≡ (if b then m' else n') w
  if_same true m m' n n' h k = h
  if_same false m m' n n' h k = k

  advance_failed_same :
      (cand : NodeClaim)
      → reenter cand.name again w ≡ reenter cand.name again' w
      → advance_failed cache res cand now again w ≡ advance_failed cache res cand now again' w
  unfolding advance_failed ◌>>=◌
  advance_failed_same cand h = if_same cand.deleting _ _ _ _ refl (fit cache.fits)
    where
      retry : (b : Bool) → retry_or_release cand b again w ≡ retry_or_release cand b again' w
      retry true = h
      retry false = refl

      fit :
          (o : Option Bool)
          → (answer o >>= λ f. retry_or_release cand (due_for_retry cache res cand now && f) again)
              w
            ≡ (answer o >>= λ f.
                  retry_or_release cand (due_for_retry cache res cand now && f) again')
                w
      fit none = refl
      fit (some f) = retry (due_for_retry cache res cand now && f)

  dispatch_same :
      (cand : NodeClaim)
      → reenter cand.name again w ≡ reenter cand.name again' w
      → dispatch cache res cand now again w ≡ dispatch cache res cand now again' w
  unfolding dispatch
  dispatch_same cand h =
      let st = get cand.annotations state in
      if_same (str_eq st "" || str_eq st state_pending) _ _ _ _ refl (
        if_same (str_eq st state_draining) _ _ _ _ refl
          (if_same (str_eq st state_failed) _ _ _ _ (advance_failed_same cand h) refl))

  advance_found_same :
      (name : String) (found : Option (Option NodeClaim))
      → ((cand : NodeClaim)
          → found ≡ some (some cand)
          → reenter cand.name again w ≡ reenter cand.name again' w)
      → advance_found cache res name now again found w
        ≡ advance_found cache res name now again' found w
  advance_found_same name none h = refl
  advance_found_same name (some none) h = refl
  advance_found_same name (some (some cand)) h = dispatch_same cand (h cand refl)

-- A read by name gives the claim of that name.
abbrev IsKeyed : String → (ℕ → Cache) → Type 0
IsKeyed name caches =
    (i : ℕ) (c : NodeClaim) → (caches i).get_claim name ≡ some (some c) → c.name ≡ name

-- Where the claim does not stand as failed, one turn does what any number does.
advance_once :
    ⦃text : TimeText⦄
    → (caches : ℕ → Cache) (res : Resolved) (name : String) (now : Time) → IsKeyed name caches
    → (turns : ℕ) (w : World) → NotFailed name w
    → advance (suc turns) caches res name now w ≡ advance 1 caches res name now w
unfolding advance
advance_once caches res name now keyed turns w n =
    advance_found_same (caches 0) res now _ _ w name ((caches 0).get_claim name) (λ cand e.
      reenter_stale cand.name _ _ w (subst (λ x. NotFailed x w) (sym (keyed 0 cand e)) n))

-- However stale the reads of a claim, a pass that re-enters a failed attempt does so once: two
-- turns do what any greater number of turns does, where reads by name give the claim of that name.
pub advance-ends :
    ⦃text : TimeText⦄
    → (caches : ℕ → Cache) (res : Resolved) (name : String) (now : Time) → IsKeyed name caches
    → (more : ℕ) (w : World)
    → advance (suc (suc more)) caches res name now w ≡ advance 2 caches res name now w
unfolding advance
advance-ends caches res name now keyed more w =
    advance_found_same (caches 0) res now _ _ w name ((caches 0).get_claim name) (λ cand e.
      reenter_same cand.name _ _ w (λ w' n.
        advance_once (λ i. caches (suc i)) res name now (λ i. keyed (suc i)) more w'
          (subst (λ x. NotFailed x w') (keyed 0 cand e) n)))
