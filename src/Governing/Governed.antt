-- ===== src/Governing/Governed.antt =====
-- What the outcome of Governing of internal/resolve/resolve.go says of the policies.
use node_rotation_controller.Base.{
  ℕ, ◌≤◌, true, false, ◌≡◌, refl, sym, ap, subst, ◌∙◌, inl, inr, Bool-cases, List, [], ◌∷◌, ◌++◌,
  All, map, length, sort_names, Annotations, if◌then◌else◌, arith,
}
use node_rotation_controller.Governing.{
  RotationPolicy, Selectors, Outcome, matched, no_match, conflict, specificity, classify, is_nil,
  round, selects, collect, governing,
}
use node_rotation_controller.Governing.Reference.{highest, at_level, collect_all}

-- What an outcome says of the policies, at the highest specificity of those that match.
module _ ⦃selectors : Selectors⦄ (labels : Annotations) (ps : List RotationPolicy) where
  abbrev pub top_level : List RotationPolicy
  top_level = at_level labels (highest labels 0 ps) ps

  -- None matches; one stands alone at the top; or two or more are there, and all are named.
  abbrev pub IsGoverned : Outcome → Type 0
  IsGoverned no_match = All (λ p. selects labels p ≡ false) ps
  IsGoverned (matched p) = top_level ≡ p ∷ []
  IsGoverned (conflict names) =
      (2 ≤ length top_level) × (names ≡ sort_names (map (λ p. p.name) top_level))

module _ ⦃selectors : Selectors⦄ (labels : Annotations) where
  is_nil_snoc : (qs : List RotationPolicy) (p : RotationPolicy) → is_nil (qs ++ (p ∷ [])) ≡ false
  is_nil_snoc [] p = refl
  is_nil_snoc (q ∷ qs) p = refl

  found_stays :
      (p : RotationPolicy) (s : ℕ × List RotationPolicy)
      → is_nil s.1 ≡ false
      → is_nil (round p s).1 ≡ false
  found_stays p (top, found) h = let e = is_nil_snoc found p in ground arith

  collect-keeps :
      (ps : List RotationPolicy) (s : ℕ × List RotationPolicy)
      → is_nil s.1 ≡ false
      → is_nil (collect labels ps s) ≡ false
  unfolding collect
  collect-keeps [] s h = h
  collect-keeps (p ∷ ps) s h = elim (Bool-cases (selects labels p)) [
    | inl e ↦ rw e (collect-keeps ps (round p s) (found_stays p s h))
    | inr e ↦ rw e (collect-keeps ps s h)
  ]

  -- Where nothing is collected, nothing matches.
  none_collected :
      (ps : List RotationPolicy)
      → is_nil (collect labels ps (0, [])) ≡ true
      → All (λ p. selects labels p ≡ false) ps
  unfolding collect
  none_collected [] h = tt
  none_collected (p ∷ ps) h = elim (Bool-cases (selects labels p)) [
    | inl e ↦ absurd (cc (h, collect-keeps ps (specificity p.node_pool_selector, p ∷ []) refl))
    | inr e ↦ (
      e,
      none_collected ps (
          sym (ap (λ b. is_nil (collect labels ps (if b then round p (0, []) else (0, [])))) e)
          ∙ h),
    )
  ]

-- The pool has no policy where none matches, the one of the highest specificity among those that
-- match where it is alone there, and otherwise a conflict that names all of those there.
pub governing_lem :
    ⦃selectors : Selectors⦄
    → (labels : Annotations) (ps : List RotationPolicy) → IsGoverned labels ps (governing labels ps)
unfolding governing classify
governing_lem labels ps =
    by_number (collect labels ps (0, [])) (collect_all labels ps) (none_collected labels ps)
  where
    by_number :
        (found : List RotationPolicy)
        → found ≡ top_level labels ps
        → (is_nil found ≡ true → All (λ p. selects labels p ≡ false) ps)
        → IsGoverned labels ps (classify found)
    by_number [] e n = n refl
    by_number (p ∷ []) e n = sym e
    by_number (p ∷ q ∷ qs) e n =
        (subst (λ l. 2 ≤ length l) e (omega arith), ap (λ l. sort_names (map (λ r. r.name) l)) e)
