-- ===== src/Governing/Reference.antt =====
-- What Governing of internal/resolve collects, against two passes: find the highest specificity
-- that matches, then who has it.
use node_rotation_controller.Base.{
  ℕ, ◌≤◌, true, false, ◌&&◌, ◌==◌, ltb, ltb→lt, ◌≡◌, refl, sym, ap, subst, ◌∙◌, inl, inr,
  Bool-cases, List, [], ◌∷◌, ◌++◌, Annotations, if◌then◌else◌, arith,
}
use node_rotation_controller.Governing.{RotationPolicy, Selectors, specificity, selects, collect}

append_assoc {ℓ} : {A : Type ℓ} (xs ys zs : List A) → (xs ++ ys) ++ zs ≡ xs ++ (ys ++ zs)
append_assoc [] ys zs = refl
append_assoc (x ∷ xs) ys zs = ap (λ l. x ∷ l) (append_assoc xs ys zs)

ltb_trans : (t s h : ℕ) → ltb t s ≡ true → s ≤ h → ltb t h ≡ true
ltb_trans t s h a b = ground arith

below_ne : (s h : ℕ) → ltb s h ≡ true → (s == h) ≡ false
below_ne s h a = ground arith

not_below_eq : (s h : ℕ) → ltb s h ≡ false → s ≤ h → (s == h) ≡ true
not_below_eq s h a b = ground arith

apart : (t s h : ℕ) → ltb t s ≡ false → (s == t) ≡ false → t ≤ h → (s == h) ≡ false
apart t s h a b c = ground arith

eq_below : (t s h : ℕ) → (s == t) ≡ true → (s == h) ≡ (t == h)
eq_below t s h a = ground arith

self_ltb : (t : ℕ) → ltb t t ≡ false
self_ltb t = ground arith

append_nil {ℓ} : {A : Type ℓ} (xs : List A) → xs ++ [] ≡ xs
append_nil [] = refl
append_nil (x ∷ xs) = ap (λ l. x ∷ l) (append_nil xs)

-- Three rounds on the lists: a policy above the top, one at it, and one below it.
module _ (p : RotationPolicy) (qs rest : List RotationPolicy) (t n h : ℕ) where
  raised :
      ltb t n ≡ true
      → n ≤ h
      → (if ltb n h then [] else p ∷ []) ++ rest
        ≡ (if ltb t h then [] else qs) ++ (if n == h then p ∷ rest else rest)
  raised a b = elim (Bool-cases (ltb n h)) [
    | inl e ↦ rw (ltb_trans t n h a b, e, below_ne n h e) refl
    | inr e ↦ rw (ltb_trans t n h a b, e, not_below_eq n h e b) refl
  ]

  level :
      (n == t) ≡ true
      → t ≤ h
      → (if ltb t h then [] else qs ++ (p ∷ [])) ++ rest
        ≡ (if ltb t h then [] else qs) ++ (if n == h then p ∷ rest else rest)
  level a b = elim (Bool-cases (ltb t h)) [
    | inl e ↦ rw (e, eq_below t n h a, below_ne t h e) refl
    | inr e ↦ rw (e, eq_below t n h a, not_below_eq t h e b) (append_assoc qs (p ∷ []) rest)
  ]

  lower :
      ltb t n ≡ false
      → (n == t) ≡ false
      → t ≤ h
      → (if ltb t h then [] else qs) ++ rest
        ≡ (if ltb t h then [] else qs) ++ (if n == h then p ∷ rest else rest)
  lower a b c = rw (apart t n h a b c) refl

module _ ⦃selectors : Selectors⦄ (labels : Annotations) where
  -- The highest specificity among `top` and the policies that match.
  abbrev pub highest : ℕ → List RotationPolicy → ℕ
  highest top [] = top
  highest top (p ∷ ps) =
      let s = specificity p.node_pool_selector in
      highest (if selects labels p && ltb top s then s else top) ps

  -- The policies that match and have this specificity, in their order.
  abbrev pub at_level : ℕ → List RotationPolicy → List RotationPolicy
  at_level n [] = []
  at_level n (p ∷ ps) =
      let rest = at_level n ps in
      if selects labels p && (specificity p.node_pool_selector == n) then p ∷ rest else rest

  zero_top : (n : ℕ) → (if ltb 0 n then n else 0) ≡ n
  zero_top n = ground arith

  highest-le : (ps : List RotationPolicy) (top : ℕ) → top ≤ highest top ps
  highest-le [] top = omega arith
  highest-le (p ∷ ps) top = elim (Bool-cases (selects labels p)) [
    | inr e ↦ rw e (highest-le ps top)
    | inl e ↦ elim (Bool-cases (ltb top (specificity p.node_pool_selector))) [
      | inl f ↦
          rw (e, f) (omega (arith, highest-le ps (specificity p.node_pool_selector), ltb→lt _ _ f))
      | inr f ↦ rw (e, f) (highest-le ps top)
    ]
  ]

  highest_up :
      (p : RotationPolicy) (ps : List RotationPolicy) (top : ℕ)
      → selects labels p ≡ true
      → ltb top (specificity p.node_pool_selector) ≡ true
      → highest top (p ∷ ps) ≡ highest (specificity p.node_pool_selector) ps
  highest_up p ps top e f = rw (e, f) refl

  highest_keep :
      (p : RotationPolicy) (ps : List RotationPolicy) (top : ℕ)
      → ltb top (specificity p.node_pool_selector) ≡ false
      → highest top (p ∷ ps) ≡ highest top ps
  highest_keep p ps top f = elim (Bool-cases (selects labels p)) [
    | inl e ↦ rw (e, f) refl
    | inr e ↦ rw e refl
  ]

  highest_skip :
      (p : RotationPolicy) (ps : List RotationPolicy) (top : ℕ)
      → selects labels p ≡ false
      → highest top (p ∷ ps) ≡ highest top ps
  highest_skip p ps top e = rw e refl

  at_level_skip :
      (p : RotationPolicy) (ps : List RotationPolicy) (n : ℕ)
      → selects labels p ≡ false
      → at_level n (p ∷ ps) ≡ at_level n ps
  at_level_skip p ps n e = rw e refl

  at_level_found :
      (p : RotationPolicy) (ps : List RotationPolicy) (n : ℕ)
      → selects labels p ≡ true
      → at_level n (p ∷ ps)
        ≡ (if specificity p.node_pool_selector == n then p ∷ at_level n ps else at_level n ps)
  at_level_found p ps n e = rw e refl

  -- The policies found so far fall where a later one is more specific.
  collect_from :
      (ps : List RotationPolicy) (top : ℕ) (q : RotationPolicy) (found : List RotationPolicy)
      → collect labels ps (top, q ∷ found)
        ≡ (if ltb top (highest top ps) then [] else q ∷ found) ++ at_level (highest top ps) ps
  unfolding collect
  collect_from [] top q found = rw (self_ltb top) (sym (append_nil (q ∷ found)))
  collect_from (p ∷ ps) top q found = elim (Bool-cases (selects labels p)) [
    | inr e ↦
        start (highest_skip p ps top e) (at_level_skip p ps _ e)
          (rw e (collect_from ps top q found))
    | inl e ↦ elim (Bool-cases (ltb top (specificity p.node_pool_selector))) [
      | inl f ↦ start (highest_up p ps top e f) (at_level_found p ps _ e) (
          rw (e, f)
            (collect_from ps (specificity p.node_pool_selector) p []
              ∙ raised p (q ∷ found) _ top (specificity p.node_pool_selector) _ f
                  (highest-le ps _)))
      | inr f ↦
          start (highest_keep p ps top f) (at_level_found p ps _ e)
            (elim (Bool-cases (specificity p.node_pool_selector == top)) [
              | inl g ↦
                  rw (e, f, g)
                    (collect_from ps top q (found ++ (p ∷ []))
                      ∙ level p (q ∷ found) _ top (specificity p.node_pool_selector) _ g
                          (highest-le ps top))
              | inr g ↦
                  rw (e, f, g)
                    (collect_from ps top q found
                      ∙ lower p (q ∷ found) _ top (specificity p.node_pool_selector) _ f g
                          (highest-le ps top))
            ])
    ]
  ]
    where
      start :
          {h : ℕ} {l r : List RotationPolicy}
          → highest top (p ∷ ps) ≡ h
          → at_level h (p ∷ ps) ≡ r
          → l ≡ (if ltb top h then [] else q ∷ found) ++ r
          → l
            ≡ (if ltb top (highest top (p ∷ ps)) then [] else q ∷ found)
              ++ at_level (highest top (p ∷ ps)) (p ∷ ps)
      start {h} {l} a e b =
          subst (λ k. l ≡ (if ltb top k then [] else q ∷ found) ++ at_level k (p ∷ ps)) (sym a)
            (b ∙ ap (λ r. (if ltb top h then [] else q ∷ found) ++ r) (sym e))

  first :
      (p : RotationPolicy) (rest : List RotationPolicy) (n h : ℕ)
      → n ≤ h
      → (if ltb n h then [] else p ∷ []) ++ rest ≡ (if n == h then p ∷ rest else rest)
  first p rest n h l = elim (Bool-cases (ltb n h)) [
    | inl f ↦ rw (f, below_ne n h f) refl
    | inr f ↦ rw (f, not_below_eq n h f l) refl
  ]

  highest_zero :
      (p : RotationPolicy) (ps : List RotationPolicy)
      → selects labels p ≡ true
      → highest 0 (p ∷ ps) ≡ highest (specificity p.node_pool_selector) ps
  highest_zero p ps e = rw e (ap (λ n. highest n ps) (zero_top (specificity p.node_pool_selector)))

  pub collect_all :
      (ps : List RotationPolicy) → collect labels ps (0, []) ≡ at_level (highest 0 ps) ps
  unfolding collect
  collect_all [] = refl
  collect_all (p ∷ ps) = elim (Bool-cases (selects labels p)) [
    | inr e ↦ start (highest_skip p ps 0 e) (at_level_skip p ps _ e) (rw e (collect_all ps))
    | inl e ↦ start (highest_zero p ps e) (at_level_found p ps _ e) (
        rw e (
          collect_from ps (specificity p.node_pool_selector) p []
          ∙ first p _ (specificity p.node_pool_selector) _ (highest-le ps _)))
  ]
    where
      start :
          {h : ℕ} {l r : List RotationPolicy}
          → highest 0 (p ∷ ps) ≡ h
          → at_level h (p ∷ ps) ≡ r
          → l ≡ r
          → l ≡ at_level (highest 0 (p ∷ ps)) (p ∷ ps)
      start {h} {l} a e b = subst (λ k. l ≡ at_level k (p ∷ ps)) (sym a) (b ∙ sym e)
