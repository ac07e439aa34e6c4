-- ===== src/Selection/Pick.antt =====
-- PickEarliestDeadlineEligible returns the least eligible claim, in whatever order they come.
use mathlib.Core.List.{Memᴰ}
use node_rotation_controller.Base.{
  ◌≡◌, ◌≢◌, ◌↔◌, ◌⊎◌, inl, inr, true, false, Option, none, some, List, [], ◌∷◌, arith, refl, All,
  Bool-cases, Option-cases, sym, subst,
}
use node_rotation_controller.Annotations.{TimeText}
use node_rotation_controller.Selection.{
  Claim, Inputs, is_earlier_deadline, eligible, better, pick_from, pick_earliest_deadline_eligible,
  count_eligible,
}
use node_rotation_controller.Selection.Order.{
  is_earlier_deadline_irrefl, is_earlier_deadline_trans, is_earlier_deadline_total,
}

module _ ⦃text : TimeText⦄ (i : Inputs) where
  -- No eligible claim of the list comes before `b`.
  abbrev pub Unbeaten : Claim → List Claim → Type 0
  Unbeaten b = All (λ c. eligible c i ≡ true → is_earlier_deadline c b i ≡ false)

  -- What the loop keeps of the claim that it holds.
  pub record IsPick (claims : List Claim) (b : Claim) : Type 0 where
    pub is_member : Memᴰ b claims
    pub is_eligible : eligible b i ≡ true
    pub unbeaten : Unbeaten b claims

  -- What the loop makes of the claim `b` that it holds, when `xs` are left.
  record Kept (b : Claim) (xs : List Claim) (r : Claim) : Type 0 where
    kept_from : (r ≡ b) ⊎ Memᴰ r xs
    kept_eligible : eligible r i ≡ true
    keeps_ahead :
        (c : Claim) → is_earlier_deadline c b i ≡ false → is_earlier_deadline c r i ≡ false
    kept_unbeaten : Unbeaten r xs

  behind :
      (x b c : Claim)
      → is_earlier_deadline c b i ≡ true
      → is_earlier_deadline x b i ≡ false
      → is_earlier_deadline x c i ≡ false
  behind x b c h u = elim (Bool-cases (is_earlier_deadline x c i)) [
    | inl k ↦ absurd (ground (arith, is_earlier_deadline_trans i x c b k h))
    | inr k ↦ k
  ]

  Kept-replace :
      (b c r : Claim) (xs : List Claim)
      → is_earlier_deadline c b i ≡ true
      → Kept c xs r
      → Kept b (c ∷ xs) r
  Kept-replace b c r xs h k = record {
    kept_from = inr (elim k.kept_from [ inl e ↦ Memᴰ.head e | inr m ↦ Memᴰ.tail m ]);
    kept_eligible = k.kept_eligible;
    keeps_ahead = λ x u. k.keeps_ahead x (behind x b c h u);
    kept_unbeaten = (λ _. k.keeps_ahead c (is_earlier_deadline_irrefl i c), k.kept_unbeaten);
  }

  Kept-skip :
      (b c r : Claim) (xs : List Claim)
      → (eligible c i ≡ true → is_earlier_deadline c b i ≡ false)
      → Kept b xs r
      → Kept b (c ∷ xs) r
  Kept-skip b c r xs h k = record {
    kept_from = elim k.kept_from [ inl e ↦ inl e | inr m ↦ inr (Memᴰ.tail m) ];
    kept_eligible = k.kept_eligible;
    keeps_ahead = k.keeps_ahead;
    kept_unbeaten = (λ e. k.keeps_ahead c (h e), k.kept_unbeaten);
  }

  pick_from-some :
      (b : Claim) (xs : List Claim)
      → eligible b i ≡ true
      → (r : Claim) × (pick_from (some b) xs i ≡ some r) × Kept b xs r
  unfolding pick_from better
  pick_from-some b [] e = (
    b,
    refl,
    record { kept_from = inl refl; kept_eligible = e; keeps_ahead = λ c h. h; kept_unbeaten = tt },
  )
  pick_from-some b (c ∷ xs) e = elim (Bool-cases (eligible c i)) [
    | inl ec ↦ elim (Bool-cases (is_earlier_deadline c b i)) [
      | inl first ↦
          let (r, p, k) = pick_from-some c xs ec in
          (r, rw (ec, first) p, Kept-replace b c r xs first k)
      | inr last ↦
          let (r, p, k) = pick_from-some b xs e in
          (r, rw (ec, last) p, Kept-skip b c r xs (λ _. last) k)
    ]
    | inr nc ↦
        let (r, p, k) = pick_from-some b xs e in
        (r, rw nc p, Kept-skip b c r xs (λ ec. absurd (ground (arith, nc, ec))) k)
  ]

  -- Either no claim is eligible and nothing is picked, or the pick is the least one.
  abbrev Picks : List Claim → Option Claim → Type 0
  Picks xs r =
      ((r ≡ none) × (count_eligible xs i ≡ 0))
      ⊎ ((b : Claim) × (r ≡ some b) × IsPick xs b × (count_eligible xs i ≢ 0))

  pick_from-none : (xs : List Claim) → Picks xs (pick_from none xs i)
  unfolding pick_from better count_eligible
  pick_from-none [] = inl (refl, refl)
  pick_from-none (c ∷ xs) = elim (Bool-cases (eligible c i)) [
    | inl ec ↦
        let (r, p, k) = pick_from-some c xs ec in
        rw ec (
          inr (
            r,
            p,
            record {
              is_member = elim k.kept_from [ inl e ↦ Memᴰ.head e | inr m ↦ Memᴰ.tail m ];
              is_eligible = k.kept_eligible;
              unbeaten = (λ _. k.keeps_ahead c (is_earlier_deadline_irrefl i c), k.kept_unbeaten);
            },
            omega arith,
          ))
    | inr nc ↦ rw nc (elim (pick_from-none xs) [
      | inl h ↦ inl h
      | inr (b, p, k, n) ↦ inr (
        b,
        p,
        record {
          is_member = Memᴰ.tail k.is_member;
          is_eligible = k.is_eligible;
          unbeaten = (λ ec. absurd (ground (arith, nc, ec)), k.unbeaten);
        },
        n,
      )
    ])
  ]

  -- The pick is a claim of the list that is eligible and that no eligible claim of the list comes
  -- before; there is no pick exactly when no claim is eligible.
  pub pick_earliest_deadline_eligible_lem :
      (claims : List Claim)
      → ((b : Claim) → pick_earliest_deadline_eligible claims i ≡ some b → IsPick claims b)
        × ((pick_earliest_deadline_eligible claims i ≡ none) ↔ (count_eligible claims i ≡ 0))
  unfolding pick_earliest_deadline_eligible
  pick_earliest_deadline_eligible_lem claims = elim (pick_from-none claims) [
    | inl (p, n) ↦ (λ b e. absurd (cc (p, e)), (λ _. n, λ _. p))
    | inr (c, p, k, n) ↦
        (λ b e. subst (IsPick claims) (cc (p, e)) k, (λ q. absurd (cc (p, q)), λ z. absurd (n z)))
  ]

  Unbeaten-Mem :
      (b c : Claim) (xs : List Claim)
      → Unbeaten b xs
      → Memᴰ c xs
      → eligible c i ≡ true
      → is_earlier_deadline c b i ≡ false
  Unbeaten-Mem b c [] u m h = elim m [ ]
  Unbeaten-Mem b c (x ∷ xs) (u, us) (Memᴰ.head e) h =
      subst (λ (y : Claim). is_earlier_deadline y b i ≡ false) (sym e)
        (u (subst (λ (y : Claim). eligible y i ≡ true) e h))
  Unbeaten-Mem b c (x ∷ xs) (u, us) (Memᴰ.tail m) h = Unbeaten-Mem b c xs us m h

  Unbeaten-eligible :
      (a b : Claim) (xs ys : List Claim)
      → ((c : Claim) → Memᴰ c xs → Memᴰ c ys)
      → IsPick xs a
      → IsPick ys b
      → is_earlier_deadline a b i ≡ false
  Unbeaten-eligible a b xs ys sub p q =
      Unbeaten-Mem b a ys q.unbeaten (sub a p.is_member) p.is_eligible

  eligible_counts :
      (xs : List Claim) (a : Claim) → Memᴰ a xs → eligible a i ≡ true → count_eligible xs i ≢ 0
  unfolding count_eligible
  eligible_counts [] a m e = elim m [ ]
  eligible_counts (x ∷ xs) a (Memᴰ.head p) e =
      rw (subst (λ (y : Claim). eligible y i ≡ true) p e) (λ z. omega arith)
  eligible_counts (x ∷ xs) a (Memᴰ.tail m) e = ground (arith, eligible_counts xs a m e)

  count_mono :
      (xs ys : List Claim)
      → ((c : Claim) → Memᴰ c xs → Memᴰ c ys)
      → pick_earliest_deadline_eligible ys i ≡ none
      → pick_earliest_deadline_eligible xs i ≡ none
  count_mono xs ys sub e = elim (Option-cases (pick_earliest_deadline_eligible xs i)) [
    | inl p ↦ p
    | inr (a, p) ↦
        let k = (pick_earliest_deadline_eligible_lem xs).0 a p in
        absurd (
          eligible_counts ys a (sub a k.is_member) k.is_eligible
            ((pick_earliest_deadline_eligible_lem ys).1.0 e))
  ]

  -- Two lists with the same claims, in whatever order and however often, have the same pick, as
  -- long as the name determines the claim.
  pub pick_order_independent :
      (xs ys : List Claim)
      → ((c : Claim) → Memᴰ c xs → Memᴰ c ys)
      → ((c : Claim) → Memᴰ c ys → Memᴰ c xs)
      → ((a b : Claim) → Memᴰ a xs → Memᴰ b xs → a.name ≡ b.name → a ≡ b)
      → pick_earliest_deadline_eligible xs i ≡ pick_earliest_deadline_eligible ys i
  pick_order_independent xs ys sub sup named =
      go (Option-cases (pick_earliest_deadline_eligible xs i))
        (Option-cases (pick_earliest_deadline_eligible ys i))
    where
      go :
          (pick_earliest_deadline_eligible xs i ≡ none)
            ⊎ ((a : Claim) × (pick_earliest_deadline_eligible xs i ≡ some a))
          → (pick_earliest_deadline_eligible ys i ≡ none)
            ⊎ ((b : Claim) × (pick_earliest_deadline_eligible ys i ≡ some b))
          → pick_earliest_deadline_eligible xs i ≡ pick_earliest_deadline_eligible ys i
      go (inl p) (inl q) = cc
      go (inl p) (inr (b, q)) = cc (count_mono ys xs sup p)
      go (inr (a, p)) (inl q) = cc (count_mono xs ys sub q)
      go (inr (a, p)) (inr (b, q)) =
          let pa = (pick_earliest_deadline_eligible_lem xs).0 a p in
          let pb = (pick_earliest_deadline_eligible_lem ys).0 b q in
          cc (
            named a b pa.is_member (sup b pb.is_member) (
              is_earlier_deadline_total i a b (Unbeaten-eligible a b xs ys sub pa pb)
                (Unbeaten-eligible b a ys xs sup pb pa)))
