-- ===== src/Surge/Clamp/Bounds.antt =====
-- When Clamp refuses, and that what it lets through fits.
use node_rotation_controller.Base.{
  String, Bool, true, false, ◌&&◌, ◌||◌, ◌≡◌, refl, sym, ◌∙◌, subst, ℤ, pos, ◌+ℤ◌, eq_of_parts,
  +ℤ_parts, arith, inl, inr, ◌⊎◌, ◌↔◌, Bool-cases, Option, none, some, List, [], ◌∷◌, any,
}
use node_rotation_controller.Surge.Quantity.{
  Quantities, ResourceList, exceeds, is_positive, lookup, amount, quantity_or_zero, sorted_keys,
}
use node_rotation_controller.Surge.Quantity.Maps.{is_some, any-sorted_keys_iff, exceeds_irrefl}
use node_rotation_controller.Surge.Clamp.{
  provisionable_limit, ClampResult, unclamped, Verdict, leave, refuse, cut, verdict, judged,
  clamp_loop, clamp,
}
use node_rotation_controller.Surge.Clamp.Pointwise.{least, excess, clamp-lookup}

module _ ⦃q : Quantities⦄ where
  abbrev is_refusal : Verdict → Bool
  is_refusal leave = false
  is_refusal refuse = true
  is_refusal (cut l) = false

  module _ (requests allocatable daemons : ResourceList) where
    abbrev refuses_at : String → Bool
    refuses_at n =
        is_refusal (verdict (amount n requests) (provisionable_limit allocatable daemons n))

    loop_refused :
        (ns : List String) (res : ClampResult)
        → res.refused ≡ false
        → (clamp_loop requests allocatable daemons ns res).refused ≡ any refuses_at ns
    unfolding clamp_loop
    loop_refused [] res h = h
    loop_refused (n ∷ ns) res h =
        step (verdict (amount n requests) (provisionable_limit allocatable daemons n))
          (λ r. loop_refused ns r)
      where
        step :
            (v : Verdict)
            → ((r : ClampResult)
                → r.refused ≡ false
                → (clamp_loop requests allocatable daemons ns r).refused ≡ any refuses_at ns)
            → (judged requests n v res (clamp_loop requests allocatable daemons ns)).refused
              ≡ is_refusal v || any refuses_at ns
        step leave ih = ih res h
        step refuse ih = refl
        step (cut l) ih = ih _ h

  -- At one resource: no positive amount is asked for where none can be provided.
  abbrev pub IsProvided : Option q.Quantity → Option q.Quantity → Type 0
  IsProvided (some want) (some limit) = is_positive want ≡ true → is_positive limit ≡ true
  IsProvided _ _ = Unit

  IsProvided-iff :
      (o limit : Option q.Quantity)
      → ((is_some o ≡ true → is_refusal (verdict (quantity_or_zero o) limit) ≡ false)
          → IsProvided o limit)
        × (IsProvided o limit
            → is_some o ≡ true
            → is_refusal (verdict (quantity_or_zero o) limit) ≡ false)
  unfolding verdict
  IsProvided-iff none limit = (λ h. tt, λ h e. cc)
  IsProvided-iff (some want) none = (λ h. tt, λ h e. refl)
  IsProvided-iff (some want) (some limit) = elim (Bool-cases (is_positive limit)) [
    | inl e ↦ elim (Bool-cases (exceeds want limit)) [
      | inl f ↦ (λ h w. e, λ h u. rw (e, f) refl)
      | inr f ↦ (λ h w. e, λ h u. rw (e, f) refl)
    ]
    | inr e ↦ elim (Bool-cases (is_positive want)) [
      | inl f ↦ (λ h. cc (sym (refused e f) ∙ h refl), λ h. cc (sym e ∙ h f))
      | inr f ↦ (λ h w. cc (sym f ∙ w), λ h u. rw (e, f) refl)
    ]
  ]
    where
      refused :
          is_positive limit ≡ false
          → is_positive want ≡ true
          → is_refusal (verdict want (some limit)) ≡ true
      refused e f = rw (e, f) refl

  loop_refused_iff :
      (requests allocatable daemons : ResourceList)
      → ((clamp_loop requests allocatable daemons
            (sorted_keys requests)
            (unclamped requests)).refused
          ≡ false)
        ↔ ((n : String)
            → IsProvided (lookup n requests) (provisionable_limit allocatable daemons n))
  loop_refused_iff requests allocatable daemons = (
    λ h n. (IsProvided-iff (lookup n requests) _).0 (
        (any-sorted_keys_iff (refuses_at requests allocatable daemons) requests).0
          (sym (loop_refused requests allocatable daemons _ _ refl) ∙ h) n),
    λ h.
        loop_refused requests allocatable daemons _ _ refl
        ∙ (any-sorted_keys_iff (refuses_at requests allocatable daemons) requests).1
            (λ n. (IsProvided-iff (lookup n requests) _).1 (h n)),
  )

IsProvided-none : ⦃q : Quantities⦄ → (o : Option q.Quantity) → IsProvided o none
IsProvided-none none = tt
IsProvided-none (some x) = tt

-- The clamp refuses when and only when a positive amount is asked for of a resource of which a
-- fresh node is known to provide none.
pub clamp-refused_iff :
    ⦃q : Quantities⦄
    → (requests allocatable daemons : ResourceList)
    → ((clamp requests allocatable daemons).refused ≡ false)
      ↔ ((n : String) → IsProvided (lookup n requests) (provisionable_limit allocatable daemons n))
unfolding clamp provisionable_limit
clamp-refused_iff requests [] daemons = (λ h n. IsProvided-none (lookup n requests), λ h. refl)
clamp-refused_iff requests (a ∷ al) daemons = loop_refused_iff requests (a ∷ al) daemons

-- A request that the clamp leaves is within what a fresh node provides, where that is known; else
-- nothing of the resource is asked for.
abbrev pub FitsNode : ⦃q : Quantities⦄ → Option q.Quantity → Option q.Quantity → Type 0
FitsNode (some want) (some limit) = (exceeds want limit ≡ false) ⊎ (is_positive want ≡ false)
FitsNode _ _ = Unit

least-FitsNode :
    ⦃q : Quantities⦄
    → (o limit : Option q.Quantity) → IsProvided o limit
    → FitsNode (least o limit) limit
least-FitsNode none limit h = tt
least-FitsNode (some want) none h = tt
least-FitsNode (some want) (some limit) h = elim (Bool-cases (is_positive limit)) [
  | inl e ↦ elim (Bool-cases (exceeds want limit)) [
    | inl f ↦ rw (e, f) (inl (exceeds_irrefl limit))
    | inr f ↦ rw (e, f) (inl f)
  ]
  | inr e ↦ elim (Bool-cases (is_positive want)) [ inl f ↦ cc (sym e ∙ h f) | inr f ↦ rw e (inr f) ]
]

-- What the clamp lets through fits: where it does not refuse, each request is within what a fresh
-- node can provide, where that is known, or asks for nothing.
pub clamp-FitsNode :
    ⦃q : Quantities⦄
    → (requests allocatable daemons : ResourceList) (n : String)
    → (clamp requests allocatable daemons).refused ≡ false
    → FitsNode
        (lookup n (clamp requests allocatable daemons).requests)
        (provisionable_limit allocatable daemons n)
clamp-FitsNode requests allocatable daemons n h =
    subst (λ o. FitsNode o (provisionable_limit allocatable daemons n))
      (sym (clamp-lookup requests allocatable daemons n h).0)
      (least-FitsNode (lookup n requests) (provisionable_limit allocatable daemons n)
        ((clamp-refused_iff requests allocatable daemons).0 h n))

zero_plus : (z : ℤ) → pos 0 +ℤ z ≡ z
zero_plus z = eq_of_parts (pos 0 +ℤ z) z (omega (arith, +ℤ_parts (pos 0) z))

module _ ⦃q : Quantities⦄ where
  balance_step :
      (o limit : Option q.Quantity)
      → q.value (quantity_or_zero (excess o limit)) +ℤ q.value (quantity_or_zero (least o limit))
        ≡ q.value (quantity_or_zero o)
  balance_step none limit = rw q.value-no_quantity (zero_plus (pos 0))
  balance_step (some want) none = rw q.value-no_quantity (zero_plus _)
  balance_step (some want) (some limit) =
      elim (Bool-cases (is_positive limit && exceeds want limit)) [
        | inl e ↦ rw e (q.value-sub want limit)
        | inr e ↦ rw (e, q.value-no_quantity) (zero_plus _)
      ]

-- The clamp loses nothing: where it does not refuse, the shortfall of a resource and what is still
-- asked for add up to what was asked for.
pub clamp-balance :
    ⦃q : Quantities⦄
    → (requests allocatable daemons : ResourceList) (n : String)
    → (clamp requests allocatable daemons).refused ≡ false
    → q.value (amount n (clamp requests allocatable daemons).shortfall)
        +ℤ q.value (amount n (clamp requests allocatable daemons).requests)
      ≡ q.value (amount n requests)
clamp-balance requests allocatable daemons n h =
    rw
      (
        (clamp-lookup requests allocatable daemons n h).0,
        (clamp-lookup requests allocatable daemons n h).1,
      )
      (balance_step (lookup n requests) (provisionable_limit allocatable daemons n))
