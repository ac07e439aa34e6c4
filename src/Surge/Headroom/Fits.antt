-- ===== src/Surge/Headroom/Fits.antt =====
-- Headroom, resource by resource.
use node_rotation_controller.Base.{
  String, Bool, true, false, ◌≡◌, refl, sym, ap, ◌∙◌, inl, inr, ◌↔◌, Bool-cases, Option, none, some,
  List, [], ◌∷◌, any, if◌then◌else◌,
}
use node_rotation_controller.Surge.Quantity.{
  Quantities, ResourceList, exceeds, lookup, amount, quantity_or_zero,
}
use node_rotation_controller.Surge.Quantity.Maps.{is_some, any-sorted_keys_iff}
use node_rotation_controller.Surge.Headroom.{
  HeadroomResult, fits, short_of, left_over, over_limit, shortage, first_shortage, headroom,
}

module _ ⦃q : Quantities⦄ where
  -- At one resource: what is asked for is within what the limit leaves, where there is one.
  abbrev pub IsWithin : Option q.Quantity → Option q.Quantity → Option q.Quantity → Type 0
  IsWithin (some want) (some limit) used = exceeds want (left_over limit used) ≡ false
  IsWithin _ _ used = Unit

  abbrev pub is_fit : HeadroomResult → Bool
  is_fit fits = true
  is_fit (short_of n want left limit) = false

  module _ (limits used requests : ResourceList) where
    abbrev over_at : String → Bool
    over_at n = over_limit (amount n requests) (lookup n limits) (lookup n used)

    not_fit :
        (n : String) (want : q.Quantity) (limit u : Option q.Quantity)
        → over_limit want limit u ≡ true
        → is_fit (shortage n want limit u) ≡ false
    not_fit n want none u h = cc
    not_fit n want (some limit) u h = refl

    first_fit :
        (ns : List String)
        → is_fit (first_shortage limits used requests ns) ≡ (if any over_at ns then false else true)
    first_fit [] = refl
    first_fit (n ∷ ns) = elim (Bool-cases (over_at n)) [
      | inl e ↦ rw e (not_fit n (amount n requests) (lookup n limits) (lookup n used) e)
      | inr e ↦ rw e (first_fit ns)
    ]

    IsWithin-iff :
        (o limit u : Option q.Quantity)
        → ((is_some o ≡ true → over_limit (quantity_or_zero o) limit u ≡ false)
            → IsWithin o limit u)
          × (IsWithin o limit u
              → is_some o ≡ true
              → over_limit (quantity_or_zero o) limit u ≡ false)
    IsWithin-iff none limit u = (λ h. tt, λ h e. cc)
    IsWithin-iff (some want) none u = (λ h. tt, λ h e. refl)
    IsWithin-iff (some want) (some limit) u = (λ h. h refl, λ h e. h)

-- There is headroom when and only when each resource that is asked for and limited is within what
-- its limit leaves after what the pool has provisioned.
pub headroom-fit_iff :
    ⦃q : Quantities⦄
    → (limits used requests : ResourceList)
    → (is_fit (headroom limits used requests) ≡ true)
      ↔ ((n : String) → IsWithin (lookup n requests) (lookup n limits) (lookup n used))
unfolding headroom
headroom-fit_iff limits used requests = (
  λ h n. (IsWithin-iff limits used requests (lookup n requests) _ _).0 (
      (any-sorted_keys_iff (over_at limits used requests) requests).0
        (negated _ (sym (first_fit limits used requests _) ∙ h)) n),
  λ h.
      first_fit limits used requests _
      ∙ ap (λ b. if b then false else true)
          ((any-sorted_keys_iff (over_at limits used requests) requests).1
            (λ n. (IsWithin-iff limits used requests (lookup n requests) _ _).1 (h n))),
)
  where
    negated : (b : Bool) → (if b then false else true) ≡ true → b ≡ false
    negated true h = cc
    negated false h = refl
