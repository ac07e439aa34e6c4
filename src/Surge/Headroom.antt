-- ===== src/Surge/Headroom.antt =====
-- internal/surge/headroom.go: whether a NodePool's limits leave room for a placeholder.
pub mod Fits
use node_rotation_controller.Base.{
  String, Bool, true, false, Option, none, some, List, [], ◌∷◌, if◌then◌else◌,
}
use node_rotation_controller.Surge.Quantity.{
  Quantities, ResourceList, exceeds, lookup, amount, sorted_keys,
}

module _ ⦃q : Quantities⦄ where
  -- HeadroomResult
  pub data HeadroomResult : Type 0 where
    fits : HeadroomResult
    short_of : String → q.Quantity → q.Quantity → q.Quantity → HeadroomResult

  abbrev pub left_over : q.Quantity → Option q.Quantity → q.Quantity
  left_over limit none = limit
  left_over limit (some used) = q.sub limit used

  abbrev pub over_limit : q.Quantity → Option q.Quantity → Option q.Quantity → Bool
  over_limit want none used = false
  over_limit want (some limit) used = exceeds want (left_over limit used)

  abbrev pub shortage : String → q.Quantity → Option q.Quantity → Option q.Quantity → HeadroomResult
  shortage n want none used = fits
  shortage n want (some limit) used = short_of n want (left_over limit used) limit

  abbrev pub first_shortage :
      ResourceList → ResourceList → ResourceList → List String → HeadroomResult
  first_shortage limits used requests [] = fits
  first_shortage limits used requests (n ∷ ns) =
      let later = first_shortage limits used requests ns in
      if over_limit (amount n requests) (lookup n limits) (lookup n used)
      then shortage n (amount n requests) (lookup n limits) (lookup n used)
      else later

  -- Headroom, from the limits of the pool and what it has provisioned.
  unfoldable pub headroom : ResourceList → ResourceList → ResourceList → HeadroomResult
  headroom limits used requests = first_shortage limits used requests (sorted_keys requests)
