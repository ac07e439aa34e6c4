-- ===== src/Surge/WholeNode.antt =====
-- internal/surge/wholenode.go: a placeholder that takes a whole node.
pub mod Reserved
use node_rotation_controller.Base.{
  ℕ, String, Bool, true, false, not, ◌||◌, ◌==◌, Option, none, some, List, [], ◌∷◌, if◌then◌else◌,
}
use node_rotation_controller.Surge.Quantity.{
  Quantities, ResourceList, exceeds, is_positive, lookup, set, amount, keys,
}
use node_rotation_controller.Surge.Clamp.{provisionable_limit, is_empty}

abbrev pub cpu : String
cpu = "cpu"

abbrev pub memory : String
memory = "memory"

module _ ⦃q : Quantities⦄ where
  abbrev pub wants_more : Option q.Quantity → Bool
  wants_more none = false
  wants_more (some want) = is_positive want

  -- refusable
  unfoldable pub refusable : ResourceList → String → ResourceList → ResourceList
  refusable out n allocatable =
      if wants_more (lookup n out)
      then out
      else if not (is_positive (amount n allocatable))
      then out
      else set n (amount n allocatable) out

  abbrev pub is_enough : Option q.Quantity → q.Quantity → Bool
  is_enough none limit = false
  is_enough (some want) limit = not (exceeds limit want)

  abbrev pub raise_to :
      Bool → ResourceList → String → ResourceList → Option q.Quantity → ResourceList
  raise_to mandatory out n allocatable none = out
  raise_to mandatory out n allocatable (some limit) =
      if not (is_positive limit)
      then (if mandatory then refusable out n allocatable else out)
      else if is_enough (lookup n out) limit
      then out
      else set n limit out

  -- raise
  unfoldable pub raise : Bool → ResourceList → String → ResourceList → ResourceList → ResourceList
  raise mandatory out n allocatable daemons =
      raise_to mandatory out n allocatable (provisionable_limit allocatable daemons n)

  abbrev pub raise_all : List String → ResourceList → ResourceList → ResourceList → ResourceList
  raise_all [] out allocatable daemons = out
  raise_all (n ∷ ns) out allocatable daemons =
      raise_all ns (raise false out n allocatable daemons) allocatable daemons

  -- WholeNode
  unfoldable pub whole_node : ResourceList → ResourceList → ResourceList → ℕ → ResourceList
  whole_node requests allocatable daemons pods =
      if (pods == 0) || is_empty allocatable
      then requests
      else raise_all (keys requests)
          (raise true (raise true requests cpu allocatable daemons) memory allocatable daemons)
          allocatable daemons
