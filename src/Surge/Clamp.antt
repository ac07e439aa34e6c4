-- ===== src/Surge/Clamp.antt =====
-- internal/surge/clamp.go: what a placeholder asks for, cut down to what a fresh node can provide.
pub mod Pointwise
pub mod Bounds
use node_rotation_controller.Base.{
  String, Bool, true, false, not, Option, none, some, List, [], ◌∷◌, if◌then◌else◌,
}
use node_rotation_controller.Surge.Quantity.{
  Quantities, ResourceList, exceeds, is_positive, is_negative, lookup, set, amount, keys,
  sorted_keys,
}

module _ ⦃q : Quantities⦄ where
  abbrev pub less_daemons : q.Quantity → Option q.Quantity → q.Quantity
  less_daemons alloc none = alloc
  less_daemons alloc (some ds) = q.sub alloc ds

  abbrev pub limit_of : Option q.Quantity → Option q.Quantity → Option q.Quantity
  limit_of none ds = none
  limit_of (some alloc) ds = some (less_daemons alloc ds)

  -- provisionableLimit
  unfoldable pub provisionable_limit : ResourceList → ResourceList → String → Option q.Quantity
  provisionable_limit allocatable daemons n = limit_of (lookup n allocatable) (lookup n daemons)

  pub record ClampResult : Type 0 where
    pub requests : ResourceList
    pub clamped : Bool
    pub limit : ResourceList
    pub shortfall : ResourceList
    pub refused : Bool
    pub refused_resource : String

  abbrev pub unclamped : ResourceList → ClampResult
  unclamped requests = record {
    requests = requests;
    clamped = false;
    limit = [];
    shortfall = [];
    refused = false;
    refused_resource = "";
  }

  -- What the loop does at one resource.
  pub data Verdict : Type 0 where
    leave : Verdict
    refuse : Verdict
    cut : q.Quantity → Verdict

  unfoldable pub verdict : q.Quantity → Option q.Quantity → Verdict
  verdict want none = leave
  verdict want (some limit) =
      if not (is_positive limit)
      then (if not (is_positive want) then leave else refuse)
      else if not (exceeds want limit)
      then leave
      else cut limit

  abbrev pub refusal : ResourceList → String → ClampResult
  refusal requests n = record (unclamped requests) { refused = true; refused_resource = n }

  abbrev pub cut_at : String → q.Quantity → q.Quantity → ClampResult → ClampResult
  cut_at n want limit res = record res {
    clamped = true;
    shortfall = set n (q.sub want limit) res.shortfall;
    limit = set n limit res.limit;
    requests = set n limit res.requests;
  }

  abbrev pub judged :
      ResourceList → String → Verdict → ClampResult → (ClampResult → ClampResult) → ClampResult
  judged requests n leave res rest = rest res
  judged requests n refuse res rest = refusal requests n
  judged requests n (cut limit) res rest = rest (cut_at n (amount n requests) limit res)

  -- The loop of Clamp.
  unfoldable pub clamp_loop :
      ResourceList → ResourceList → ResourceList → List String → ClampResult → ClampResult
  clamp_loop requests allocatable daemons [] res = res
  clamp_loop requests allocatable daemons (n ∷ ns) res =
      judged requests n (verdict (amount n requests) (provisionable_limit allocatable daemons n))
        res (clamp_loop requests allocatable daemons ns)

  abbrev pub is_empty : ResourceList → Bool
  is_empty [] = true
  is_empty (e ∷ l) = false

  -- Clamp
  unfoldable pub clamp : ResourceList → ResourceList → ResourceList → ClampResult
  clamp requests allocatable daemons =
      if is_empty allocatable
      then unclamped requests
      else clamp_loop requests allocatable daemons (sorted_keys requests) (unclamped requests)

  abbrev pub gap : q.Quantity → q.Quantity → q.Quantity
  gap node claim = let g = q.sub node claim in if is_negative g then q.no_quantity else g

  abbrev pub banded : String → q.Quantity → Option q.Quantity → ResourceList → ResourceList
  banded n node none rest = rest
  banded n node (some claim) rest = (n, gap node claim) ∷ rest

  -- Band
  unfoldable pub band : ResourceList → ResourceList → ResourceList
  band [] claim = []
  band ((n, node) ∷ l) claim = banded n node (lookup n claim) (band l claim)

  abbrev pub first_over : ResourceList → ResourceList → List String → Option String
  first_over shortfall allowed [] = none
  first_over shortfall allowed (n ∷ ns) =
      let later = first_over shortfall allowed ns in
      if exceeds (amount n shortfall) (amount n allowed) then some n else later

  -- ExceedsBand
  unfoldable pub exceeds_band : ResourceList → ResourceList → Option String
  exceeds_band shortfall allowed = first_over shortfall allowed (sorted_keys shortfall)
