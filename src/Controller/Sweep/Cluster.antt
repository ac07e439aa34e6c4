-- ===== src/Controller/Sweep/Cluster.antt =====
-- internal/controller/sweep.go: the anchors of all the pools with the repair of torn ones, the
-- placeholders that no anchor refers to, and the whole sweep.
--
-- A cluster holds the pools' annotations by name and the Pods of the controller's namespace by
-- name. As in World, a script says how the calls turn out; the claims and the nodes are a World.
pub mod Repairs
pub mod Placeholders
use node_rotation_controller.Base.{
  String, Bool, true, false, not, ◌&&◌, ◌||◌, Option, none, some, List, [], ◌∷◌, map, Annotations,
  get, has, delete, str_eq, Time, if◌then◌else◌,
}
use node_rotation_controller.Annotations.{
  TimeText, active_rotation, active_rotation_state, draining_at, rotation_mode,
}
use node_rotation_controller.NodeOps.{Node}
use node_rotation_controller.Controller.World.{
  NodeClaim, Attempt, goes_through, fails, lags, lags_gone, World, Result, ok, err,
}
use node_rotation_controller.Controller.Api.{first_attempt, rest_of}
use node_rotation_controller.Controller.Sweep.{anchored_in, sweep_orphans}

-- A Pod of the namespace: its UID, and its surge-for label, the empty text where there is none.
pub record StoredPod : Type 0 where
  pub uid : String
  pub claim : String

pub record ListedPod : Type 0 where
  pub name : String
  pub uid : String
  pub claim : String

pub record ListedPool : Type 0 where
  pub name : String
  pub annotations : Annotations

pub record Cluster : Type 0 where
  pub pools : String → Option Annotations
  pub pods : String → Option StoredPod
  pub script : List Attempt

abbrev pub next_call : Cluster → Cluster
next_call k = record k { script = rest_of k.script }

abbrev pub set_key {ℓ} : {A : Type ℓ} → String → A → (String → A) → String → A
set_key name a f j = if str_eq name j then a else f j

-- The mutator of the repair, on the annotations that the write reads.
unfoldable pub repair_edit : Annotations → Annotations
repair_edit m = delete (delete (delete m active_rotation_state) draining_at) rotation_mode

abbrev has_pool : Option Annotations → Bool
has_pool none = false
has_pool (some m) = true

abbrev pub edit_found : String → Option Annotations → Cluster → Cluster
edit_found name none k = k
edit_found name (some m) k = record k { pools = set_key name (some (repair_edit m)) k.pools }

-- A pool that is gone is an error of patchPool, as any call that fails, and so is a read that lags
-- until the retries end.
abbrev pub repair_by : Attempt → String → Cluster → Bool × Cluster
repair_by goes_through name k = (has_pool (k.pools name), edit_found name (k.pools name) k)
repair_by fails name k = (false, k)
repair_by (lags b seen) name k = (false, k)
repair_by lags_gone name k = (false, k)

unfoldable pub repair : String → Cluster → Bool × Cluster
repair name k = repair_by (first_attempt k.script) name (next_call k)

-- A mirror of a rotation without the anchor.
abbrev pub is_torn : Annotations → Bool
is_torn m = str_eq (get m active_rotation) "" && has m active_rotation_state

abbrev pub and_then : Bool × Cluster → (Cluster → Bool × Cluster) → Bool × Cluster
and_then (false, k) f = (false, k)
and_then (true, k) f = f k

-- The loop of anchoredClaims; false is an error, which ends it.
unfoldable pub repair_listed : List ListedPool → Cluster → Bool × Cluster
repair_listed [] k = (true, k)
repair_listed (p ∷ ps) k =
    and_then (if is_torn p.annotations then repair p.name k else (true, k)) (repair_listed ps)

abbrev pub annotations_of : ListedPool → Annotations
annotations_of p = p.annotations

-- anchoredClaims
unfoldable pub anchored_claims :
    Option (List ListedPool) → Cluster → Option (String → Bool) × Cluster
anchored_claims none k = (none, k)
anchored_claims (some ps) k =
    let (good, k') = repair_listed ps k in
    (if good then some (anchored_in (map annotations_of ps)) else none, k')

-- What a delete of a Pod found: an object gone or replaced is no error.
pub data Deleted : Type 0 where
  removed : Deleted
  not_there : Deleted
  failed_call : Deleted

-- Whether the UID precondition holds of the object that is there.
abbrev pub is_selected : ListedPod → StoredPod → Bool
is_selected p s = str_eq p.uid "" || str_eq p.uid s.uid

abbrev pub delete_found : ListedPod → Option StoredPod → Cluster → Deleted × Cluster
delete_found p none k = (not_there, k)
delete_found p (some s) k =
    if is_selected p s
    then (removed, record k { pods = set_key p.name none k.pods })
    else (not_there, k)

abbrev pub delete_by : Attempt → ListedPod → Cluster → Deleted × Cluster
delete_by fails p k = (failed_call, k)
delete_by _ p k = delete_found p (k.pods p.name) k

-- deleteSelected
unfoldable pub delete_selected : ListedPod → Cluster → Deleted × Cluster
delete_selected p k = delete_by (first_attempt k.script) p (next_call k)

module _ (anchored : String → Bool) where
  abbrev pub is_spared : String → Bool
  is_spared claim = str_eq claim "" || anchored claim

  -- The loop over the Pods that were listed; an error is collected.
  unfoldable pub sweep_listed_pods : List ListedPod → Cluster → Cluster
  sweep_listed_pods [] k = k
  sweep_listed_pods (p ∷ ps) k =
      sweep_listed_pods ps (if is_spared p.claim then k else (delete_selected p k).1)

  -- sweepPlaceholders
  unfoldable pub sweep_placeholders : Option (List ListedPod) → Cluster → Cluster
  sweep_placeholders none k = k
  sweep_placeholders (some ps) k = sweep_listed_pods ps k

abbrev sweep_with :
    ⦃text : TimeText⦄
    → Time
    → Option (List ListedPod)
    → Option (List Node)
    → Option (List NodeClaim)
    → Option (String → Bool)
    → Cluster
    → World
    → Cluster × World
sweep_with now pods nodes claims none k w = (k, w)
sweep_with now pods nodes claims (some a) k w =
    (sweep_placeholders a pods k, (sweep_orphans a now nodes claims w).1)

-- Sweep, from what it lists. The errors that it joins are left out.
unfoldable pub sweep :
    ⦃text : TimeText⦄
    → Time
    → Option (List ListedPool)
    → Option (List ListedPod)
    → Option (List Node)
    → Option (List NodeClaim)
    → Cluster
    → World
    → Cluster × World
sweep now pools pods nodes claims k w =
    let (anchored, k') = anchored_claims pools k in sweep_with now pods nodes claims anchored k' w
