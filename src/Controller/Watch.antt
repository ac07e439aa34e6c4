-- ===== src/Controller/Watch.antt =====
-- The watches of rotation_controller.go: which NodePools an event of the cluster wakes, and which
-- events pass.
use node_rotation_controller.Base.{
  String, Bool, true, false, not, ◌&&◌, ◌||◌, Option, none, some, List, [], ◌∷◌, ◌≡◌, refl,
  Annotations, get, str_eq, str_eq_iff, any, if◌then◌else◌,
}
use node_rotation_controller.Annotations.{surge_for}
use node_rotation_controller.Surge.Name.{Bytes}
use node_rotation_controller.Surge.Placeholder.{
  node_pool_label_key, PlaceholderInputs, build_placeholder,
}
use node_rotation_controller.Controller.Reads.{node_ready}

-- allNodePools, from the names of the pools that were listed; none is an error.
unfoldable pub all_node_pools : Option (List String) → List String
all_node_pools none = []
all_node_pools (some names) = names

abbrev pub unless_empty : String → List String
unless_empty np = if str_eq np "" then [] else np ∷ []

-- nodePoolFromLabel, on the labels of an object.
unfoldable pub node_pool_from_label : Annotations → List String
node_pool_from_label labels = unless_empty (get labels node_pool_label_key)

-- placeholderToNodePool, in the controller's namespace.
unfoldable pub placeholder_to_node_pool : String → String → Annotations → List String
placeholder_to_node_pool own namespace labels =
    if not (str_eq namespace own)
    then []
    else if str_eq (get labels surge_for) ""
    then []
    else unless_empty (get labels node_pool_label_key)

-- An event of a watch, on objects as the test sees them.
pub data WatchEvent {ℓ} (A : Type ℓ) : Type ℓ where
  created : A → WatchEvent A
  updated : A → A → WatchEvent A
  deleted : A → WatchEvent A
  generic : A → WatchEvent A

-- The predicate that lets an event through where the test comes to hold.
abbrev pub rising : {A : Type 0} → (A → Bool) → WatchEvent A → Bool
rising test (created a) = test a
rising test (updated a b) = not (test a) && test b
rising test (deleted a) = false
rising test (generic a) = false

-- podRunning, on the phase of a Pod; none is another kind of object.
unfoldable pub pod_running : Option String → Bool
pod_running none = false
pod_running (some phase) = str_eq phase "Running"

unfoldable pub placeholder_running : WatchEvent (Option String) → Bool
placeholder_running e = rising pod_running e

-- nodeReadyObj, on the conditions of a node.
unfoldable pub node_ready_obj : Option (List (String × String)) → Bool
node_ready_obj none = false
node_ready_obj (some conditions) = node_ready conditions

unfoldable pub node_became_ready : WatchEvent (Option (List (String × String))) → Bool
node_became_ready e = rising node_ready_obj e

-- The events of an object that is created and then updated.
abbrev pub updates : {A : Type 0} → A → List A → List (WatchEvent A)
updates a [] = []
updates a (b ∷ bs) = updated a b ∷ updates b bs

abbrev pub history : {A : Type 0} → A → List A → List (WatchEvent A)
history a bs = created a ∷ updates a bs

rising-updates :
    {A : Type 0} (test : A → Bool) (a : A) (bs : List A)
    → test a || any (rising test) (updates a bs) ≡ test a || any test bs
rising-updates test a [] = refl
rising-updates test a (b ∷ bs) = shift (test a) (test b) _ _ (rising-updates test b bs)
  where
    shift : (x y u v : Bool) → y || u ≡ y || v → x || ((not x && y) || u) ≡ x || (y || v)
    shift true y u v h = refl
    shift false y u v h = h

-- Of the events of an object that is created and then updated, one passes a watch for a test when
-- and only when the object meets the test at some time: no rise is missed.
pub rising-history :
    {A : Type 0} (test : A → Bool) (a : A) (bs : List A)
    → any (rising test) (history a bs) ≡ any test (a ∷ bs)
rising-history test a bs = rising-updates test a bs

-- The Pod that is built for a claim of a pool wakes that pool and no other, in the controller's
-- own namespace, where both have names.
pub placeholder_to_node_pool-build_placeholder :
    {R : Type 0} (hash : Bytes → Bytes) (i : PlaceholderInputs R)
    → str_eq i.candidate.name "" ≡ false
    → str_eq i.pool.name "" ≡ false
    → placeholder_to_node_pool i.namespace
        (build_placeholder hash i).namespace
        (build_placeholder hash i).labels
      ≡ i.pool.name ∷ []
unfolding placeholder_to_node_pool build_placeholder
placeholder_to_node_pool-build_placeholder hash i c p =
    rw ((str_eq_iff i.namespace i.namespace).1 refl, c, p) refl

-- It wakes no pool of a controller of another namespace.
pub placeholder_to_node_pool-other :
    (own namespace : String) (labels : Annotations)
    → str_eq namespace own ≡ false
    → placeholder_to_node_pool own namespace labels ≡ []
unfolding placeholder_to_node_pool
placeholder_to_node_pool-other own namespace labels h = rw (h, placeholder_to_node_pool) refl
