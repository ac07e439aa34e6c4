-- ===== src/Controller/Api.antt =====
-- The client wrappers of rotation_controller.go: conditional writes of the pool, of a claim and
-- of a node, deletes, and the placeholder Pod. RetryOnConflict is the attempt that ends it.
use node_rotation_controller.Base.{
  suc, String, Bool, true, false, Option, none, some, List, [], ◌∷◌, Annotations, get, str_eq,
  if◌then◌else◌,
}
use node_rotation_controller.Annotations.{surge_for}
use node_rotation_controller.NodeOps.{Node, apply_freeze, apply_cordon, apply_unfreeze}
use node_rotation_controller.Controller.World.{
  NodeClaim, Attempt, goes_through, fails, lags, lags_gone, Signal, Effect, pool_written,
  claim_written, claim_deleted, node_written, placeholder_created, placeholder_deleted, reported,
  World, Result, ok, err, M,
}
use node_rotation_controller.Annotations.{active_rotation_state}

module _ {ℓ} {A : Type ℓ} where
  abbrev pub pure : A → M A
  pure a w = (ok a, w)

  abbrev pub fail : M A
  fail w = (err, w)

  -- What a read of this pass gave; `none` is an error.
  abbrev pub answer : Option A → M A
  answer none = fail
  answer (some a) = pure a

module _ {ℓ κ} {A : Type ℓ} {B : Type κ} where
  abbrev pub continue : Result A → (A → M B) → M B
  continue (ok a) f w = f a w
  continue err f w = (err, w)

  infixl 5 ◌>>=◌ ◌>>◌
  unfoldable pub ◌>>=◌ : M A → (A → M B) → M B
  ◌>>=◌ m f w = let (r, w') = m w in continue r f w'

  abbrev pub ◌>>◌ : M A → M B → M B
  m >> n = m >>= λ _. n

abbrev pub first_attempt : List Attempt → Attempt
first_attempt [] = goes_through
first_attempt (a ∷ later) = a

abbrev pub rest_of : List Attempt → List Attempt
rest_of [] = []
rest_of (a ∷ later) = later

abbrev pub tick : World → World
tick w = record w { script = rest_of w.script }

abbrev pub note : Effect → World → World
note e w = record w { effects = e ∷ w.effects }

unfoldable pub report : Signal → M (Unit {0})
report s w = (ok tt, note (reported s) w)

-- A mutator edits the annotations that it reads, or refuses them.
abbrev pub Mutator : Type 0
Mutator = Annotations → Option Annotations

-- What a conditional write did: the annotations that it read, and those that it wrote.
pub data Written : Type 0 where
  gone : Written
  vetoed : Annotations → Written
  written : Annotations → Annotations → Written

abbrev pub pool_through : Annotations → Option Annotations → World → Result Written × World
pool_through seen none w = (ok (vetoed seen), w)
pool_through seen (some m) w =
    (ok (written seen m), note (pool_written m) (record w { pool = m; version = suc w.version }))

-- A refusal of a lagging read ends the loop; an edit of one conflicts until the retries end.
abbrev pub lagging : Annotations → Option Annotations → World → Result Written × World
lagging seen none w = (ok (vetoed seen), w)
lagging seen (some m) w = (err, w)

abbrev pub patch_pool_by : Attempt → Mutator → World → Result Written × World
patch_pool_by goes_through f w = pool_through w.pool (f w.pool) w
patch_pool_by fails f w = (err, w)
patch_pool_by (lags b seen) f w = lagging seen (f seen) w
patch_pool_by lags_gone f w = (err, w)

-- patchPoolIf
unfoldable pub patch_pool_if : Mutator → M Written
patch_pool_if f w = patch_pool_by (first_attempt w.script) f (tick w)

abbrev pub always : (Annotations → Annotations) → Mutator
always f m = some (f m)

-- patchPool
abbrev pub patch_pool : (Annotations → Annotations) → M Written
patch_pool f = patch_pool_if (always f)

abbrev pub set_claim : String → NodeClaim → (String → Option NodeClaim) → String → Option NodeClaim
set_claim name c claims j = if str_eq name j then some c else claims j

abbrev pub write_claim : String → NodeClaim → Annotations → World → World
write_claim name c m w =
    note (claim_written name m)
      (record w { claims = set_claim name (record c { annotations = m }) w.claims })

abbrev pub claim_through : String → NodeClaim → Option Annotations → World → Result Written × World
claim_through name c none w = (ok (vetoed c.annotations), w)
claim_through name c (some m) w = (ok (written c.annotations m), write_claim name c m w)

abbrev pub claim_read : String → Option NodeClaim → Mutator → World → Result Written × World
claim_read name none f w = (ok gone, w)
claim_read name (some c) f w = claim_through name c (f c.annotations) w

abbrev pub patch_claim_by : Attempt → String → Mutator → World → Result Written × World
patch_claim_by goes_through name f w = claim_read name (w.claims name) f w
patch_claim_by fails name f w = (err, w)
patch_claim_by (lags b seen) name f w = lagging seen (f seen) w
patch_claim_by lags_gone name f w = (ok gone, w)

-- patchClaimIf
unfoldable pub patch_claim_if : String → Mutator → M Written
patch_claim_if name f w = patch_claim_by (first_attempt w.script) name f (tick w)

-- patchClaim: a claim that is gone is no error.
abbrev pub patch_claim : String → (Annotations → Annotations) → M Written
patch_claim name f = patch_claim_if name (always f)

abbrev pub delete_found : String → Option NodeClaim → World → Result (Unit {0}) × World
delete_found name none w = (ok tt, w)
delete_found name (some c) w = (
  ok tt,
  note (claim_deleted name (get w.pool active_rotation_state))
      (record w { claims = set_claim name (record c { deleting = true }) w.claims }),
)

abbrev pub delete_by : Attempt → String → World → Result (Unit {0}) × World
delete_by fails name w = (err, w)
delete_by _ name w = delete_found name (w.claims name) w

-- client.IgnoreNotFound(r.Delete(ctx, cand)): finalizers keep the claim until its drain is done.
unfoldable pub delete_claim : String → M (Unit {0})
delete_claim name w = delete_by (first_attempt w.script) name (tick w)

abbrev pub set_placeholder : String → Bool → (String → Bool) → String → Bool
set_placeholder name b pods j = if str_eq name j then b else pods j

abbrev pub create_by : Attempt → String → World → Result (Unit {0}) × World
create_by fails name w = (err, w)
create_by _ name w = (
  ok tt,
  note (placeholder_created name)
      (record w { placeholders = set_placeholder name true w.placeholders }),
)

-- The end of createPlaceholder: a Pod that exists already is no error.
unfoldable pub create_placeholder : String → M (Unit {0})
create_placeholder name w = create_by (first_attempt w.script) name (tick w)

abbrev pub drop_by : Attempt → String → World → Result (Unit {0}) × World
drop_by fails name w = (err, w)
drop_by _ name w = (
  ok tt,
  note (placeholder_deleted name)
      (record w { placeholders = set_placeholder name false w.placeholders }),
)

-- deletePlaceholder: a Pod that is gone is no error.
unfoldable pub delete_placeholder : String → M (Unit {0})
delete_placeholder name w = drop_by (first_attempt w.script) name (tick w)

abbrev pub replace_node : String → (Node → Node × Bool) → List Node → List Node
replace_node name f [] = []
replace_node name f (n ∷ ns) = (if str_eq n.name name then (f n).0 else n) ∷ replace_node name f ns

abbrev pub find_node : String → List Node → Option Node
find_node name [] = none
find_node name (n ∷ ns) = if str_eq n.name name then some n else find_node name ns

abbrev pub node_through : String → (Node → Node × Bool) → Bool → World → Result (Unit {0}) × World
node_through name f false w = (ok tt, w)
node_through name f true w =
    (ok tt, note (node_written name) (record w { nodes = replace_node name f w.nodes }))

abbrev pub node_read :
    String → (Node → Node × Bool) → Option Node → World → Result (Unit {0}) × World
node_read name f none w = (ok tt, w)
node_read name f (some n) w = node_through name f (f n).1 w

-- A lagging read that shows nothing to change is believed; any other conflicts.
abbrev pub node_lagging : Bool → World → Result (Unit {0}) × World
node_lagging false w = (ok tt, w)
node_lagging true w = (err, w)

abbrev pub patch_node_by :
    Attempt → String → (Node → Node × Bool) → World → Result (Unit {0}) × World
patch_node_by goes_through name f w = node_read name f (find_node name w.nodes) w
patch_node_by fails name f w = (err, w)
patch_node_by (lags cordoned seen) name f w =
    node_lagging (f (record { name = name; annotations = seen; unschedulable = cordoned })).1 w
patch_node_by lags_gone name f w = (ok tt, w)

-- patchNode: a node that is gone is no error.
unfoldable pub patch_node : String → (Node → Node × Bool) → M (Unit {0})
patch_node name f w = patch_node_by (first_attempt w.script) name f (tick w)

unfoldable pub freeze_node : String → String → M (Unit {0})
freeze_node name claim =
    if str_eq name "" then pure tt else patch_node name (λ n. apply_freeze n claim)

unfoldable pub cordon_node : String → M (Unit {0})
cordon_node name = if str_eq name "" then pure tt else patch_node name apply_cordon

-- The loop of unfreezeNodes over the nodes that it listed.
unfoldable pub unfreeze_listed : List Node → String → M (Unit {0})
unfreeze_listed [] claim = pure tt
unfreeze_listed (n ∷ ns) claim =
    if str_eq (get n.annotations surge_for) claim
    then (patch_node n.name apply_unfreeze >> unfreeze_listed ns claim)
    else unfreeze_listed ns claim

-- unfreezeNodes
unfoldable pub unfreeze_nodes : Option (List Node) → String → M (Unit {0})
unfreeze_nodes listed claim = do nodes ← answer listed; unfreeze_listed nodes claim
