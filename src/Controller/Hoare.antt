-- ===== src/Controller/Hoare.antt =====
-- Triples for the actions of a pass: what holds before, after a result, and after an error.
use node_rotation_controller.Base.{
  String, Bool, true, false, Option, none, some, List, [], ◌∷◌, str_eq, get, Annotations,
  if◌then◌else◌,
}
use node_rotation_controller.Annotations.{surge_for}
use node_rotation_controller.NodeOps.{Node, apply_unfreeze, apply_freeze, apply_cordon}
use node_rotation_controller.Controller.World.{
  NodeClaim, Attempt, goes_through, fails, lags, lags_gone, node_written, placeholder_created,
  placeholder_deleted, World, Result, ok, err, M,
}
use node_rotation_controller.Controller.Api.{
  pure, answer, ◌>>=◌, tick, note, first_attempt, write_claim, Mutator, patch_claim_if,
  delete_placeholder, create_placeholder, patch_node, freeze_node, cordon_node, unfreeze_listed,
  unfreeze_nodes, patch_claim_by, claim_read, claim_through, lagging, drop_by, create_by,
  patch_node_by, node_read, node_through, node_lagging, find_node, continue,
}

module _ {ℓ} {A : Type ℓ} where
  abbrev pub After : (World → Type 0) → (A → World → Type 0) → Result A × World → Type 0
  After J Q (ok a, w) = Q a w
  After J Q (err, w) = J w

  -- From P the action gives a result with Q, or an error with J.
  pub record Triple (J P : World → Type 0) (m : M A) (Q : A → World → Type 0) : Type ℓ where
    pub holds : (w : World) → P w → After J Q (m w)

module _ {ℓ κ} {A : Type ℓ} {B : Type κ} where
  pub bind-Triple :
      {J P : World → Type 0} {Q : A → World → Type 0} {R : B → World → Type 0} (m : M A)
      (f : A → M B)
      → Triple J P m Q
      → ((a : A) → Triple J (Q a) (f a) R)
      → Triple J P (m >>= f) R
  unfolding ◌>>=◌
  bind-Triple {J = J} {Q = Q} {R = R} m f h k = record { holds = λ w p. go (m w) (h.holds w p) }
    where
      go : (r : Result A × World) → After J Q r → After J R (continue r.0 f r.1)
      go (ok a, w') q = (k a).holds w' q
      go (err, w') j = j

-- A property that the script, the nodes, the placeholders and the claims do not touch.
pub record IsLocal (P : World → Type 0) : Type 0 where
  pub on_tick : (w : World) → P w → P (tick w)
  pub on_node :
      (w : World) (name : String) (ns : List Node)
      → P w
      → P (note (node_written name) (record w { nodes = ns }))
  pub on_create :
      (w : World) (name : String) (pods : String → Bool)
      → P w
      → P (note (placeholder_created name) (record w { placeholders = pods }))
  pub on_drop :
      (w : World) (name : String) (pods : String → Bool)
      → P w
      → P (note (placeholder_deleted name) (record w { placeholders = pods }))
  pub on_claim :
      (w : World) (name : String) (c : NodeClaim) (m : Annotations)
      → P w
      → P (write_claim name c m w)

-- What an action leaves alone.
abbrev pub Keeps {ℓ} : {A : Type ℓ} → (World → Type 0) → M A → Type ℓ
Keeps P m = Triple P P m (λ a. P)

pub pure-Keeps {ℓ} : {A : Type ℓ} {P : World → Type 0} (a : A) → Keeps P (pure a)
pure-Keeps a = record { holds = λ w p. p }

module _ {P : World → Type 0} (l : IsLocal P) where
  pub delete_placeholder-Keeps : (name : String) → Keeps P (delete_placeholder name)
  unfolding delete_placeholder
  delete_placeholder-Keeps name = record { holds = λ w p. go w p (first_attempt w.script) }
    where
      go : (w : World) → P w → (a : Attempt) → After P (λ u. P) (drop_by a name (tick w))
      go w p goes_through = l.on_drop (tick w) name _ (l.on_tick w p)
      go w p fails = l.on_tick w p
      go w p (lags b s) = l.on_drop (tick w) name _ (l.on_tick w p)
      go w p lags_gone = l.on_drop (tick w) name _ (l.on_tick w p)

  pub create_placeholder-Keeps : (name : String) → Keeps P (create_placeholder name)
  unfolding create_placeholder
  create_placeholder-Keeps name = record { holds = λ w p. go w p (first_attempt w.script) }
    where
      go : (w : World) → P w → (a : Attempt) → After P (λ u. P) (create_by a name (tick w))
      go w p goes_through = l.on_create (tick w) name _ (l.on_tick w p)
      go w p fails = l.on_tick w p
      go w p (lags b s) = l.on_create (tick w) name _ (l.on_tick w p)
      go w p lags_gone = l.on_create (tick w) name _ (l.on_tick w p)

  node_through-Keeps :
      (name : String) (f : Node → Node × Bool) (b : Bool) → Keeps P (node_through name f b)
  node_through-Keeps name f false = record { holds = λ w p. p }
  node_through-Keeps name f true = record { holds = λ w p. l.on_node w name _ p }

  node_read-Keeps :
      (name : String) (f : Node → Node × Bool) (o : Option Node) → Keeps P (node_read name f o)
  node_read-Keeps name f none = record { holds = λ w p. p }
  node_read-Keeps name f (some n) = node_through-Keeps name f (f n).1

  node_lagging-Keeps : (b : Bool) → Keeps P (node_lagging b)
  node_lagging-Keeps true = record { holds = λ w p. p }
  node_lagging-Keeps false = record { holds = λ w p. p }

  pub patch_node-Keeps : (name : String) (f : Node → Node × Bool) → Keeps P (patch_node name f)
  unfolding patch_node
  patch_node-Keeps name f = record { holds = λ w p. go w p (first_attempt w.script) }
    where
      go : (w : World) → P w → (a : Attempt) → After P (λ u. P) (patch_node_by a name f (tick w))
      go w p goes_through =
          (node_read-Keeps name f (find_node name w.nodes)).holds (tick w) (l.on_tick w p)
      go w p fails = l.on_tick w p
      go w p (lags b s) = (node_lagging-Keeps _).holds (tick w) (l.on_tick w p)
      go w p lags_gone = l.on_tick w p

  pub if-Keeps {ℓ} :
      {A : Type ℓ} (b : Bool) {m n : M A} → Keeps P m → Keeps P n → Keeps P (if b then m else n)
  if-Keeps true h k = h
  if-Keeps false h k = k

  pub freeze_node-Keeps : (name claim : String) → Keeps P (freeze_node name claim)
  unfolding freeze_node
  freeze_node-Keeps name claim =
      if-Keeps (str_eq name "") (pure-Keeps tt) (patch_node-Keeps name (λ n. apply_freeze n claim))

  pub cordon_node-Keeps : (name : String) → Keeps P (cordon_node name)
  unfolding cordon_node
  cordon_node-Keeps name =
      if-Keeps (str_eq name "") (pure-Keeps tt) (patch_node-Keeps name apply_cordon)

  unfreeze_listed-Keeps : (ns : List Node) (claim : String) → Keeps P (unfreeze_listed ns claim)
  unfolding unfreeze_listed
  unfreeze_listed-Keeps [] claim = pure-Keeps tt
  unfreeze_listed-Keeps (n ∷ ns) claim =
      if-Keeps (str_eq (get n.annotations surge_for) claim)
        (bind-Triple (patch_node n.name apply_unfreeze) _ (patch_node-Keeps n.name apply_unfreeze)
          (λ u. unfreeze_listed-Keeps ns claim))
        (unfreeze_listed-Keeps ns claim)

  pub answer-Keeps {ℓ} : {A : Type ℓ} (o : Option A) → Keeps P (answer o)
  answer-Keeps none = record { holds = λ w p. p }
  answer-Keeps (some a) = record { holds = λ w p. p }

  pub unfreeze_nodes-Keeps :
      (o : Option (List Node)) (claim : String) → Keeps P (unfreeze_nodes o claim)
  unfolding unfreeze_nodes
  unfreeze_nodes-Keeps o claim =
      bind-Triple (answer o) _ (answer-Keeps o) (λ ns. unfreeze_listed-Keeps ns claim)

  claim_through-Keeps :
      (name : String) (c : NodeClaim) (o : Option Annotations) → Keeps P (claim_through name c o)
  claim_through-Keeps name c none = record { holds = λ w p. p }
  claim_through-Keeps name c (some m) = record { holds = λ w p. l.on_claim w name c m p }

  claim_read-Keeps :
      (name : String) (o : Option NodeClaim) (f : Mutator) → Keeps P (claim_read name o f)
  claim_read-Keeps name none f = record { holds = λ w p. p }
  claim_read-Keeps name (some c) f = claim_through-Keeps name c (f c.annotations)

  pub lagging-Keeps : (s : Annotations) (o : Option Annotations) → Keeps P (lagging s o)
  lagging-Keeps s none = record { holds = λ w p. p }
  lagging-Keeps s (some m) = record { holds = λ w p. p }

  pub patch_claim_if-Keeps : (name : String) (f : Mutator) → Keeps P (patch_claim_if name f)
  unfolding patch_claim_if
  patch_claim_if-Keeps name f = record { holds = λ w p. go w p (first_attempt w.script) }
    where
      go : (w : World) → P w → (a : Attempt) → After P (λ u. P) (patch_claim_by a name f (tick w))
      go w p goes_through = (claim_read-Keeps name (w.claims name) f).holds (tick w) (l.on_tick w p)
      go w p fails = l.on_tick w p
      go w p (lags b s) = (lagging-Keeps s (f s)).holds (tick w) (l.on_tick w p)
      go w p lags_gone = l.on_tick w p

pub after_any {ℓ} :
    {A : Type ℓ} (P : World → Type 0) (r : Result A × World) → After P (λ a. P) r → P r.1
after_any P (ok a, w) p = p
after_any P (err, w) p = p

-- Every run of an action that keeps P keeps it, also where it ends in an error.
pub run-Keeps {ℓ} :
    {A : Type ℓ} {P : World → Type 0} (m : M A) → Keeps P m → (w : World) → P w → P (m w).1
run-Keeps {P = P} m h w p = after_any P (m w) (h.holds w p)
