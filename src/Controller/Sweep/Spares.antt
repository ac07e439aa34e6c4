-- ===== src/Controller/Sweep/Spares.antt =====
-- The sweep leaves what an anchor refers to.
use node_rotation_controller.Base.{
  String, Bool, true, false, not, ◌&&◌, ◌||◌, ◌≡◌, ◌⊎◌, refl, sym, ap, ◌∙◌, inl, inr, Bool-cases,
  Option, none, some, List, [], ◌∷◌, Annotations, has, str_eq, str_eq_iff, Time, if◌then◌else◌,
}
use node_rotation_controller.Annotations.{TimeText, surge_for, cordoned}
use node_rotation_controller.NodeOps.{Node}
use node_rotation_controller.Controller.World.{
  NodeClaim, Attempt, goes_through, fails, lags, lags_gone, World, M,
}
use node_rotation_controller.Controller.Api.{
  answer, ◌>>=◌, Written, gone, vetoed, written, report, patch_node, patch_node_by, node_read,
  node_through, node_lagging, replace_node, find_node, patch_claim_if, patch_claim_by, claim_read,
  claim_through, lagging, tick, first_attempt,
}
use node_rotation_controller.Controller.Hoare.{After, Keeps, pure-Keeps, run-Keeps}
use node_rotation_controller.Controller.Walk.{after-Keeps, when-Keeps}
use node_rotation_controller.Controller.Sweep.{
  collected, is_kept, sweep_node_edit, sweep_listed_nodes, sweep_nodes, in_flight, sweep_claim_edit,
  announce_repair, sweep_listed_claims, sweep_claims, sweep_orphans,
}

abbrev pub IsListed : Node → List Node → Type 0
IsListed n [] = ⊥
IsListed n (m ∷ ms) = (m ≡ n) ⊎ IsListed n ms

pub collected-Keeps {ℓ} :
    {A : Type ℓ} {P : World → Type 0} (m : M A) → Keeps P m → Keeps P (collected m)
collected-Keeps m h = record { holds = λ w p. run-Keeps m h w p }

answer-Keeps {ℓ κ} :
    {A : Type ℓ} {B : Type κ} {P : World → Type 0} (o : Option A) {f : A → M B}
    → ((a : A) → Keeps P (f a))
    → Keeps P (answer o >>= f)
unfolding ◌>>=◌
answer-Keeps none h = record { holds = λ w p. p }
answer-Keeps (some a) h = record { holds = (h a).holds }

module _ (anchored : String → Bool) (claim : String) (referred : anchored claim ≡ true)
    (c : Option NodeClaim) (n : Node) (frozen_for : n.annotations surge_for ≡ some claim) where
  -- The claim as it was, and the node among the nodes.
  abbrev Spared : World → Type 0
  Spared w = (w.claims claim ≡ c) × IsListed n w.nodes

  kept_node : is_kept anchored n ≡ true
  kept_node =
      ap
        (λ o.
          ((elim o [ none ↦ false | some v ↦ true ])
            && anchored (elim o [ none ↦ "" | some v ↦ v ]))
          || (not (elim o [ none ↦ false | some v ↦ true ]) && not (has n.annotations cordoned)))
        frozen_for
      ∙ rw referred refl

  unchanged : (sweep_node_edit anchored n).0 ≡ n
  unfolding sweep_node_edit
  unchanged = rw kept_node refl

  replace-IsListed :
      (name : String) (ns : List Node)
      → IsListed n ns
      → IsListed n (replace_node name (sweep_node_edit anchored) ns)
  replace-IsListed name [] h = h
  replace-IsListed name (m ∷ ms) (inr h) = inr (replace-IsListed name ms h)
  replace-IsListed name (m ∷ ms) (inl e) = inl (elim (Bool-cases (str_eq m.name name)) [
    | inl f ↦ rw f (ap (λ x. (sweep_node_edit anchored x).0) e ∙ unchanged)
    | inr f ↦ rw f e
  ])

  through-Keeps :
      (name : String) (b : Bool) → Keeps Spared (node_through name (sweep_node_edit anchored) b)
  through-Keeps name false = record { holds = λ w p. p }
  through-Keeps name true = record { holds = λ w p. (p.0, replace-IsListed name w.nodes p.1) }

  read-Keeps :
      (name : String) (o : Option Node) → Keeps Spared (node_read name (sweep_node_edit anchored) o)
  read-Keeps name none = record { holds = λ w p. p }
  read-Keeps name (some m) = through-Keeps name (sweep_node_edit anchored m).1

  lagging-Keeps : (b : Bool) → Keeps Spared (node_lagging b)
  lagging-Keeps true = record { holds = λ w p. p }
  lagging-Keeps false = record { holds = λ w p. p }

  patch_node-Keeps : (name : String) → Keeps Spared (patch_node name (sweep_node_edit anchored))
  unfolding patch_node
  patch_node-Keeps name = record { holds = λ w p. go w p (first_attempt w.script) }
    where
      go :
          (w : World)
          → Spared w
          → (a : Attempt)
          → After Spared (λ u. Spared) (patch_node_by a name (sweep_node_edit anchored) (tick w))
      go w p goes_through = (read-Keeps name (find_node name w.nodes)).holds (tick w) p
      go w p fails = p
      go w p (lags b s) = (lagging-Keeps _).holds (tick w) p
      go w p lags_gone = p

  nodes_keep : (ns : List Node) → Keeps Spared (sweep_listed_nodes anchored ns)
  nodes_keep [] = pure-Keeps tt
  nodes_keep (m ∷ ms) =
      when-Keeps (is_kept anchored m) (nodes_keep ms)
        (after-Keeps (collected-Keeps _ (patch_node-Keeps m.name)) (λ u. nodes_keep ms))

  module _ ⦃text : TimeText⦄ (now : Time) where
    other_claim :
        (name : String) (d : NodeClaim) (o : Option Annotations)
        → str_eq name claim ≡ false
        → Keeps Spared (claim_through name d o)
    other_claim name d none e = record { holds = λ w p. p }
    other_claim name d (some m) e = record {
      holds = λ w p. (
        ap (λ b. if b then some (record d { annotations = m }) else w.claims claim) e ∙ p.0,
        p.1,
      );
    }

    read_claim-Keeps :
        (name : String) (o : Option NodeClaim)
        → str_eq name claim ≡ false
        → Keeps Spared (claim_read name o (sweep_claim_edit anchored now))
    read_claim-Keeps name none e = record { holds = λ w p. p }
    read_claim-Keeps name (some d) e = other_claim name d _ e

    lagging_claim-Keeps : (s : Annotations) (o : Option Annotations) → Keeps Spared (lagging s o)
    lagging_claim-Keeps s none = record { holds = λ w p. p }
    lagging_claim-Keeps s (some m) = record { holds = λ w p. p }

    patch_claim-Keeps :
        (name : String)
        → str_eq name claim ≡ false
        → Keeps Spared (patch_claim_if name (sweep_claim_edit anchored now))
    unfolding patch_claim_if
    patch_claim-Keeps name e = record { holds = λ w p. go w p (first_attempt w.script) }
      where
        go :
            (w : World)
            → Spared w
            → (a : Attempt)
            → After Spared
                (λ r. Spared)
                (patch_claim_by a name (sweep_claim_edit anchored now) (tick w))
        go w p goes_through = (read_claim-Keeps name (w.claims name) e).holds (tick w) p
        go w p fails = p
        go w p (lags b s) = (lagging_claim-Keeps s _).holds (tick w) p
        go w p lags_gone = p

    announce-Keeps :
        (name : String) (r : Written) → Keeps Spared (announce_repair anchored now name r)
    unfolding report
    announce-Keeps name gone = pure-Keeps tt
    announce-Keeps name (vetoed seen) = pure-Keeps tt
    announce-Keeps name (written before after) = record { holds = λ w p. p }

    not_this : (name : String) → anchored name ≡ false → str_eq name claim ≡ false
    not_this name e = elim (Bool-cases (str_eq name claim)) [
      | inl f ↦ cc (sym e ∙ ap anchored ((str_eq_iff name claim).0 f) ∙ referred)
      | inr f ↦ f
    ]

    claims_keep : (cs : List NodeClaim) → Keeps Spared (sweep_listed_claims anchored now cs)
    claims_keep [] = pure-Keeps tt
    claims_keep (d ∷ ds) = elim (Bool-cases (anchored d.name)) [
      | inl e ↦ elim (Bool-cases (in_flight anchored now d.annotations)) [
        | inl f ↦ rw (f, e) (claims_keep ds)
        | inr f ↦ rw f (claims_keep ds)
      ]
      | inr e ↦
          when-Keeps (not (in_flight anchored now d.annotations) || anchored d.name)
            (claims_keep ds)
            (after-Keeps
              (collected-Keeps _ (
                after-Keeps (patch_claim-Keeps d.name (not_this d.name e)) (announce-Keeps d.name)))
              (λ u. claims_keep ds))
    ]

-- The sweep leaves what an anchor refers to, whatever it lists and whatever calls fail or lag:
-- the claim of an anchor is as it was, and a node that is frozen for it, if it is there, is still
-- there as it was.
pub sweep_orphans-Spares :
    ⦃text : TimeText⦄
    → (anchored : String → Bool) (now : Time) (nodes : Option (List Node))
      (claims : Option (List NodeClaim)) (claim : String) (n : Node) (w : World)
    → anchored claim ≡ true
    → n.annotations surge_for ≡ some claim
    → IsListed n w.nodes
    → ((sweep_orphans anchored now nodes claims w).1.claims claim ≡ w.claims claim)
      × IsListed n (sweep_orphans anchored now nodes claims w).1.nodes
unfolding sweep_orphans sweep_nodes sweep_claims
sweep_orphans-Spares anchored now nodes claims claim n w r f l =
    run-Keeps (sweep_orphans anchored now nodes claims)
      (after-Keeps
        (collected-Keeps _ (answer-Keeps nodes (nodes_keep anchored claim r (w.claims claim) n f)))
        (λ u.
          collected-Keeps _
            (answer-Keeps claims (claims_keep anchored claim r (w.claims claim) n f now))))
      w (refl, l)
