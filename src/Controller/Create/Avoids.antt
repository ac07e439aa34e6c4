-- ===== src/Controller/Create/Avoids.antt =====
-- Which hosts a placeholder avoids, and what the Pod that is submitted is bound to, for
-- rotation_controller.go.
use mathlib.Core.List.{Memᴰ}
use node_rotation_controller.Base.{
  String, Bool, true, false, Option, none, some, List, [], ◌∷◌, ◌≡◌, refl, sym, ap, ◌∙◌, subst,
  Annotations, str_eq, str_eq_iff, any, any-sort_names, sort_names, ◌⊎◌, inl, inr, arith,
  if◌then◌else◌,
}
use node_rotation_controller.Selection
use node_rotation_controller.Surge.Quantity.{Quantities, ResourceList}
use node_rotation_controller.Surge.Pods.{Pod}
use node_rotation_controller.Surge.Sizing
use node_rotation_controller.Surge.Placeholder
use node_rotation_controller.Surge.Placeholder.{
  PlaceholderPod, node_pool_label_key, build_placeholder, node_affinity,
}
use node_rotation_controller.Surge.Placeholder.Parity.{admits, node_affinity-admits_iff}
use node_rotation_controller.Controller.World.{NodeClaim}
use node_rotation_controller.Controller.Create.{
  hostname_of, hostname, add_name, bind, is_passed_over, collect_hosts, excluded_hostnames, Setup,
  HostView, Reads, Creation, Submission, submitted, already_there, rejected, create_placeholder_pod,
  submit, with_reads,
}

abbrev pub Holds : String → List String → Type 0
Holds h hs = any (str_eq h) hs ≡ true

add_name-Holds : (h g : String) (hs : List String) → Holds h hs → Holds h (add_name g hs)
add_name-Holds h g hs k = ground arith

add_name_self : (h : String) (hs : List String) → Holds h (add_name h hs)
add_name_self h hs = let e = (str_eq_iff h h).1 refl in ground arith

some_inj {ℓ} : {A : Type ℓ} {x y : A} → some x ≡ some y → x ≡ y
some_inj e = cc

-- The two ways in which a turn of the loop gives a set.
turn_cases :
    (b : Bool) (o : Option String) (skip : Option (List String))
    (take : String → Option (List String)) (out : List String)
    → (if b then skip else bind o take) ≡ some out
    → ((b ≡ true) × (skip ≡ some out))
      ⊎ ((g : String) × (b ≡ false) × (o ≡ some g) × (take g ≡ some out))
turn_cases true o skip take out e = inl (refl, e)
turn_cases false none skip take out e = cc
turn_cases false (some g) skip take out e = inr (g, refl, refl, e)

module _ (get_labels : String → Option (Option Annotations)) (cand : String)
    (sel : Selection.Inputs) where
  abbrev near : NodeClaim → Option String
  near c = hostname c.node_name (get_labels c.node_name)

  -- The loop keeps what is in the set.
  collect_hosts-Holds :
      (cs : List NodeClaim) (hosts out : List String) (h : String)
      → collect_hosts get_labels cand sel cs hosts ≡ some out
      → Holds h hosts
      → Holds h out
  collect_hosts-Holds [] hosts out h e k = subst (Holds h) (some_inj e) k
  collect_hosts-Holds (c ∷ cs) hosts out h e k =
      elim (turn_cases (is_passed_over cand sel c) (near c) _ _ out e) [
        | inl (b, f) ↦ collect_hosts-Holds cs hosts out h f k
        | inr (g, b, n, f) ↦
            collect_hosts-Holds cs (add_name g hosts) out h f (add_name-Holds h g hosts k)
      ]

  -- The loop takes in the host of each claim that it does not pass over.
  collect_hosts-near :
      (cs : List NodeClaim) (hosts out : List String) (c : NodeClaim) (h : String)
      → collect_hosts get_labels cand sel cs hosts ≡ some out
      → Memᴰ c cs
      → is_passed_over cand sel c ≡ false
      → near c ≡ some h
      → Holds h out
  collect_hosts-near [] hosts out c h e m p n = elim m [ ]
  collect_hosts-near (d ∷ ds) hosts out c h e m p n =
      at (turn_cases (is_passed_over cand sel d) (near d) _ _ out e) m
        (λ hs f m'. collect_hosts-near ds hs out c h f m' p n)
    where
      at :
          (((is_passed_over cand sel d ≡ true)
              × (collect_hosts get_labels cand sel ds hosts ≡ some out))
            ⊎ ((g : String) × (is_passed_over cand sel d ≡ false)
                × (near d ≡ some g)
                × (collect_hosts get_labels cand sel ds (add_name g hosts) ≡ some out)))
          → Memᴰ c (d ∷ ds)
          → ((hs : List String)
              → collect_hosts get_labels cand sel ds hs ≡ some out
              → Memᴰ c ds
              → Holds h out)
          → Holds h out
      at (inl (b, f)) (Memᴰ.tail m) later = later hosts f m
      at (inr (g, b, q, f)) (Memᴰ.tail m) later = later (add_name g hosts) f m
      at (inl (b, f)) (Memᴰ.head i) later = absurd (cc (b, ap (is_passed_over cand sel) i, p))
      at (inr (g, b, q, f)) (Memᴰ.head i) later =
          collect_hosts-Holds ds (add_name g hosts) out h f (
            subst (λ x. Holds h (add_name x hosts)) (some_inj (sym n ∙ ap near i ∙ q))
              (add_name_self h hosts))

  -- The set before it is sorted, with what is known of it.
  unsorted :
      (node : String) (labels : Annotations) (cs : List NodeClaim) (out : List String)
      → excluded_hostnames get_labels cand sel node labels (some cs) ≡ some out
      → (hs : List String) × (collect_hosts get_labels cand sel cs (hostname_of node labels ∷ [])
          ≡ some hs)
        × (sort_names hs ≡ out)
  unfolding excluded_hostnames
  unsorted node labels cs out e =
      sorted (collect_hosts get_labels cand sel cs (hostname_of node labels ∷ [])) e
    where
      sorted :
          (o : Option (List String))
          → bind o (λ hs. some (sort_names hs)) ≡ some out
          → (hs : List String) × (o ≡ some hs) × (sort_names hs ≡ out)
      sorted none e = cc
      sorted (some hs) e = (hs, refl, some_inj e)

  Holds-sorted :
      (h : String) (hs out : List String) → sort_names hs ≡ out → Holds h hs → Holds h out
  Holds-sorted h hs out e k = subst (Holds h) e (any-sort_names (str_eq h) hs ∙ k)

  -- The hosts that a placeholder is to avoid, where they can be told, hold that of the candidate.
  pub excluded_hostnames-own :
      (node : String) (labels : Annotations) (cs : List NodeClaim) (out : List String)
      → excluded_hostnames get_labels cand sel node labels (some cs) ≡ some out
      → Holds (hostname_of node labels) out
  excluded_hostnames-own node labels cs out e =
      let (hs, p, q) = unsorted node labels cs out e in
      Holds-sorted (hostname_of node labels) hs out q (
        collect_hosts-Holds cs (hostname_of node labels ∷ []) hs (hostname_of node labels) p
          (add_name_self (hostname_of node labels) []))

  -- They also hold the host of each other claim of the pool that has a node and is triggered.
  pub excluded_hostnames-near :
      (node : String) (labels : Annotations) (cs : List NodeClaim) (out : List String)
      (c : NodeClaim) (h : String)
      → excluded_hostnames get_labels cand sel node labels (some cs) ≡ some out
      → Memᴰ c cs
      → is_passed_over cand sel c ≡ false
      → hostname c.node_name (get_labels c.node_name) ≡ some h
      → Holds h out
  excluded_hostnames-near node labels cs out c h e m p n =
      let (hs, i, q) = unsorted node labels cs out e in
      Holds-sorted h hs out q (collect_hosts-near cs (hostname_of node labels ∷ []) hs c h i m p n)

module _ ⦃q : Quantities⦄ where
  -- Where the Pod may be placed, for a creation that submits one.
  StaysIn : String → Option (PlaceholderPod ResourceList) → Annotations → Type 0
  StaysIn pool none labels = Unit
  StaysIn pool (some p) labels =
      admits p.affinity.required labels ≡ true → labels node_pool_label_key ≡ some pool

  module _ (s : Setup) (cand : Placeholder.Candidate) (status : Sizing.Candidate) where
    submit-StaysIn :
        (outcome : Submission) (node : HostView) (pods : List Pod) (excluded : List String)
        (labels : Annotations)
        → StaysIn s.pool.name (submit s outcome cand status node pods excluded).pod labels
    unfolding submit build_placeholder StaysIn
    submit-StaysIn submitted node pods excluded labels =
        λ a. ((node_affinity-admits_iff _ labels).0 a).0
    submit-StaysIn already_there node pods excluded labels =
        λ a. ((node_affinity-admits_iff _ labels).0 a).0
    submit-StaysIn rejected node pods excluded labels =
        λ a. ((node_affinity-admits_iff _ labels).0 a).0

    with_reads-StaysIn :
        (outcome : Submission) (node : Option (Option HostView)) (pods : Option (List Pod))
        (excluded : Option (List String)) (labels : Annotations)
        → StaysIn s.pool.name (with_reads s outcome cand status node pods excluded).pod labels
    unfolding StaysIn
    with_reads-StaysIn outcome none pods excluded labels = tt
    with_reads-StaysIn outcome (some none) pods excluded labels = tt
    with_reads-StaysIn outcome (some (some n)) none excluded labels = tt
    with_reads-StaysIn outcome (some (some n)) (some ps) none labels = tt
    with_reads-StaysIn outcome (some (some n)) (some ps) (some hs) labels =
        submit-StaysIn outcome n ps hs labels

    -- Whatever the reads give and however the create turns out, a Pod that is submitted may be
    -- placed on nodes of the pool alone.
    pub create_placeholder_pod-stays :
        (outcome : Submission) (reads : Reads) (p : PlaceholderPod ResourceList)
        (labels : Annotations)
        → (create_placeholder_pod s outcome cand status reads).pod ≡ some p
        → admits p.affinity.required labels ≡ true
        → labels node_pool_label_key ≡ some s.pool.name
    unfolding create_placeholder_pod StaysIn
    create_placeholder_pod-stays outcome reads p labels e a =
        subst (λ o. StaysIn s.pool.name o labels) e (whole (str_eq status.node_name "")) a
      where
        whole :
            (b : Bool)
            → StaysIn s.pool.name
                (if◌then◌else◌ {A = Creation} b
                  (record { good = true; pod = none; raised = [] })
                  (with_reads s outcome cand status reads.node reads.pods reads.excluded)).pod
                labels
        whole true = tt
        whole false = with_reads-StaysIn outcome reads.node reads.pods reads.excluded labels
