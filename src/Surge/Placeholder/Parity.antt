-- ===== src/Surge/Placeholder/Parity.antt =====
-- What the required node affinity of a placeholder asks of a node, for
-- internal/surge/placeholder.go: which node labels it admits, and that it never names a host.
use node_rotation_controller.Base.{
  String, Bool, true, false, ◌&&◌, ◌||◌, none, some, List, [], ◌∷◌, ◌≡◌, refl, sym, ap, ◌∙◌, subst,
  Annotations, str_eq, str_eq_iff, any, All, arith, ◌⊎◌, ◌↔◌, inl, inr, Option-cases, Bool-cases,
}
use node_rotation_controller.Surge.Pods.{Requirement, hostname_key}
use node_rotation_controller.Surge.Placeholder.{
  PlaceholderInputs, node_pool_label_key, candidate_values, allowed_values, keep_allowed,
  replicated_requirements, node_affinity, with_values, pool_allows,
}

-- Whether a node with these labels meets an In requirement, as the scheduler reads it.
abbrev pub meets : Annotations → Requirement → Bool
meets labels e =
    str_eq e.operator "In"
    && elim (labels e.key) [ none ↦ false | some v ↦ any (str_eq v) e.values ]

-- A term is met where all of its expressions are, and one term is enough.
abbrev pub meets_all : Annotations → List Requirement → Bool
meets_all labels [] = true
meets_all labels (e ∷ es) = meets labels e && meets_all labels es

abbrev pub admits : List (List Requirement) → Annotations → Bool
admits terms labels = any (meets_all labels) terms

and_parts : (a b : Bool) → a && b ≡ true → (a ≡ true) × (b ≡ true)
and_parts a b h = (ground arith, ground arith)

or_parts : (a b : Bool) → a || b ≡ false → (a ≡ false) × (b ≡ false)
or_parts a b h = (ground arith, ground arith)

or_false : (a : Bool) → a || false ≡ true → a ≡ true
or_false a h = ground arith

or_true : (a : Bool) → a ≡ true → a || false ≡ true
or_true a h = ground arith

-- The node has one of these values, where there are any.
abbrev pub HasOneOf : Annotations → String → List String → Type 0
HasOneOf labels key vs =
    (vs ≡ []) ⊎ ((w : String) × (labels key ≡ some w) × (any (str_eq w) vs ≡ true))

meets_all-with_values :
    (labels : Annotations) (key : String) (vs : List String) (out : List Requirement)
    → meets_all labels (with_values key vs out) ≡ true
    → HasOneOf labels key vs × (meets_all labels out ≡ true)
meets_all-with_values labels key [] out h = (inl refl, h)
meets_all-with_values labels key (v ∷ vs) out h = elim (Option-cases (labels key)) [
  | inl e ↦ absurd (let k = rw e at h in cc)
  | inr (w, e) ↦
      let k = rw e at h in
      (
        inr (w, e, (and_parts (any (str_eq w) (v ∷ vs)) (meets_all labels out) k).0),
        (and_parts (any (str_eq w) (v ∷ vs)) (meets_all labels out) k).1,
      )
]

with_values-meets_all :
    (labels : Annotations) (key : String) (vs : List String) (out : List Requirement)
    → HasOneOf labels key vs
    → meets_all labels out ≡ true
    → meets_all labels (with_values key vs out) ≡ true
with_values-meets_all labels key [] out s h = h
with_values-meets_all labels key (v ∷ vs) out (inl e) h = cc
with_values-meets_all labels key (v ∷ vs) out (inr (w, e, m)) h = rw (e, m) h

module _ {R : Type 0} where
  -- A key for which the NodePool allows none of the candidate's values asks for nothing. For any
  -- other, the node has one of those values.
  abbrev pub Shares : PlaceholderInputs R → Annotations → String → Type 0
  Shares i labels key = HasOneOf labels key (allowed_values i key)

  replicated_requirements-Shares :
      (i : PlaceholderInputs R) (keys : List String) (labels : Annotations)
      → meets_all labels (replicated_requirements i keys) ≡ true
      → All (Shares i labels) keys
  unfolding replicated_requirements
  replicated_requirements-Shares i [] labels h = tt
  replicated_requirements-Shares i (k ∷ ks) labels h =
      let (s, t) = meets_all-with_values labels k (allowed_values i k) _ h in
      (s, replicated_requirements-Shares i ks labels t)

  Shares-replicated_requirements :
      (i : PlaceholderInputs R) (keys : List String) (labels : Annotations)
      → All (Shares i labels) keys
      → meets_all labels (replicated_requirements i keys) ≡ true
  unfolding replicated_requirements
  Shares-replicated_requirements i [] labels h = refl
  Shares-replicated_requirements i (k ∷ ks) labels (s, t) =
      with_values-meets_all labels k (allowed_values i k) _ s
        (Shares-replicated_requirements i ks labels t)

HasOneOf-only :
    (labels : Annotations) (key value : String)
    → HasOneOf labels key (value ∷ [])
    → labels key ≡ some value
HasOneOf-only labels key value (inl e) = cc
HasOneOf-only labels key value (inr (w, e, m)) =
    e ∙ ap some ((str_eq_iff w value).0 (or_false (str_eq w value) m))

-- The required affinity of the placeholder admits the nodes of the candidate's NodePool that have,
-- for each key that the policy requires, one of the candidate's values that the NodePool allows;
-- a key with no such value asks for nothing. It admits no other node.
pub node_affinity-admits_iff :
    {R : Type 0} (i : PlaceholderInputs R) (labels : Annotations)
    → (admits (node_affinity i).required labels ≡ true)
      ↔ ((labels node_pool_label_key ≡ some i.pool.name) × All (Shares i labels) i.match.required)
unfolding node_affinity
node_affinity-admits_iff i labels = (
  λ h.
      let (p, s) =
        meets_all-with_values labels node_pool_label_key (i.pool.name ∷ [])
          (replicated_requirements i i.match.required) (or_false _ h) in
      (
        HasOneOf-only labels node_pool_label_key i.pool.name p,
        replicated_requirements-Shares i i.match.required labels s,
      ),
  λ h. or_true _ (
      with_values-meets_all labels node_pool_label_key (i.pool.name ∷ [])
        (replicated_requirements i i.match.required)
        (inr (i.pool.name, h.0, or_true _ ((str_eq_iff i.pool.name i.pool.name).1 refl)))
        (Shares-replicated_requirements i i.match.required labels h.1)),
)

candidate_values-label :
    {R : Type 0} (i : PlaceholderInputs R) (key value : String)
    → i.node_labels key ≡ some value
    → candidate_values i key ≡ value ∷ []
unfolding candidate_values
candidate_values-label i key value n = rw (n, candidate_values) refl

allowed_values-label :
    {R : Type 0} (i : PlaceholderInputs R) (key value : String)
    → i.node_labels key ≡ some value
    → pool_allows i.pool.requirements key value ≡ true
    → allowed_values i key ≡ value ∷ []
allowed_values-label i key value n a =
    ap (keep_allowed i.pool.requirements key) (candidate_values-label i key value n) ∙ rw a refl

All-any :
    (P : String → Type 0) (key : String) (keys : List String)
    → All P keys
    → any (str_eq key) keys ≡ true
    → P key
All-any P key [] h m = cc
All-any P key (k ∷ ks) h m = elim (Bool-cases (str_eq key k)) [
  | inl e ↦ subst P (sym ((str_eq_iff key k).0 e)) h.0
  | inr e ↦ All-any P key ks h.1 (sym (ap (λ b. b || any (str_eq key) ks) e) ∙ m)
]

-- A required key that the candidate node has as a label, with a value that the NodePool allows:
-- every node that the placeholder's required affinity admits has the same value.
pub node_affinity-parity :
    {R : Type 0} (i : PlaceholderInputs R) (labels : Annotations) (key value : String)
    → any (str_eq key) i.match.required ≡ true
    → i.node_labels key ≡ some value
    → pool_allows i.pool.requirements key value ≡ true
    → admits (node_affinity i).required labels ≡ true
    → labels key ≡ some value
node_affinity-parity i labels key value m n a h = HasOneOf-only labels key value (
    subst (HasOneOf labels key) (allowed_values-label i key value n a) (
      All-any (Shares i labels) key i.match.required ((node_affinity-admits_iff i labels).0 h).1 m))

abbrev pub names_host : Requirement → Bool
names_host e = str_eq e.key hostname_key

names_host-with_values :
    (key : String) (vs : List String) (out : List Requirement)
    → str_eq key hostname_key ≡ false
    → any names_host out ≡ false
    → any names_host (with_values key vs out) ≡ false
names_host-with_values key [] out k h = h
names_host-with_values key (v ∷ vs) out k h = rw (k, h) refl

names_host-replicated_requirements :
    {R : Type 0} (i : PlaceholderInputs R) (keys : List String)
    → any (λ k. str_eq k hostname_key) keys ≡ false
    → any names_host (replicated_requirements i keys) ≡ false
unfolding replicated_requirements
names_host-replicated_requirements i [] h = refl
names_host-replicated_requirements i (k ∷ ks) h =
    let (p, q) = or_parts (str_eq k hostname_key) _ h in
    names_host-with_values k (allowed_values i k) _ p (names_host-replicated_requirements i ks q)

-- The placeholder requires no host by its name, where the policy does not ask for the key of host
-- names to be replicated.
pub node_affinity-names_host :
    {R : Type 0} (i : PlaceholderInputs R)
    → any (λ k. str_eq k hostname_key) i.match.required ≡ false
    → any (any names_host) (node_affinity i).required ≡ false
unfolding node_affinity
node_affinity-names_host i h = rw (names_host-replicated_requirements i i.match.required h) refl
