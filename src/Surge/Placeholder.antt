-- ===== src/Surge/Placeholder.antt =====
-- internal/surge/placeholder.go: the placeholder Pod of an attempt. Its requests are of any type;
-- the hash in its name is a parameter, as in Name.antt. The operators are Kubernetes' and
-- Karpenter's, and strconv.ParseInt with base 10 and 64 bits reads what strconv.Atoi reads.
pub mod Parity
use node_rotation_controller.Base.{
  ℕ, String, Bool, true, false, not, Option, none, some, List, [], ◌∷◌, ◌++◌, map, Annotations, get,
  has, put, empty_map, str_eq, any, codes, ℤ, ltb_ℤ, leb_ℤ, atoi, if◌then◌else◌,
}
use node_rotation_controller.Annotations.{surge_for}
use node_rotation_controller.Surge.Pods.{Requirement, hostname_key}
use node_rotation_controller.Surge.Name.{Bytes, placeholder_name}

abbrev pub placeholder_container_name : String
placeholder_container_name = "pause"

abbrev pub hostname_exclusion_weight : ℕ
hostname_exclusion_weight = 100

abbrev pub node_pool_label_key : String
node_pool_label_key = "karpenter.sh/nodepool"

abbrev pub do_not_disrupt_annotation_key : String
do_not_disrupt_annotation_key = "karpenter.sh/do-not-disrupt"

pub record Taint : Type 0 where
  pub key : String
  pub value : String
  pub effect : String

pub record Toleration : Type 0 where
  pub key : String
  pub operator : String
  pub value : String
  pub effect : String

-- The candidate's claim and its NodePool, as far as the placeholder depends on them.
pub record Candidate : Type 0 where
  pub name : String
  pub requirements : List Requirement

pub record PlaceholderPool : Type 0 where
  pub name : String
  pub taints : List Taint
  pub requirements : List Requirement

pub record Match : Type 0 where
  pub required : List String
  pub preferred : List String

pub record PlaceholderInputs (R : Type 0) : Type 0 where
  pub candidate : Candidate
  pub node_labels : Annotations
  pub pool : PlaceholderPool
  pub requests : R
  pub match : Match
  pub excluded_hostnames : List String
  pub priority_class_name : String
  pub image : String
  pub namespace : String

pub record PreferredTerm : Type 0 where
  pub weight : ℕ
  pub preference : List Requirement

-- The terms that are required are alternatives, the expressions of each hold together.
pub record NodeAffinity : Type 0 where
  pub required : List (List Requirement)
  pub preferred : List PreferredTerm

pub record Container (R : Type 0) : Type 0 where
  pub name : String
  pub image : String
  pub requests : R

pub record PlaceholderPod (R : Type 0) : Type 0 where
  pub name : Bytes
  pub namespace : String
  pub labels : Annotations
  pub annotations : Annotations
  pub priority_class_name : String
  pub preemption_policy : String
  pub automount_service_account_token : Bool
  pub tolerations : List Toleration
  pub containers : List (Container R)
  pub affinity : NodeAffinity

unfoldable pub pool_tolerations : List Taint → List Toleration
pool_tolerations [] = []
pool_tolerations (t ∷ ts) =
    record { key = t.key; operator = "Equal"; value = t.value; effect = t.effect }
    ∷ pool_tolerations ts

-- got is the node's value, bound the one of the requirement.
abbrev compare_numeric : String → Option ℤ → Option ℤ → Bool
compare_numeric op none got = false
compare_numeric op (some bound) none = false
compare_numeric op (some bound) (some got) =
    if str_eq op "Gt"
    then ltb_ℤ bound got
    else if str_eq op "Gte"
    then leb_ℤ bound got
    else if str_eq op "Lt"
    then ltb_ℤ got bound
    else if str_eq op "Lte"
    then leb_ℤ got bound
    else false

unfoldable pub numeric_permits : String → List String → String → Bool
numeric_permits op [] value = false
numeric_permits op (b ∷ []) value = compare_numeric op (atoi b) (atoi value)
numeric_permits op (b ∷ c ∷ bs) value = false

abbrev is_numeric : String → Bool
is_numeric op = any (str_eq op) ("Gt" ∷ "Lt" ∷ "Gte" ∷ "Lte" ∷ [])

unfoldable pub requirement_permits : String → List String → String → Bool
requirement_permits op values value =
    if str_eq op "In"
    then any (str_eq value) values
    else if str_eq op "NotIn"
    then not (any (str_eq value) values)
    else if str_eq op "Exists"
    then true
    else if str_eq op "DoesNotExist"
    then false
    else if is_numeric op
    then numeric_permits op values value
    else false

-- poolAllows, on the requirements of the NodePool's template.
unfoldable pub pool_allows : List Requirement → String → String → Bool
pool_allows [] key value = true
pool_allows (r ∷ rs) key value =
    let rest = pool_allows rs key value in
    if not (str_eq r.key key)
    then rest
    else if not (requirement_permits r.operator r.values value)
    then false
    else rest

-- The values that the claim's own In requirements give for a key.
abbrev claim_values : List Requirement → String → List String
claim_values [] key = []
claim_values (r ∷ rs) key =
    let rest = claim_values rs key in
    if str_eq r.key key then (if str_eq r.operator "In" then r.values ++ rest else rest) else rest

-- Those of the values that the NodePool allows.
abbrev pub keep_allowed : List Requirement → String → List String → List String
keep_allowed rs key [] = []
keep_allowed rs key (v ∷ vs) =
    let rest = keep_allowed rs key vs in if pool_allows rs key v then v ∷ rest else rest

abbrev pub with_values : String → List String → List Requirement → List Requirement
with_values key [] out = out
with_values key (v ∷ vs) out = record { key = key; operator = "In"; values = v ∷ vs } ∷ out

abbrev pub prefer : Requirement → PreferredTerm
prefer e = record { weight = 1; preference = e ∷ [] }

abbrev pub avoid_hosts : List String → List PreferredTerm → List PreferredTerm
avoid_hosts [] terms = terms
avoid_hosts (h ∷ hs) terms =
    record {
      weight = hostname_exclusion_weight;
      preference = record { key = hostname_key; operator = "NotIn"; values = h ∷ hs } ∷ [];
    }
    ∷ terms

module _ {R : Type 0} where
  unfoldable pub candidate_values : PlaceholderInputs R → String → List String
  candidate_values i key = elim (i.node_labels key) [
    | some value ↦ value ∷ []
    | none ↦ claim_values i.candidate.requirements key
  ]

  abbrev pub allowed_values : PlaceholderInputs R → String → List String
  allowed_values i key = keep_allowed i.pool.requirements key (candidate_values i key)

  unfoldable pub replicated_requirements : PlaceholderInputs R → List String → List Requirement
  replicated_requirements i [] = []
  replicated_requirements i (key ∷ keys) =
      with_values key (allowed_values i key) (replicated_requirements i keys)

  unfoldable pub node_affinity : PlaceholderInputs R → NodeAffinity
  node_affinity i = record {
    required =
        (record { key = node_pool_label_key; operator = "In"; values = i.pool.name ∷ [] }
          ∷ replicated_requirements i i.match.required)
        ∷ [];
    preferred =
        avoid_hosts i.excluded_hostnames (map prefer (replicated_requirements i i.match.preferred));
  }

  unfoldable pub build_placeholder : (Bytes → Bytes) → PlaceholderInputs R → PlaceholderPod R
  build_placeholder hash i = record {
    name = placeholder_name hash (codes i.candidate.name);
    namespace = i.namespace;
    labels = put (put empty_map surge_for i.candidate.name) node_pool_label_key i.pool.name;
    annotations = put empty_map do_not_disrupt_annotation_key "true";
    priority_class_name = i.priority_class_name;
    preemption_policy = "Never";
    automount_service_account_token = false;
    tolerations = pool_tolerations i.pool.taints;
    containers =
        record { name = placeholder_container_name; image = i.image; requests = i.requests } ∷ [];
    affinity = node_affinity i;
  }
