-- ===== src/Surge/Pods.antt =====
-- internal/surge/requests.go and census.go: which Pods of a node must land again. The keys and the
-- phases are Kubernetes'.
pub mod Partition
use node_rotation_controller.Base.{
  ℕ, suc, String, Bool, true, false, not, ◌&&◌, ◌||◌, Option, none, some, List, [], ◌∷◌, length,
  Annotations, has, str_eq, any, ◌==◌, ltb, if◌then◌else◌,
}

abbrev pub mirror_key : String
mirror_key = "kubernetes.io/config.mirror"

abbrev pub hostname_key : String
hostname_key = "kubernetes.io/hostname"

pub record Owner : Type 0 where
  pub controller : Option Bool
  pub kind : String

-- One expression of a node selector term.
pub record Requirement : Type 0 where
  pub key : String
  pub operator : String
  pub values : List String

pub record Pod : Type 0 where
  pub namespace : String
  pub name : String
  pub node_name : String
  pub owners : List Owner
  pub annotations : Annotations
  pub phase : String
  pub deleting : Bool
  pub node_selector : Annotations
  pub required_terms : Option (List (List Requirement))

unfoldable pub is_daemon_set : Pod → Bool
is_daemon_set p =
    any (λ o. (elim o.controller [ none ↦ false | some b ↦ b ]) && str_eq o.kind "DaemonSet")
      p.owners

unfoldable pub is_mirror : Pod → Bool
is_mirror p = has p.annotations mirror_key

unfoldable pub is_completed : Pod → Bool
is_completed p = str_eq p.phase "Succeeded" || str_eq p.phase "Failed"

unfoldable pub is_infra_or_completed : Pod → Bool
is_infra_or_completed p = is_daemon_set p || is_mirror p || is_completed p

abbrev insert_host : String → List String → List String
insert_host h hosts = if any (str_eq h) hosts then hosts else h ∷ hosts

abbrev insert_all : List String → List String → List String
insert_all [] hosts = hosts
insert_all (v ∷ vs) hosts = insert_all vs (insert_host v hosts)

abbrev bounds_host : Requirement → Bool
bounds_host e = str_eq e.key hostname_key && (str_eq e.operator "In" && ltb 0 (length e.values))

-- The hosts that the expressions of a term permit, put into `hosts`.
abbrev term_hosts : List Requirement → List String → List String
term_hosts [] hosts = hosts
term_hosts (e ∷ es) hosts =
    term_hosts es (if bounds_host e then insert_all e.values hosts else hosts)

-- `none` where a term lets the Pod run on another host.
abbrev permitted_hosts : List (List Requirement) → List String → Option (List String)
permitted_hosts [] hosts = some hosts
permitted_hosts (t ∷ ts) hosts =
    let later = permitted_hosts ts (term_hosts t hosts) in if any bounds_host t then later else none

abbrev only_host : String → Option (List String) → Bool
only_host node none = false
only_host node (some hosts) = (length hosts == 1) && any (str_eq node) hosts

abbrev pinned_by_terms : String → Option (List (List Requirement)) → Bool
pinned_by_terms node none = false
pinned_by_terms node (some []) = false
pinned_by_terms node (some (t ∷ ts)) = only_host node (permitted_hosts (t ∷ ts) [])

unfoldable pub is_node_pinned : Pod → String → Bool
is_node_pinned p node = elim (p.node_selector hostname_key) [
  | some v ↦ str_eq v node
  | none ↦ pinned_by_terms node p.required_terms
]

unfoldable pub reschedulable : Pod → String → Bool
reschedulable p node =
    if not (str_eq p.node_name node)
    then false
    else if is_infra_or_completed p || is_node_pinned p node
    then false
    else true

pub record PodCensus : Type 0 where
  pub counted : ℕ
  pub daemon_set : ℕ
  pub mirror : ℕ
  pub completed : ℕ
  pub node_pinned : ℕ

abbrev pub no_pods : PodCensus
no_pods = record { counted = 0; daemon_set = 0; mirror = 0; completed = 0; node_pinned = 0 }

abbrev pub count_pod : String → Pod → PodCensus → PodCensus
count_pod node p c =
    if not (str_eq p.node_name node)
    then c
    else if is_daemon_set p
    then record c { daemon_set = suc c.daemon_set }
    else if is_mirror p
    then record c { mirror = suc c.mirror }
    else if is_completed p
    then record c { completed = suc c.completed }
    else if is_node_pinned p node
    then record c { node_pinned = suc c.node_pinned }
    else record c { counted = suc c.counted }

-- The loop of CensusOnNode.
unfoldable pub census_of : List Pod → String → PodCensus → PodCensus
census_of [] node c = c
census_of (p ∷ ps) node c = census_of ps node (count_pod node p c)

unfoldable pub census_on_node : List Pod → String → PodCensus
census_on_node ps node = census_of ps node no_pods
