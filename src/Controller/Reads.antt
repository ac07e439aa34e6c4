-- ===== src/Controller/Reads.antt =====
-- What a pass reads through the cache, and what it takes from the policy and the schedule.
use node_rotation_controller.Base.{
  ℕ, ℤ, String, Bool, true, false, not, ◌&&◌, Option, none, some, List, [], ◌∷◌, ltb_ℤ, pos, Time,
  Duration, Annotations, get, str_eq, if◌then◌else◌,
}
use node_rotation_controller.Annotations.{TimeText, parse_time, started_at}
use node_rotation_controller.NodeOps.{Node}
use node_rotation_controller.Selection.{LeadTime}
use node_rotation_controller.Surge.Pods.{Pod, is_infra_or_completed}
use node_rotation_controller.Surge.Path.{host_path}
use node_rotation_controller.Controller.World.{NodeClaim}

-- A node's conditions, type and status, and the pool that its label names.
pub record HostNode : Type 0 where
  pub conditions : List (String × String)
  pub pool : String

-- The pool that the pass was handed, and the answers to its reads; the outer `none` is an error.
-- `version` is the pool's resourceVersion, `none` where it is known to be an old one. `reread`
-- answers the second read of the candidate, and `fits` the headroom check.
pub record Cache : Type 0 where
  pub pool : Annotations
  pub version : Option ℕ
  pub get_claim : String → Option (Option NodeClaim)
  pub reread : Option (Option NodeClaim)
  pub get_placeholder : String → Option (Option Pod)
  pub get_node : String → Option (Option HostNode)
  pub pool_claims : Option (List NodeClaim)
  pub surge_nodes : Option (List Node)
  pub pool_nodes : Option (List Node)
  pub all_pods : Option (List Pod)
  pub fits : Option Bool
  pub excluded_hosts : Option (List String)

-- What the handlers take from the pool's spec and its policy, and the schedule at this instant.
pub record Resolved : Type 0 where
  pub pool_name : String
  pub namespace : String
  pub placeholder_name : String → String
  pub static_pool : Bool
  pub fatal : Bool
  pub retry_backoff : Duration
  pub ready_timeout : Duration
  pub cooldown : Duration
  pub failure_pause : Duration
  pub drain_bound : Duration
  pub fallback_enabled : Bool
  pub in_window : Bool
  pub occurrence : Option (Time × Time)
  pub lead_time : LeadTime
  pub override : Option Duration
  pub drain_estimate : Option Duration
  pub provisioning_estimate : Option Duration
  pub chances : ℤ
  pub max_unavailable : ℤ

-- nodeReady: the first condition of type Ready decides.
unfoldable pub node_ready : List (String × String) → Bool
node_ready [] = false
node_ready ((kind, status) ∷ cs) =
    if str_eq kind "Ready" then str_eq status "True" else node_ready cs

abbrev host_of : Pod → NodeClaim → Option (Option HostNode) → String → Option (Option String)
host_of ph cand none pool = none
host_of ph cand (some none) pool = some none
host_of ph cand (some (some n)) pool = some (
    if not (node_ready n.conditions)
    then none
    else if not (str_eq n.pool pool)
    then none
    else some ph.node_name)

-- surgeReady: the host, where there is one; the outer `none` is an error.
unfoldable pub surge_ready : Cache → String → NodeClaim → Pod → Option (Option String)
surge_ready cache pool cand ph =
    if not (str_eq ph.phase "Running")
    then some none
    else if ph.deleting
    then some none
    else if str_eq ph.node_name ""
    then some none
    else if str_eq ph.node_name cand.node_name
    then some none
    else host_of ph cand (cache.get_node ph.node_name) pool

abbrev claim_on : String → List NodeClaim → String
claim_on node [] = ""
claim_on node (c ∷ cs) = if str_eq c.node_name node then c.name else claim_on node cs

-- claimForNode
unfoldable pub claim_for_node : Cache → String → Option String
claim_for_node cache node = elim cache.pool_claims [
  | none ↦ none
  | some cs ↦ some (claim_on node cs)
]

-- The loop of inducedClaim: the oldest claim that came after the start and has no node.
unfoldable pub oldest_new :
    String → Time → List NodeClaim → Option (String × Time) → Option (String × Time)
oldest_new cand started [] best = best
oldest_new cand started (c ∷ cs) best =
    let keep = oldest_new cand started cs best in
    let take = oldest_new cand started cs (some (c.name, c.created_at)) in
    if str_eq c.name cand
    then keep
    else if not (str_eq c.node_name "")
    then keep
    else if not (ltb_ℤ started c.created_at)
    then keep
    else elim best [ none ↦ take | some b ↦ if ltb_ℤ c.created_at b.1 then take else keep ]

abbrev name_of : Option (String × Time) → String
name_of none = ""
name_of (some b) = b.0

abbrev path_of : Option (Option NodeClaim) → Time → String
path_of none started = ""
path_of (some none) started = ""
path_of (some (some c)) started = host_path (some c.created_at) started

abbrev path_by_name : Cache → Time → Option String → String
path_by_name cache started none = ""
path_by_name cache started (some n) =
    if str_eq n "" then "" else path_of (cache.get_claim n) started

-- surgePathFor: an error leaves the path out.
unfoldable pub surge_path_for : Cache → String → Time → String
surge_path_for cache host started = path_by_name cache started (claim_for_node cache host)

-- hostsRealPods
unfoldable pub hosts_real_pods : List Pod → String → String → String → Bool
hosts_real_pods [] node ns placeholder = false
hosts_real_pods (p ∷ ps) node ns placeholder =
    let later = hosts_real_pods ps node ns placeholder in
    if not (str_eq p.node_name node)
    then later
    else if str_eq p.namespace ns && str_eq p.name placeholder
    then later
    else if is_infra_or_completed p
    then later
    else true

module _ ⦃text : TimeText⦄ where
  -- startedAt, _ := parseTime(s)
  abbrev pub time_or_zero : String → Time
  time_or_zero s = elim (parse_time s) [ none ↦ pos 0 | some t ↦ t ]

  abbrev new_claim : NodeClaim → Option Time → Option (List NodeClaim) → Option String
  new_claim cand none claims = some ""
  new_claim cand (some started) none = none
  new_claim cand (some started) (some cs) = some (name_of (oldest_new cand.name started cs none))

  abbrev bound_claim : Cache → Option (Option Pod) → Option String
  bound_claim cache none = none
  bound_claim cache (some none) = some ""
  bound_claim cache (some (some ph)) =
      if str_eq ph.node_name "" then some "" else claim_for_node cache ph.node_name

  -- inducedClaim
  unfoldable pub induced_claim : Cache → NodeClaim → Option String
  induced_claim cache cand = elim (bound_claim cache (cache.get_placeholder cand.name)) [
    | none ↦ none
    | some n ↦
        if not (str_eq n "")
        then some n
        else new_claim cand (parse_time (get cand.annotations started_at)) cache.pool_claims
  ]
