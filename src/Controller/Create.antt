-- ===== src/Controller/Create.antt =====
-- excludedHostnames and createPlaceholder of rotation_controller.go: the Pod that a pass submits
-- for a claim, and what it announces of the clamp. The lines of the log are left out.
pub mod Avoids
use node_rotation_controller.Base.{
  String, Bool, true, false, not, Option, none, some, List, [], ◌∷◌, ◌++◌, Annotations, get, str_eq,
  any, sort_names, if◌then◌else◌,
}
use node_rotation_controller.Selection
use node_rotation_controller.Selection.{triggered}
use node_rotation_controller.Adapt.{claim_view}
use node_rotation_controller.Surge.Pods.{Pod, hostname_key}
use node_rotation_controller.Surge.Name.{Bytes}
use node_rotation_controller.Surge.Quantity.{Quantities, ResourceList}
use node_rotation_controller.Surge.Clamp.{ClampResult, band, exceeds_band}
use node_rotation_controller.Surge.Sizing
use node_rotation_controller.Surge.Sizing.{placeholder_sizing}
use node_rotation_controller.Surge.Placeholder
use node_rotation_controller.Surge.Placeholder.{
  PlaceholderPool, Match, PlaceholderInputs, PlaceholderPod, build_placeholder,
}
use node_rotation_controller.Controller.World.{NodeClaim}

-- hostnameOf
unfoldable pub hostname_of : String → Annotations → String
hostname_of name labels = let h = get labels hostname_key in if not (str_eq h "") then h else name

-- hostname, from the answer of getNode; the outer none is an error.
unfoldable pub hostname : String → Option (Option Annotations) → Option String
hostname node none = none
hostname node (some none) = some node
hostname node (some (some labels)) = some (hostname_of node labels)

-- A key put into a set of names.
abbrev pub add_name : String → List String → List String
add_name h hs = if any (str_eq h) hs then hs else h ∷ hs

abbrev pub bind {ℓ κ} : {A : Type ℓ} → {B : Type κ} → Option A → (A → Option B) → Option B
bind none f = none
bind (some a) f = f a

-- A claim that the loop of excludedHostnames passes over.
abbrev pub is_passed_over : String → Selection.Inputs → NodeClaim → Bool
is_passed_over cand sel c =
    if str_eq c.name cand
    then true
    else if str_eq c.node_name ""
    then true
    else not (triggered (claim_view c) sel)

module _ (get_labels : String → Option (Option Annotations)) (cand : String)
    (sel : Selection.Inputs) where
  -- The loop; the claims near their deadline put the hosts of their nodes into the set.
  abbrev pub collect_hosts : List NodeClaim → List String → Option (List String)
  collect_hosts [] hosts = some hosts
  collect_hosts (c ∷ cs) hosts =
      if is_passed_over cand sel c
      then collect_hosts cs hosts
      else bind (hostname c.node_name (get_labels c.node_name))
          (λ h. collect_hosts cs (add_name h hosts))

  -- excludedHostnames, from the name and the labels of the candidate's node.
  unfoldable pub excluded_hostnames :
      String → Annotations → Option (List NodeClaim) → Option (List String)
  excluded_hostnames node labels listed =
      bind listed
        (λ cs. bind (collect_hosts cs (hostname_of node labels ∷ [])) (λ hs. some (sort_names hs)))

-- How the create of the Pod turns out.
pub data Submission : Type 0 where
  submitted already_there rejected : Submission

module _ ⦃q : Quantities⦄ where
  -- The Events that createPlaceholder raises on the claim.
  pub data SurgeEvent : Type 0 where
    surge_clamp_refused : String → SurgeEvent
    surge_clamped : ResourceList → ResourceList → SurgeEvent
    surge_clamp_band_exceeded : String → ResourceList → SurgeEvent

  abbrev band_event : ResourceList → Option String → List SurgeEvent
  band_event allowed none = []
  band_event allowed (some over) = surge_clamp_band_exceeded over allowed ∷ []

  unfoldable pub surge_events : ClampResult → ResourceList → List SurgeEvent
  surge_events c allowed =
      if c.refused
      then surge_clamp_refused c.refused_resource ∷ []
      else if c.clamped
      then surge_clamped c.limit c.shortfall ∷ band_event allowed (exceeds_band c.shortfall allowed)
      else []

  pub record Setup : Type 1 where
    pub namespace : String
    pub priority_class_name : String
    pub image : String
    pub hash : Bytes → Bytes
    pub requests_of : Pod → ResourceList
    pub reserve_whole_node : Bool
    pub match : Match
    pub pool : PlaceholderPool
    pub events : Bool

  pub record HostView : Type 0 where
    pub labels : Annotations
    pub allocatable : ResourceList

  -- What the pass reads of the cluster; an outer none is an error.
  pub record Reads : Type 0 where
    pub node : Option (Option HostView)
    pub pods : Option (List Pod)
    pub excluded : Option (List String)

  -- The Pod that is submitted, where it comes to that, and the Events; good is that there was no
  -- error.
  pub record Creation : Type 0 where
    pub good : Bool
    pub pod : Option (PlaceholderPod ResourceList)
    pub raised : List SurgeEvent

  abbrev stops : Bool → Creation
  stops good = record { good = good; pod = none; raised = [] }

  abbrev pub inputs_of :
      Setup
      → Placeholder.Candidate
      → HostView
      → List String
      → ClampResult
      → PlaceholderInputs ResourceList
  inputs_of s cand node excluded c = record {
    candidate = cand;
    node_labels = node.labels;
    pool = s.pool;
    requests = c.requests;
    match = s.match;
    excluded_hostnames = excluded;
    priority_class_name = s.priority_class_name;
    image = s.image;
    namespace = s.namespace;
  }

  abbrev answered : Submission → Bool → PlaceholderPod ResourceList → List SurgeEvent → Creation
  answered submitted events pod raised = record {
    good = true;
    pod = some pod;
    raised = (if events then raised else []);
  }
  answered already_there events pod raised = record { good = true; pod = some pod; raised = [] }
  answered rejected events pod raised = record { good = false; pod = some pod; raised = [] }

  -- From the reads on.
  unfoldable pub submit :
      Setup
      → Submission
      → Placeholder.Candidate
      → Sizing.Candidate
      → HostView
      → List Pod
      → List String
      → Creation
  submit s outcome cand status node pods excluded =
      let c = (placeholder_sizing s.requests_of pods s.reserve_whole_node status).1 in
      answered outcome s.events (build_placeholder s.hash (inputs_of s cand node excluded c))
        (surge_events c (band node.allocatable status.allocatable))

  abbrev pub with_reads :
      Setup
      → Submission
      → Placeholder.Candidate
      → Sizing.Candidate
      → Option (Option HostView)
      → Option (List Pod)
      → Option (List String)
      → Creation
  with_reads s outcome cand status none pods excluded = stops false
  with_reads s outcome cand status (some none) pods excluded = stops true
  with_reads s outcome cand status (some (some node)) none excluded = stops false
  with_reads s outcome cand status (some (some node)) (some pods) none = stops false
  with_reads s outcome cand status (some (some node)) (some pods) (some hosts) =
      submit s outcome cand status node pods hosts

  -- createPlaceholder, from the claim: its name and requirements, and its status.
  unfoldable pub create_placeholder_pod :
      Setup → Submission → Placeholder.Candidate → Sizing.Candidate → Reads → Creation
  create_placeholder_pod s outcome cand status reads =
      if str_eq status.node_name ""
      then stops true
      else with_reads s outcome cand status reads.node reads.pods reads.excluded
