-- ===== src/Controller/PolicyStatus.antt =====
-- internal/controller/policystatus.go: the status of a RotationPolicy, as a view of the policies
-- and the pools. Kubernetes' SetStatusCondition and DeepEqual are parameters.
pub mod Settles
use node_rotation_controller.Base.{
  ℕ, suc, String, Bool, true, false, not, ◌&&◌, ◌||◌, Option, none, some, List, [], ◌∷◌, ◌++◌, map,
  length, Annotations, get, str_eq, any, sort_names, ◌==◌, ◌≡◌, if◌then◌else◌,
}
use node_rotation_controller.Annotations.{active_rotation}
use node_rotation_controller.Governing.{
  RotationPolicy, Selectors, Outcome, matched, no_match, conflict, governing,
}
use node_rotation_controller.Policy.{Policy, Formats, to_policy}
use node_rotation_controller.Window
use node_rotation_controller.Window.{Schedule}

-- Why a policy is in effect or not: the values that the message is rendered from.
pub data Verdict : Type 0 where
  invalid : Verdict
  tied : List String → List String → Verdict
  accepted : ℕ → Verdict

-- The Ready condition that is set.
pub record Ready : Type 0 where
  pub verdict : Verdict
  pub observed_generation : ℕ

-- A list of conditions, with meta.SetStatusCondition, which changes nothing where the condition is
-- there already, and the equality of equality.Semantic.DeepEqual.
pub record Conditions : Type 1 where
  pub List_of : Type 0
  pub set : List_of → Ready → List_of
  pub set_again : (cs : List_of) (c : Ready) → set (set cs c) c ≡ set cs c
  pub same : List_of → List_of → Bool
  pub same_self : (cs : List_of) → same cs cs ≡ true

pub record PoolView : Type 0 where
  pub name : String
  pub labels : Annotations
  pub annotations : Annotations

-- What the loop over the pools counts.
pub record Tally : Type 0 where
  pub matched_pools : ℕ
  pub rotating : ℕ
  pub conflicted : List String
  pub tied_names : List String

abbrev pub no_pools : Tally
no_pools = record { matched_pools = 0; rotating = 0; conflicted = []; tied_names = [] }

abbrev add_key : String → List String → List String
add_key n ns = if any (str_eq n) ns then ns else n ∷ ns

-- The others of a tie, put into the set.
abbrev add_others : String → List String → List String → List String
add_others self [] names = names
add_others self (n ∷ ns) names =
    add_others self ns (if str_eq n self then names else add_key n names)

abbrev pub count_pool : String → PoolView → Outcome → Tally → Tally
count_pool self pool no_match t = t
count_pool self pool (matched winner) t = if not (str_eq winner.name self) then t else record t {
  matched_pools = suc t.matched_pools;
  rotating =
      (if str_eq (get pool.annotations active_rotation) "" then t.rotating else suc t.rotating);
}
count_pool self pool (conflict names) t =
    if any (str_eq self) names
    then record t {
      conflicted = t.conflicted ++ (pool.name ∷ []);
      tied_names = add_others self names t.tied_names;
    }
    else t

abbrev pub verdict_of : Bool → Tally → Verdict
verdict_of false t = invalid
verdict_of true t = elim t.conflicted [
  | [] ↦ accepted t.matched_pools
  | n ∷ ns ↦ tied (sort_names t.tied_names) (sort_names t.conflicted)
]

module _ ⦃formats : Formats⦄ where
  abbrev has_schedule : Option Policy → Bool
  has_schedule none = false
  has_schedule (some p) = elim (Window.new p.maintenance_windows) [ none ↦ false | some s ↦ true ]

  -- The spec resolves, and its windows make a schedule.
  unfoldable pub resolves : RotationPolicy → Bool
  resolves target = has_schedule (to_policy target.spec)

module _ ⦃selectors : Selectors⦄ where
  unfoldable pub tally : String → List RotationPolicy → List PoolView → Tally → Tally
  tally self policies [] t = t
  tally self policies (p ∷ ps) t =
      tally self policies ps (count_pool self p (governing p.labels policies) t)

module _ ⦃conditions : Conditions⦄ where
  pub record Status : Type 0 where
    pub observed_generation : ℕ
    pub matched_node_pools : ℕ
    pub rotating_node_pools : ℕ
    pub condition_list : conditions.List_of

  -- A RotationPolicy with its generation and its status.
  pub record Target : Type 0 where
    pub policy : RotationPolicy
    pub generation : ℕ
    pub status : Status

  unfoldable pub compute_status :
      ⦃formats : Formats⦄
      → ⦃selectors : Selectors⦄ → Target
      → List RotationPolicy
      → List PoolView
      → Status
  compute_status target policies pools =
      let t = tally target.policy.name policies pools no_pools in
      record {
        observed_generation = target.generation;
        matched_node_pools = t.matched_pools;
        rotating_node_pools = t.rotating;
        condition_list = conditions.set target.status.condition_list (record {
          verdict = verdict_of (resolves target.policy) t;
          observed_generation = target.generation;
        });
      }

  abbrev same_status : Status → Status → Bool
  same_status a b =
      (a.observed_generation == b.observed_generation)
      && ((a.matched_node_pools == b.matched_node_pools)
          && ((a.rotating_node_pools == b.rotating_node_pools)
              && conditions.same a.condition_list b.condition_list))

  -- How the write of the status turns out, and what comes of the pass.
  pub data StatusWrite : Type 0 where
    lands conflicts breaks : StatusWrite

  pub data StatusPass : Type 0 where
    settled : StatusPass
    wrote_status : Status → StatusPass
    rechecks : StatusPass
    status_error : StatusPass

  abbrev after_write : StatusWrite → Status → StatusPass
  after_write lands s = wrote_status s
  after_write conflicts s = rechecks
  after_write breaks s = status_error

  abbrev write_if_new : StatusWrite → Status → Status → StatusPass
  write_if_new outcome have desired =
      if same_status have desired then settled else after_write outcome desired

  abbrev with_lists :
      ⦃formats : Formats⦄
      → ⦃selectors : Selectors⦄ → StatusWrite
      → Target
      → Option (List RotationPolicy)
      → Option (List PoolView)
      → StatusPass
  with_lists outcome t none pools = status_error
  with_lists outcome t (some ps) none = status_error
  with_lists outcome t (some ps) (some pools) =
      write_if_new outcome t.status (compute_status t ps pools)

  -- Reconcile of the status; the outer none is an error of the read, and the inner one a policy
  -- that is gone.
  unfoldable pub status_pass :
      ⦃formats : Formats⦄
      → ⦃selectors : Selectors⦄ → StatusWrite
      → Option (Option Target)
      → Option (List RotationPolicy)
      → Option (List PoolView)
      → StatusPass
  status_pass outcome none policies pools = status_error
  status_pass outcome (some none) policies pools = settled
  status_pass outcome (some (some t)) policies pools = with_lists outcome t policies pools
