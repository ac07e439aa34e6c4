-- ===== src/Examples/StatusCases.antt =====
-- internal/controller/policystatus.go: conditions as a list of all that were set, and two policies.
use node_rotation_controller.Base.{◌≡◌, refl, not, ◌&&◌, true, some, List, [], ◌∷◌, any, empty_map}
use node_rotation_controller.Controller.PolicyStatus.{
  Ready, Conditions, PoolView, no_pools, verdict_of, resolves, tally, Target, conflicts,
  status_pass, settled,
}
use node_rotation_controller.Controller.PolicyStatus.Settles.{
  rewritten, status_pass-settles, is_ready, ties, verdict_of-ready_iff,
}
use node_rotation_controller.Examples.PolicyCases.{
  formats, selectors, policy_named, policies, team_pool,
}

-- One condition at most.
instance abbrev latest : Conditions
latest = record {
  List_of = List Ready;
  set = λ cs c. c ∷ [];
  set_again = λ cs c. refl;
  same = λ a b. true;
  same_self = λ cs. refl;
}

abbrev pools : List PoolView
pools = record { name = "pool-a"; labels = team_pool; annotations = empty_map } ∷ []

abbrev target : Target
target = record {
  policy = policy_named "wide" [];
  generation = 2;
  status = record {
    observed_generation = 1;
    matched_node_pools = 0;
    rotating_node_pools = 0;
    condition_list = [];
  };
}

status_pass-settles_example :
    status_pass conflicts
      (some (some (rewritten target policies pools)))
      (some policies)
      (some pools)
    ≡ settled
status_pass-settles_example = status_pass-settles target policies pools conflicts

verdict_of-ready_iff_example :
    is_ready (verdict_of (resolves (policy_named "wide" [])) (tally "wide" policies pools no_pools))
    ≡ resolves (policy_named "wide" []) && not (any (ties "wide" policies) pools)
verdict_of-ready_iff_example = verdict_of-ready_iff (policy_named "wide" []) policies pools
