-- ===== src/Examples/SurgeCases.antt =====
-- internal/surge at a node with a workload, a completed Pod and a Pod that is pinned to it.
use node_rotation_controller.Base.{
  false, ◌≡◌, refl, none, some, List, [], ◌∷◌, count_if, empty_map, put,
}
use node_rotation_controller.Surge.Pods.{
  Pod, hostname_key, is_daemon_set, is_mirror, is_completed, is_node_pinned, reschedulable,
  census_of, census_on_node,
}
use node_rotation_controller.Surge.Pods.Partition.{total, here, census_on_node-IsExact}

abbrev workload : Pod
workload = record {
  namespace = "default";
  name = "web";
  node_name = "node-a";
  owners = [];
  annotations = empty_map;
  phase = "Running";
  deleting = false;
  node_selector = empty_map;
  required_terms = none;
}

abbrev completed : Pod
completed = record workload { phase = "Succeeded" }

abbrev pinned : Pod
pinned = record workload { node_selector = put empty_map hostname_key "node-a" }

-- A term that allows two hosts pins nothing.
abbrev spread : Pod
spread = record workload {
  required_terms = some (
      (record { key = hostname_key; operator = "In"; values = "node-a" ∷ "node-b" ∷ [] } ∷ [])
      ∷ []);
}

abbrev pods : List Pod
pods = workload ∷ completed ∷ pinned ∷ spread ∷ []

counts :
    ((census_on_node pods "node-a").counted ≡ 2) × ((census_on_node pods "node-a").node_pinned ≡ 1)
unfolding census_on_node census_of is_daemon_set is_mirror is_completed is_node_pinned
counts = (refl, refl)

census_on_node-IsExact_example :
    (total (census_on_node pods "node-a") ≡ count_if (here "node-a") pods)
    × ((census_on_node pods "node-a").counted ≡ count_if (λ p. reschedulable p "node-a") pods)
census_on_node-IsExact_example = census_on_node-IsExact pods "node-a"
