-- ===== src/Examples/SizingCases.antt =====
-- internal/surge: quantities that are integers, and a node with two CPUs.
use node_rotation_controller.Base.{
  empty_map, none, true, inl, String, true, false, ◌≡◌, ◌↔◌, refl, inl, some, [], ◌∷◌, ℤ, pos, ◌+ℤ◌,
  ◌-ℤ◌, sort_names, +ℤ_parts, -ℤ_parts, eq_of_parts, arith,
}
use node_rotation_controller.Surge.Quantity.{
  exceeds, is_positive, Quantities, ResourceList, lookup, add_to, reschedulable_requests,
  daemon_set_requests,
}
use node_rotation_controller.Surge.Clamp.{verdict, provisionable_limit, clamp_loop, clamp}
use node_rotation_controller.Surge.Clamp.Pointwise.{least, excess, clamp-lookup}
use node_rotation_controller.Surge.Clamp.Bounds.{IsProvided, clamp-refused_iff}
use node_rotation_controller.Surge.WholeNode.{cpu, raise, refusable, whole_node}
use node_rotation_controller.Surge.WholeNode.Reserved.{IsAll}
use node_rotation_controller.Surge.Headroom.{headroom}
use node_rotation_controller.Surge.Headroom.Fits.{is_fit, IsWithin, headroom-fit_iff}
use node_rotation_controller.Surge.Pods.{
  Pod, is_daemon_set, is_mirror, is_completed, is_infra_or_completed, is_node_pinned, reschedulable,
  census_of, census_on_node,
}
use node_rotation_controller.Surge.Sizing.{Candidate, placeholder_sizing}
use node_rotation_controller.Surge.Sizing.Whole.{placeholder_sizing-IsAll}

sub_plus : (a b : ℤ) → (a -ℤ b) +ℤ b ≡ a
sub_plus a b = eq_of_parts ((a -ℤ b) +ℤ b) a (omega (arith, +ℤ_parts (a -ℤ b) b, -ℤ_parts a b))

instance abbrev integers : Quantities
integers = record {
  Quantity = ℤ;
  value = λ z. z;
  no_quantity = pos 0;
  add = λ a b. a +ℤ b;
  sub = λ a b. a -ℤ b;
  value-no_quantity = refl;
  value-add = λ a b. refl;
  value-sub = sub_plus;
}

abbrev asked : ResourceList
asked = (cpu, pos 3) ∷ []

abbrev node : ResourceList
node = (cpu, pos 2) ∷ []

accepted : (clamp asked node []).refused ≡ false
unfolding clamp clamp_loop verdict provisionable_limit is_positive exceeds sort_names
accepted = refl

positive : is_positive (pos 2) ≡ true
unfolding is_positive
positive = refl

clamp-lookup_example :
    (lookup cpu (clamp asked node []).requests
      ≡ least (lookup cpu asked) (provisionable_limit node [] cpu))
    × (lookup cpu (clamp asked node []).shortfall
        ≡ excess (lookup cpu asked) (provisionable_limit node [] cpu))
clamp-lookup_example = clamp-lookup asked node [] cpu accepted

clamp-refused_iff_example :
    ((clamp asked node []).refused ≡ false)
    ↔ ((n : String) → IsProvided (lookup n asked) (provisionable_limit node [] n))
clamp-refused_iff_example = clamp-refused_iff asked node []

-- A Pod of a workload on the node, which asks for three CPUs.
abbrev worker : Pod
worker = record {
  namespace = "default";
  name = "worker";
  node_name = "node-a";
  owners = [];
  annotations = empty_map;
  phase = "Running";
  deleting = false;
  node_selector = empty_map;
  required_terms = none;
}

abbrev candidate : Candidate
candidate = record { node_name = "node-a"; allocatable = node }

abbrev requests_of : Pod → ResourceList
requests_of p = asked

counted_one : (census_on_node (worker ∷ []) "node-a").counted ≡ 1
unfolding census_on_node census_of is_daemon_set is_mirror is_completed is_node_pinned
counted_one = refl

no_daemons :
    provisionable_limit node (daemon_set_requests requests_of (worker ∷ []) "node-a") cpu
    ≡ some (pos 2)
unfolding provisionable_limit daemon_set_requests add_to is_daemon_set is_completed
no_daemons = refl

accepted_whole : (placeholder_sizing requests_of (worker ∷ []) true candidate).1.refused ≡ false
unfolding placeholder_sizing reschedulable_requests daemon_set_requests add_to reschedulable
    is_infra_or_completed is_mirror census_on_node census_of is_daemon_set is_completed
    is_node_pinned clamp clamp_loop verdict provisionable_limit is_positive exceeds sort_names
    whole_node raise refusable
accepted_whole = refl

placeholder_sizing-IsAll_example :
    IsAll
      (pos 2)
      (lookup cpu (placeholder_sizing requests_of (worker ∷ []) true candidate).1.requests)
placeholder_sizing-IsAll_example =
    placeholder_sizing-IsAll requests_of (worker ∷ []) candidate cpu (pos 2) 0 counted_one
      (inl refl) no_daemons positive accepted_whole

headroom-fit_iff_example :
    (is_fit (headroom node [] asked) ≡ true)
    ↔ ((n : String) → IsWithin (lookup n asked) (lookup n node) (lookup n []))
headroom-fit_iff_example = headroom-fit_iff node [] asked
