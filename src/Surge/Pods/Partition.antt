-- ===== src/Surge/Pods/Partition.antt =====
-- internal/surge/census.go: the buckets of CensusOnNode.
use node_rotation_controller.Base.{
  ℕ, ◌+◌, String, Bool, ◌≡◌, arith, List, [], ◌∷◌, count_if, str_eq, if◌then◌else◌,
}
use node_rotation_controller.Surge.Pods.{
  Pod, is_infra_or_completed, reschedulable, PodCensus, count_pod, no_pods, census_of,
  census_on_node,
}

abbrev pub total : PodCensus → ℕ
total c = c.counted + c.daemon_set + c.mirror + c.completed + c.node_pinned

abbrev pub here : String → Pod → Bool
here node p = str_eq p.node_name node

abbrev one_if : Bool → ℕ
one_if b = if b then 1 else 0

count_if-cons {ℓ} :
    {A : Type ℓ} (f : A → Bool) (x : A) (xs : List A)
    → count_if f (x ∷ xs) ≡ one_if (f x) + count_if f xs
count_if-cons f x xs = ground arith

module _ (node : String) where
  count_pod-total :
      (p : Pod) (c : PodCensus) → total (count_pod node p c) ≡ total c + one_if (here node p)
  count_pod-total p c = ground arith

  count_pod-counted :
      (p : Pod) (c : PodCensus)
      → (count_pod node p c).counted ≡ c.counted + one_if (reschedulable p node)
  unfolding reschedulable is_infra_or_completed
  count_pod-counted p c = ground arith

  census_of-total :
      (ps : List Pod) (c : PodCensus)
      → total (census_of ps node c) ≡ total c + count_if (here node) ps
  unfolding census_of
  census_of-total [] c = omega arith
  census_of-total (p ∷ ps) c = omega (
    arith,
    census_of-total ps (count_pod node p c),
    count_pod-total p c,
    count_if-cons (here node) p ps,
  )

  census_of-counted :
      (ps : List Pod) (c : PodCensus)
      → (census_of ps node c).counted ≡ c.counted + count_if (λ p. reschedulable p node) ps
  unfolding census_of
  census_of-counted [] c = omega arith
  census_of-counted (p ∷ ps) c = omega (
    arith,
    census_of-counted ps (count_pod node p c),
    count_pod-counted p c,
    count_if-cons (λ q. reschedulable q node) p ps,
  )

-- The census of a node puts each Pod on it, and no other, in one bucket, and it counts just the
-- Pods whose requests size the placeholder.
pub census_on_node-IsExact :
    (ps : List Pod) (node : String)
    → (total (census_on_node ps node) ≡ count_if (here node) ps)
      × ((census_on_node ps node).counted ≡ count_if (λ p. reschedulable p node) ps)
unfolding census_on_node
census_on_node-IsExact ps node = (
  omega (arith, census_of-total node ps no_pods),
  omega (arith, census_of-counted node ps no_pods),
)
