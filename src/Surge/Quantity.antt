-- ===== src/Surge/Quantity.antt =====
-- Amounts of resources, by resource name, and what the Pods of a node ask for:
-- internal/surge/requests.go and the sums of clamp.go. A resource.Quantity and the requests of
-- one Pod are Kubernetes'.

pub mod Maps
use node_rotation_controller.Base.{
  ℕ, String, Bool, true, false, not, ◌||◌, ◌≡◌, Option, none, some, List, [], ◌∷◌, map, ℤ, pos,
  ◌+ℤ◌, ltb_ℤ, leb_ℤ, str_eq, sort_names, if◌then◌else◌,
}
use node_rotation_controller.Surge.Pods.{Pod, reschedulable, is_daemon_set, is_completed}

-- resource.Quantity: an amount, exact, which Add, Sub and Cmp work on.
pub record Quantities : Type 1 where
  pub Quantity : Type 0
  pub value : Quantity → ℤ
  pub no_quantity : Quantity
  pub add : Quantity → Quantity → Quantity
  pub sub : Quantity → Quantity → Quantity
  pub value-no_quantity : value no_quantity ≡ pos 0
  pub value-add : (a b : Quantity) → value (add a b) ≡ value a +ℤ value b
  pub value-sub : (a b : Quantity) → value (sub a b) +ℤ value b ≡ value a

module _ ⦃q : Quantities⦄ where
  -- ResourceList, a map whose keys differ.
  abbrev pub ResourceList : Type 0
  ResourceList = List (String × q.Quantity)

  -- Cmp gives a positive number.
  unfoldable pub exceeds : q.Quantity → q.Quantity → Bool
  exceeds a b = ltb_ℤ (q.value b) (q.value a)

  -- Sign gives a positive number.
  unfoldable pub is_positive : q.Quantity → Bool
  is_positive a = ltb_ℤ (pos 0) (q.value a)

  unfoldable pub is_negative : q.Quantity → Bool
  is_negative a = ltb_ℤ (q.value a) (pos 0)

  abbrev pub lookup : String → ResourceList → Option q.Quantity
  lookup n [] = none
  lookup n ((k, x) ∷ l) = if str_eq k n then some x else lookup n l

  abbrev pub set : String → q.Quantity → ResourceList → ResourceList
  set n x [] = (n, x) ∷ []
  set n x ((k, y) ∷ l) = if str_eq k n then (n, x) ∷ l else (k, y) ∷ set n x l

  abbrev pub quantity_or_zero : Option q.Quantity → q.Quantity
  quantity_or_zero none = q.no_quantity
  quantity_or_zero (some x) = x

  -- An index of a map, with the zero value where there is none.
  abbrev pub amount : String → ResourceList → q.Quantity
  amount n l = quantity_or_zero (lookup n l)

  abbrev pub keys : ResourceList → List String
  keys l = map (λ e. e.0) l

  abbrev pub sorted_keys : ResourceList → List String
  sorted_keys l = sort_names (keys l)

  abbrev pub plus : Option q.Quantity → q.Quantity → q.Quantity
  plus none x = x
  plus (some c) x = q.add c x

  -- add
  unfoldable pub add_to : ResourceList → ResourceList → ResourceList
  add_to dst [] = dst
  add_to dst ((n, x) ∷ src) = add_to (set n (plus (lookup n dst) x) dst) src

  -- The sum over the Pods that pass a test.
  abbrev pub sum_of : (Pod → ResourceList) → (Pod → Bool) → List Pod → ResourceList → ResourceList
  sum_of requests f [] total = total
  sum_of requests f (p ∷ ps) total =
      sum_of requests f ps (if f p then add_to total (requests p) else total)

  -- ReschedulableRequests
  unfoldable pub reschedulable_requests : (Pod → ResourceList) → List Pod → String → ResourceList
  reschedulable_requests requests pods node = sum_of requests (λ p. reschedulable p node) pods []

  abbrev pub counts_as_daemon : String → Pod → Bool
  counts_as_daemon node p =
      not (not (str_eq p.node_name node) || not (is_daemon_set p) || is_completed p)

  -- DaemonSetRequests
  unfoldable pub daemon_set_requests : (Pod → ResourceList) → List Pod → String → ResourceList
  daemon_set_requests requests pods node = sum_of requests (counts_as_daemon node) pods []
