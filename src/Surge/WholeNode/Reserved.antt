-- ===== src/Surge/WholeNode/Reserved.antt =====
-- A whole-node placeholder takes all the CPU and all the memory that a fresh node provides.
use node_rotation_controller.Base.{
  ℕ, suc, ◌==◌, String, Bool, true, false, not, ◌≡◌, refl, sym, ap, ◌∙◌, subst, inl, inr, ◌⊎◌,
  Bool-cases, Option, none, some, List, [], ◌∷◌, ℤ, ltb_ℤ, eq_of_parts, str_eq, str_eq_iff, arith,
  if◌then◌else◌,
}
use node_rotation_controller.Surge.Quantity.{
  Quantities, ResourceList, exceeds, is_positive, lookup, set, amount, keys,
}
use node_rotation_controller.Surge.Quantity.Maps.{lookup-set, exceeds_irrefl}
use node_rotation_controller.Surge.Clamp.{provisionable_limit, clamp}
use node_rotation_controller.Surge.Clamp.Pointwise.{least, clamp-lookup}
use node_rotation_controller.Surge.WholeNode.{
  cpu, memory, wants_more, refusable, is_enough, raise_to, raise, raise_all, whole_node,
}

not_zero : (n : ℕ) → (suc n == 0) ≡ false
not_zero n = ground arith

antisymmetric : (a b : ℤ) → ltb_ℤ a b ≡ false → ltb_ℤ b a ≡ false → a ≡ b
antisymmetric a b p r = eq_of_parts a b (ground arith)

module _ ⦃q : Quantities⦄ where
  -- A write elsewhere keeps what there is.
  set_other :
      (k j : String) (x : q.Quantity) (out : ResourceList)
      → str_eq k j ≡ false
      → lookup j (set k x out) ≡ lookup j out
  set_other k j x out e = lookup-set k j x out ∙ ap (λ b. if b then some x else lookup j out) e

  refusable_other :
      (k j : String) (out allocatable : ResourceList)
      → str_eq k j ≡ false
      → lookup j (refusable out k allocatable) ≡ lookup j out
  unfolding refusable
  refusable_other k j out allocatable e = elim (Bool-cases (wants_more (lookup k out))) [
    | inl f ↦ rw f refl
    | inr f ↦ elim (Bool-cases (is_positive (amount k allocatable))) [
      | inl g ↦ rw (f, g) (set_other k j _ out e)
      | inr g ↦ rw (f, g) refl
    ]
  ]

  raise_to_other :
      (m : Bool) (k j : String) (out allocatable : ResourceList) (o : Option q.Quantity)
      → str_eq k j ≡ false
      → lookup j (raise_to m out k allocatable o) ≡ lookup j out
  raise_to_other m k j out allocatable none e = refl
  raise_to_other m k j out allocatable (some limit) e = elim (Bool-cases (is_positive limit)) [
    | inl f ↦ elim (Bool-cases (is_enough (lookup k out) limit)) [
      | inl g ↦ rw (f, g) refl
      | inr g ↦ rw (f, g) (set_other k j limit out e)
    ]
    | inr f ↦ rw f (optional m)
  ]
    where
      optional :
          (b : Bool) → lookup j (if b then refusable out k allocatable else out) ≡ lookup j out
      optional true = refusable_other k j out allocatable e
      optional false = refl

  -- A raise of a resource that can be provided gives it that much.
  raise_to_here :
      (m : Bool) (j : String) (out allocatable : ResourceList) (limit : q.Quantity)
      → is_positive limit ≡ true
      → is_enough (lookup j (raise_to m out j allocatable (some limit))) limit ≡ true
  raise_to_here m j out allocatable limit p = elim (Bool-cases (is_enough (lookup j out) limit)) [
    | inl g ↦ rw (p, g) g
    | inr g ↦ rw (p, g) (ap (λ o. is_enough o limit) here ∙ ap not (exceeds_irrefl limit))
  ]
    where
      here : lookup j (set j limit out) ≡ some limit
      here =
          lookup-set j j limit out
          ∙ ap (λ b. if b then some limit else lookup j out) ((str_eq_iff j j).1 refl)

  module _ (allocatable daemons : ResourceList) (j : String) (limit : q.Quantity)
      (known : provisionable_limit allocatable daemons j ≡ some limit)
      (p : is_positive limit ≡ true) where
    abbrev HasAll : ResourceList → Type 0
    HasAll out = is_enough (lookup j out) limit ≡ true

    raise_gives : (m : Bool) (out : ResourceList) → HasAll (raise m out j allocatable daemons)
    unfolding raise
    raise_gives m out =
        subst (λ o. is_enough (lookup j (raise_to m out j allocatable o)) limit ≡ true) (sym known)
          (raise_to_here m j out allocatable limit p)

    raise_keeps :
        (m : Bool) (k : String) (out : ResourceList)
        → HasAll out
        → HasAll (raise m out k allocatable daemons)
    unfolding raise
    raise_keeps m k out h = elim (Bool-cases (str_eq k j)) [
      | inl e ↦
          subst (λ i. HasAll (raise m out i allocatable daemons)) (sym ((str_eq_iff k j).0 e))
            (raise_gives m out)
      | inr e ↦ ap (λ o. is_enough o limit) (raise_to_other m k j out allocatable _ e) ∙ h
    ]

    raise_all_keeps :
        (ns : List String) (out : ResourceList)
        → HasAll out
        → HasAll (raise_all ns out allocatable daemons)
    raise_all_keeps [] out h = h
    raise_all_keeps (n ∷ ns) out h =
        raise_all_keeps ns (raise false out n allocatable daemons) (raise_keeps false n out h)

    pair_gives :
        (requests : ResourceList)
        → (j ≡ cpu) ⊎ (j ≡ memory)
        → HasAll
            (raise true (raise true requests cpu allocatable daemons) memory allocatable daemons)
    pair_gives requests (inl e) = raise_keeps true memory _ (
        subst (λ i. HasAll (raise true requests i allocatable daemons)) e
          (raise_gives true requests))
    pair_gives requests (inr e) =
        subst
          (λ i.
            HasAll (raise true (raise true requests cpu allocatable daemons) i allocatable daemons))
          e (raise_gives true _)

  -- A request is there, and is for as much as the limit.
  abbrev pub IsAll : q.Quantity → Option q.Quantity → Type 0
  IsAll limit none = true ≡ false
  IsAll limit (some x) = q.value x ≡ q.value limit

  -- What the clamp leaves of enough is the limit.
  least-IsAll :
      (limit : q.Quantity) (o : Option q.Quantity)
      → is_positive limit ≡ true
      → is_enough o limit ≡ true
      → IsAll limit (least o (some limit))
  unfolding exceeds
  least-IsAll limit none p h = sym h
  least-IsAll limit (some want) p h = elim (Bool-cases (exceeds want limit)) [
    | inl e ↦ rw (p, e) refl
    | inr e ↦ rw (p, e) (antisymmetric (q.value want) (q.value limit) (flip _ h) e)
  ]
    where
      flip : (b : Bool) → not b ≡ true → b ≡ false
      flip true u = cc
      flip false u = refl

  -- The raise of WholeNode, where a resource is known.
  whole_node_enough :
      (requests allocatable daemons : ResourceList) (pods : ℕ) (j : String) (limit : q.Quantity)
      → (j ≡ cpu) ⊎ (j ≡ memory)
      → provisionable_limit allocatable daemons j ≡ some limit
      → is_positive limit ≡ true
      → is_enough (lookup j (whole_node requests allocatable daemons (suc pods))) limit ≡ true
  unfolding whole_node provisionable_limit
  whole_node_enough requests [] daemons pods j limit w known p = cc
  whole_node_enough requests (a ∷ al) daemons pods j limit w known p = rw (not_zero pods) (
      raise_all_keeps (a ∷ al) daemons j limit known p (keys requests) _
        (pair_gives (a ∷ al) daemons j limit known p requests w))

-- A whole-node placeholder takes the whole node: where Pods must land again, the CPU or the memory
-- that a fresh node can provide is known and positive, and the clamp does not refuse, the clamped
-- requests ask for exactly that much of it.
pub whole_node-IsAll :
    ⦃q : Quantities⦄
    → (requests allocatable daemons : ResourceList) (pods : ℕ) (n : String) (limit : q.Quantity)
    → (n ≡ cpu) ⊎ (n ≡ memory)
    → provisionable_limit allocatable daemons n ≡ some limit
    → is_positive limit ≡ true
    → (clamp (whole_node requests allocatable daemons (suc pods)) allocatable daemons).refused
      ≡ false
    → IsAll limit (
        lookup n
          (clamp (whole_node requests allocatable daemons (suc pods)) allocatable daemons).requests)
whole_node-IsAll requests allocatable daemons pods n limit w known p h =
    subst (IsAll limit)
      (sym (
        (clamp-lookup (whole_node requests allocatable daemons (suc pods)) allocatable daemons n
          h).0
        ∙ ap (least (lookup n (whole_node requests allocatable daemons (suc pods)))) known))
      (least-IsAll limit _ p
        (whole_node_enough requests allocatable daemons pods n limit w known p))
