-- ===== src/NodeOps/Ownership.antt =====
-- The ownership rules: an operator's protection and cordon survive a rotation.
use node_rotation_controller.Base.{
  String, ◌≡◌, ◌≢◌, true, false, none, Annotations, has, put, delete, refl, sym, Bool-cases, inl,
  inr, if◌then◌else◌,
}
use node_rotation_controller.Annotations.{surge_for, cordoned, do_not_disrupt_owned}
use node_rotation_controller.NodeOps.{
  do_not_disrupt, Node, operator_owns_do_not_disrupt, apply_freeze, apply_cordon, apply_unfreeze,
}
use node_rotation_controller.NodeOps.Writes.{
  with_annotations, apply_freeze-operator, apply_freeze-own, cordoned_by_operator,
  apply_cordon-skip, apply_cordon-put, uncordon, apply_unfreeze-disowned, apply_unfreeze-owned,
  restored, restored_cordon, owned_marks, unowned, restored_owned, restored_owned_cordon,
}

-- No marker of the controller stands on the node.
pub record IsUnmarked (n : Node) : Type 0 where
  pub no_surge_for : n.annotations surge_for ≡ none
  pub no_cordoned : n.annotations cordoned ≡ none
  pub no_owned : n.annotations do_not_disrupt_owned ≡ none

-- A node in a rotation, and after its clean-up.
abbrev pub protect : Node → String → Node
protect n claim_name = (apply_cordon (apply_freeze n claim_name).0).0

abbrev pub release : Node → Node
release n = (apply_unfreeze n).0

-- What the clean-up leaves of an annotation: a do-not-disrupt that protects nothing is dropped.
abbrev pub left_over : Node → Annotations
left_over n =
    if operator_owns_do_not_disrupt n then n.annotations else delete n.annotations do_not_disrupt

module _ (n : Node) (c : String) (h : c ≢ "") (u : IsUnmarked n) where
  not_cordoned : has n.annotations cordoned ≡ false
  not_cordoned = rw (u.no_cordoned, has)

  not_owned : has n.annotations do_not_disrupt_owned ≡ false
  not_owned = rw (u.no_owned, has)

  abbrev cordoned_node : Annotations → Node
  cordoned_node m = record n { annotations = put m cordoned "true"; unschedulable = true }

  round_operator_cordoned :
      operator_owns_do_not_disrupt n ≡ true
      → n.unschedulable ≡ true
      → release (protect n c)
        ≡ with_annotations n (delete (put n.annotations surge_for c) surge_for)
  unfolding cordoned_by_operator uncordon
  round_operator_cordoned o f =
      rw (apply_freeze-operator n c h o, protect)
        (rw
          (apply_cordon-skip (with_annotations n (put n.annotations surge_for c))
            (rw f (rw not_cordoned)))
          (rw
            (apply_unfreeze-disowned (with_annotations n (put n.annotations surge_for c)) not_owned)
            (rw not_cordoned)))

  round_operator :
      operator_owns_do_not_disrupt n ≡ true
      → n.unschedulable ≡ false
      → release (protect n c) ≡ record n {
        annotations =
            delete
              (delete (put (put n.annotations surge_for c) cordoned "true") surge_for)
              cordoned;
        unschedulable = false;
      }
  unfolding cordoned_by_operator uncordon
  round_operator o f =
      rw (apply_freeze-operator n c h o, protect)
        (rw (apply_cordon-put (with_annotations n (put n.annotations surge_for c)) (rw f)) (
          rw (apply_unfreeze-disowned (cordoned_node (put n.annotations surge_for c)) not_owned)
            refl))

  round_cordoned :
      operator_owns_do_not_disrupt n ≡ false
      → n.unschedulable ≡ true
      → release (protect n c) ≡ with_annotations n (unowned (owned_marks n.annotations c))
  unfolding cordoned_by_operator uncordon
  round_cordoned o f =
      rw (apply_freeze-own n c h o, protect)
        (rw
          (apply_cordon-skip (with_annotations n (owned_marks n.annotations c))
            (rw f (rw not_cordoned)))
          (rw (apply_unfreeze-owned (with_annotations n (owned_marks n.annotations c)) refl)
            (rw not_cordoned)))

  round_plain :
      operator_owns_do_not_disrupt n ≡ false
      → n.unschedulable ≡ false
      → release (protect n c) ≡ record n {
        annotations = delete (unowned (put (owned_marks n.annotations c) cordoned "true")) cordoned;
        unschedulable = false;
      }
  unfolding cordoned_by_operator uncordon
  round_plain o f =
      rw (apply_freeze-own n c h o, protect)
        (rw (apply_cordon-put (with_annotations n (owned_marks n.annotations c)) (rw f))
          (rw (apply_unfreeze-owned (cordoned_node (owned_marks n.annotations c)) refl) refl))

-- For a node that no rotation has marked, the clean-up after a freeze and a cordon gives back what
-- an operator had: the flag that forbids scheduling, and every annotation, but for a
-- do-not-disrupt whose value is not "true", which protects nothing and is dropped.
pub release-protect :
    (n : Node) (claim_name : String)
    → claim_name ≢ ""
    → IsUnmarked n
    → ((release (protect n claim_name)).unschedulable ≡ n.unschedulable)
      × ((j : String) → (release (protect n claim_name)).annotations j ≡ left_over n j)
release-protect n c h u = elim (Bool-cases (operator_owns_do_not_disrupt n)) [
  | inl o ↦ elim (Bool-cases n.unschedulable) [
    | inl f ↦
        rw (round_operator_cordoned n c h u o f) (refl, λ j. rw o (restored m c j u.no_surge_for))
    | inr f ↦
        rw (round_operator n c h u o f)
          (sym f, λ j. rw o (restored_cordon m c j u.no_surge_for u.no_cordoned))
  ]
  | inr o ↦ elim (Bool-cases n.unschedulable) [
    | inl f ↦
        rw (round_cordoned n c h u o f)
          (refl, λ j. rw o (restored_owned m c j u.no_surge_for u.no_owned))
    | inr f ↦
        rw (round_plain n c h u o f)
          (sym f, λ j. rw o (restored_owned_cordon m c j u.no_surge_for u.no_owned u.no_cordoned))
  ]
]
  where
    m : Annotations
    m = n.annotations
