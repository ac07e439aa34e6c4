-- ===== src/NodeOps/Writes.antt =====
-- The mutators of a node in plain writes and deletes of its annotations.
use node_rotation_controller.Base.{
  String, ◌≡◌, ◌≢◌, Bool, true, false, not, ◌&&◌, arith, none, some, Annotations, get, has, put,
  delete, str_eq, str_eq_iff, sym, ap, ◌∙◌, fun_ext, Bool-cases, Option-cases, inl, inr,
  if◌then◌else◌,
}
use node_rotation_controller.Annotations.{surge_for, cordoned, do_not_disrupt_owned}
use node_rotation_controller.NodeOps.{
  do_not_disrupt, Node, set_annotation, remove_annotation, operator_owns_do_not_disrupt,
  apply_freeze, apply_cordon, apply_uncordon, apply_unfreeze,
}

-- Writing an annotation that is there already, and deleting one that is not, change nothing.
pub put_same : (m : Annotations) (k v j : String) → m k ≡ some v → put m k v j ≡ m j
put_same m k v j h = elim (Bool-cases (str_eq k j)) [
  | inl e ↦ rw e (sym h ∙ ap m ((str_eq_iff k j).0 e))
  | inr e ↦ rw e
]

pub delete_absent : (m : Annotations) (k j : String) → m k ≡ none → delete m k j ≡ m j
delete_absent m k j h = elim (Bool-cases (str_eq k j)) [
  | inl e ↦ rw e (sym h ∙ ap m ((str_eq_iff k j).0 e))
  | inr e ↦ rw e
]

abbrev pub with_annotations : Node → Annotations → Node
with_annotations n m = record n { annotations = m }

pub get→some : (m : Annotations) (k v : String) → v ≢ "" → get m k ≡ v → m k ≡ some v
get→some m k v h e = elim (Option-cases (m k)) [
  | inl p ↦ absurd (h (sym e ∙ rw (p, get)))
  | inr (w, p) ↦ p ∙ ap some (rw (p, get) at e)
]

pub has→none : (m : Annotations) (k : String) → has m k ≡ false → m k ≡ none
has→none m k h = ground arith

pub true_ne : ◌≢◌ {A = String} "true" ""
true_ne e = cc

pub set_annotation-put :
    (n : Node) (k v : String)
    → v ≢ ""
    → (set_annotation n k v).0 ≡ with_annotations n (put n.annotations k v)
unfolding set_annotation
set_annotation-put n k v h = elim (Bool-cases (str_eq (get n.annotations k) v)) [
  | inl e ↦ rw e (
      ap (with_annotations n) (
        sym (
          fun_ext (λ j.
            put_same n.annotations k v j (get→some n.annotations k v h ((str_eq_iff _ _).0 e))))))
  | inr e ↦ rw e
]

pub remove_annotation-delete :
    (n : Node) (k : String)
    → (remove_annotation n k).0 ≡ with_annotations n (delete n.annotations k)
unfolding remove_annotation
remove_annotation-delete n k = elim (Bool-cases (has n.annotations k)) [
  | inl e ↦ rw e
  | inr e ↦ rw e (
      ap (with_annotations n)
        (sym (fun_ext (λ j. delete_absent n.annotations k j (has→none n.annotations k e)))))
]

-- What each mutator makes of a node, in plain writes.
pub apply_freeze-operator :
    (n : Node) (c : String)
    → c ≢ ""
    → operator_owns_do_not_disrupt n ≡ true
    → (apply_freeze n c).0 ≡ with_annotations n (put n.annotations surge_for c)
unfolding apply_freeze
apply_freeze-operator n c h o = rw o (set_annotation-put n surge_for c h)

pub apply_freeze-own :
    (n : Node) (c : String)
    → c ≢ ""
    → operator_owns_do_not_disrupt n ≡ false
    → (apply_freeze n c).0
      ≡ with_annotations n (
          put
            (put (put n.annotations do_not_disrupt "true") do_not_disrupt_owned "true")
            surge_for
            c)
unfolding apply_freeze
apply_freeze-own n c h o = rw o (
    rw (set_annotation-put n do_not_disrupt "true" true_ne) (
      rw
        (set_annotation-put (with_annotations n (put n.annotations do_not_disrupt "true"))
          do_not_disrupt_owned "true" true_ne)
        (set_annotation-put _ surge_for c h)))

unfoldable pub cordoned_by_operator : Node → Bool
cordoned_by_operator n = n.unschedulable && not (has n.annotations cordoned)

pub apply_cordon-skip : (n : Node) → cordoned_by_operator n ≡ true → (apply_cordon n).0 ≡ n
unfolding apply_cordon cordoned_by_operator
apply_cordon-skip n g = rw g

pub apply_cordon-put :
    (n : Node)
    → cordoned_by_operator n ≡ false
    → (apply_cordon n).0
      ≡ record n { annotations = put n.annotations cordoned "true"; unschedulable = true }
unfolding apply_cordon cordoned_by_operator
apply_cordon-put n g =
    rw g (set_annotation-put (record n { unschedulable = true }) cordoned "true" true_ne)

unfoldable pub uncordon : Node → Node
uncordon n =
    if has n.annotations cordoned
    then record n { annotations = delete n.annotations cordoned; unschedulable = false }
    else n

pub apply_uncordon-eq : (n : Node) → (apply_uncordon n).0 ≡ uncordon n
unfolding apply_uncordon uncordon
apply_uncordon-eq n = elim (Bool-cases (has n.annotations cordoned)) [
  | inl e ↦ rw e (rw (remove_annotation-delete n cordoned))
  | inr e ↦ rw e
]

pub apply_unfreeze-disowned :
    (n : Node)
    → has (delete n.annotations surge_for) do_not_disrupt_owned ≡ false
    → (apply_unfreeze n).0 ≡ uncordon (with_annotations n (delete n.annotations surge_for))
unfolding apply_unfreeze
apply_unfreeze-disowned n h = rw (remove_annotation-delete n surge_for) (rw h (apply_uncordon-eq _))

pub apply_unfreeze-owned :
    (n : Node)
    → has (delete n.annotations surge_for) do_not_disrupt_owned ≡ true
    → (apply_unfreeze n).0
      ≡ uncordon (
          with_annotations n
            (delete (delete (delete n.annotations surge_for) do_not_disrupt) do_not_disrupt_owned))
unfolding apply_unfreeze
apply_unfreeze-owned n h = rw (remove_annotation-delete n surge_for) (
    rw h (
      rw
        (remove_annotation-delete (with_annotations n (delete n.annotations surge_for))
          do_not_disrupt)
        (rw
          (remove_annotation-delete
            (with_annotations n (delete (delete n.annotations surge_for) do_not_disrupt))
            do_not_disrupt_owned)
          (apply_uncordon-eq _))))

-- The maps that the clean-up comes back to.
pub restored :
    (m : Annotations) (c j : String)
    → m surge_for ≡ none
    → delete (put m surge_for c) surge_for j ≡ m j
restored m c j h = ground (arith, str_eq_iff surge_for j)

pub restored_cordon :
    (m : Annotations) (c j : String)
    → m surge_for ≡ none
    → m cordoned ≡ none
    → delete (delete (put (put m surge_for c) cordoned "true") surge_for) cordoned j ≡ m j
restored_cordon m c j h k = ground (arith, str_eq_iff surge_for j, str_eq_iff cordoned j)

abbrev pub owned_marks : Annotations → String → Annotations
owned_marks m c = put (put (put m do_not_disrupt "true") do_not_disrupt_owned "true") surge_for c

abbrev pub unowned : Annotations → Annotations
unowned m = delete (delete (delete m surge_for) do_not_disrupt) do_not_disrupt_owned

pub restored_owned :
    (m : Annotations) (c j : String)
    → m surge_for ≡ none
    → m do_not_disrupt_owned ≡ none
    → unowned (owned_marks m c) j ≡ delete m do_not_disrupt j
restored_owned m c j h k =
    ground (
      arith,
      str_eq_iff surge_for j,
      str_eq_iff do_not_disrupt j,
      str_eq_iff do_not_disrupt_owned j,
    )

pub restored_owned_cordon :
    (m : Annotations) (c j : String)
    → m surge_for ≡ none
    → m do_not_disrupt_owned ≡ none
    → m cordoned ≡ none
    → delete (unowned (put (owned_marks m c) cordoned "true")) cordoned j
      ≡ delete m do_not_disrupt j
restored_owned_cordon m c j h k l = ground (
  arith,
  str_eq_iff surge_for j,
  str_eq_iff do_not_disrupt j,
  str_eq_iff do_not_disrupt_owned j,
  str_eq_iff cordoned j,
)
