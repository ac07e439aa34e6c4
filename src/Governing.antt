-- ===== src/Governing.antt =====
-- internal/resolve/resolve.go: the one RotationPolicy that governs a NodePool. Whether a selector
-- can be compiled and what it matches is Kubernetes'.
pub mod Reference
pub mod Governed
use node_rotation_controller.Base.{
  ℕ, suc, ◌+◌, String, Bool, true, false, ◌||◌, ◌==◌, ltb, Option, none, some, List, [], ◌∷◌, ◌++◌,
  map, length, Annotations, sort_names, if◌then◌else◌,
}
use node_rotation_controller.Surge.Pods.{Requirement}
use node_rotation_controller.Policy.{Policy}

pub record Selector : Type 0 where
  pub match_labels : List (String × String)
  pub match_expressions : List Requirement

pub record RotationPolicy : Type 0 where
  pub name : String
  pub node_pool_selector : Option Selector
  pub spec : Policy

-- LabelSelectorAsSelector and Matches: `none` is a selector that does not compile.
pub record Selectors : Type 0 where
  pub matches : Option Selector → Annotations → Option Bool

pub data Outcome : Type 0 where
  matched : RotationPolicy → Outcome
  no_match : Outcome
  conflict : List String → Outcome

unfoldable pub specificity : Option Selector → ℕ
specificity none = 0
specificity (some s) = length s.match_labels + length s.match_expressions

-- The switch on the number of policies at the top.
unfoldable pub classify : List RotationPolicy → Outcome
classify [] = no_match
classify (p ∷ []) = matched p
classify (p ∷ q ∷ ps) = conflict (sort_names (map (λ r. r.name) (p ∷ q ∷ ps)))

abbrev pub is_nil : List RotationPolicy → Bool
is_nil [] = true
is_nil (p ∷ ps) = false

module _ ⦃selectors : Selectors⦄ where
  abbrev pub selects : Annotations → RotationPolicy → Bool
  selects labels p = elim (selectors.matches p.node_pool_selector labels) [
    | none ↦ false
    | some b ↦ b
  ]

  -- One round of the loop: the specificity at the top, and the policies there.
  abbrev pub round : RotationPolicy → ℕ × List RotationPolicy → ℕ × List RotationPolicy
  round p (top, found) =
      let s = specificity p.node_pool_selector in
      if is_nil found || ltb top s
      then (s, p ∷ [])
      else if s == top
      then (top, found ++ (p ∷ []))
      else (top, found)

  unfoldable pub collect :
      Annotations → List RotationPolicy → ℕ × List RotationPolicy → List RotationPolicy
  collect labels [] s = s.1
  collect labels (p ∷ ps) s = collect labels ps (if selects labels p then round p s else s)

  -- Governing, from the labels of the pool.
  unfoldable pub governing : Annotations → List RotationPolicy → Outcome
  governing labels ps = classify (collect labels ps (0, []))
