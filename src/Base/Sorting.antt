-- ===== src/Base/Sorting.antt =====
-- sort.Strings, as an insertion sort.
use node_rotation_controller.Base.Tests.{if◌then◌else◌, Bool-cases}
use node_rotation_controller.Base.Lists.{any}
use node_rotation_controller.Base.Text.{str_ltb}
use Prim.Native.String.{String}
use mathlib.Core.Path.{◌≡◌, refl, ap, ◌∙◌}
use mathlib.Core.Logic.{inl, inr}
use mathlib.Core.Bool.{Bool, ◌||◌}
use mathlib.Core.List.{List, [], ◌∷◌}
use native.Mathlib.Omega.{arith}

abbrev pub insert_name : String → List String → List String
insert_name n [] = n ∷ []
insert_name n (m ∷ ms) = if str_ltb m n then m ∷ insert_name n ms else n ∷ m ∷ ms

-- sort.Strings
unfoldable pub sort_names : List String → List String
sort_names [] = []
sort_names (n ∷ ns) = insert_name n (sort_names ns)

or_swap : (a b c : Bool) → a || (b || c) ≡ b || (a || c)
or_swap a b c = ground arith

any-insert_name :
    (f : String → Bool) (n : String) (ms : List String) → any f (insert_name n ms) ≡ f n || any f ms
any-insert_name f n [] = refl
any-insert_name f n (m ∷ ms) = elim (Bool-cases (str_ltb m n)) [
  | inl e ↦ rw e (ap (λ b. f m || b) (any-insert_name f n ms) ∙ or_swap (f m) (f n) (any f ms))
  | inr e ↦ rw e refl
]

-- Sorting keeps what stands in a list.
pub any-sort_names : (f : String → Bool) (ns : List String) → any f (sort_names ns) ≡ any f ns
unfolding sort_names
any-sort_names f [] = refl
any-sort_names f (n ∷ ns) =
    any-insert_name f n (sort_names ns) ∙ ap (λ b. f n || b) (any-sort_names f ns)
