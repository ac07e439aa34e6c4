-- ===== src/Base/Text.antt =====
-- Texts: equality, the order of names, and Go's maps from texts.
use Prim.Native.Nat.{ℕ, compare, Ordering}
use Prim.Native.Char.{code}
use Prim.Native.String.{String}
use mathlib.Core.Path.{◌≡◌, refl, ap₂}
use mathlib.Core.Bool.{Bool, true, false}
use mathlib.Core.List.{List, [], ◌∷◌}
use mathlib.Core.Option.{Option, none, some}
use native.Mathlib.Omega.{arith}
use text.Mathlib.Text.{◌==◌ as text_eq}
use text.Mathlib.TextEquality.{eq_iff, Char-path}
use node_rotation_controller.Base.Tests.{if◌then◌else◌}

abbrev pub str_eq : String → String → Bool
str_eq = text_eq

pub str_eq_iff : (s t : String) → (str_eq s t ≡ true → s ≡ t) × (s ≡ t → str_eq s t ≡ true)
str_eq_iff s t = ((eq_iff s t).0, (eq_iff s t).1)

-- The code points of a text.
abbrev pub codes : String → List ℕ
codes String.[] = []
codes (String.◌∷◌ c s) = code c ∷ codes s

-- The lexicographic order. On the UTF-8 bytes, which Go compares, it is the same.
pub codes_ltb : List ℕ → List ℕ → Bool
codes_ltb xs [] = false
codes_ltb [] (y ∷ ys) = true
codes_ltb (x ∷ xs) (y ∷ ys) = elim (compare x y) [
  | Ordering.lt ↦ true
  | Ordering.eq ↦ codes_ltb xs ys
  | Ordering.gt ↦ false
]

-- s < t on Go strings.
unfoldable pub str_ltb : String → String → Bool
unfolding codes_ltb
str_ltb s t = codes_ltb (codes s) (codes t)

codes_ltb_irrefl : (xs : List ℕ) → codes_ltb xs xs ≡ false
unfolding codes_ltb
codes_ltb_irrefl [] = refl
codes_ltb_irrefl (x ∷ xs) = ground (arith, codes_ltb_irrefl xs)

codes_ltb_trans :
    (xs ys zs : List ℕ) → codes_ltb xs ys ≡ true → codes_ltb ys zs ≡ true → codes_ltb xs zs ≡ true
unfolding codes_ltb
codes_ltb_trans xs [] zs h k = ground arith
codes_ltb_trans [] (y ∷ ys) [] h k = ground arith
codes_ltb_trans [] (y ∷ ys) (z ∷ zs) h k = refl
codes_ltb_trans (x ∷ xs) (y ∷ ys) [] h k = ground arith
codes_ltb_trans (x ∷ xs) (y ∷ ys) (z ∷ zs) h k = ground (arith, codes_ltb_trans xs ys zs)

codes_ltb_total : (xs ys : List ℕ) → codes_ltb xs ys ≡ false → codes_ltb ys xs ≡ false → xs ≡ ys
unfolding codes_ltb
codes_ltb_total [] [] h k = refl
codes_ltb_total [] (y ∷ ys) h k = ground arith
codes_ltb_total (x ∷ xs) [] h k = ground arith
codes_ltb_total (x ∷ xs) (y ∷ ys) h k = ground (arith, codes_ltb_total xs ys)

codes_inj : (s t : String) → codes s ≡ codes t → s ≡ t
codes_inj String.[] String.[] h = refl
codes_inj String.[] (String.◌∷◌ d t) h = cc
codes_inj (String.◌∷◌ c s) String.[] h = cc
codes_inj (String.◌∷◌ c s) (String.◌∷◌ d t) h =
    ap₂ String.◌∷◌ (Char-path c d (cc)) (codes_inj s t (cc))

pub str_ltb_irrefl : (s : String) → str_ltb s s ≡ false
unfolding str_ltb
str_ltb_irrefl s = codes_ltb_irrefl (codes s)

pub str_ltb_trans : (s t u : String) → str_ltb s t ≡ true → str_ltb t u ≡ true → str_ltb s u ≡ true
unfolding str_ltb
str_ltb_trans s t u h k = codes_ltb_trans (codes s) (codes t) (codes u) h k

pub str_ltb_total : (s t : String) → str_ltb s t ≡ false → str_ltb t s ≡ false → s ≡ t
unfolding str_ltb
str_ltb_total s t h k = codes_inj s t (codes_ltb_total (codes s) (codes t) h k)

-- map[string]string. A nil map reads as the empty one.
abbrev pub Annotations : Type 0
Annotations = String → Option String

-- m[k], the empty text where the key is absent.
abbrev pub get : Annotations → String → String
get m k = elim (m k) [ none ↦ "" | some v ↦ v ]

-- _, ok := m[k]
abbrev pub has : Annotations → String → Bool
has m k = elim (m k) [ none ↦ false | some v ↦ true ]

-- m[k] = v
abbrev pub put : Annotations → String → String → Annotations
put m k v j = if str_eq k j then some v else m j

-- delete(m, k)
abbrev pub delete : Annotations → String → Annotations
delete m k j = if str_eq k j then none else m j

abbrev pub empty_map : Annotations
empty_map j = none
