-- ===== src/Window/Weekly/Merge.antt =====
-- The merge of the windows of a week: it covers what they cover, by spans that keep apart.
use node_rotation_controller.Base.{
  ℕ, ◌≤◌, ◌<◌, Bool, true, false, ◌&&◌, ◌||◌, ltb, leb, ◌≡◌, refl, ap, ◌∙◌, inl, inr, Bool-cases,
  List, [], ◌∷◌, any, arith,
}
use node_rotation_controller.Window.Weekly.{
  Span, is_before, insert_span, sort_spans, extend, merge_from, merge_sorted, merge_spans,
}

-- Whether an instant of the week lies in a span.
abbrev pub is_within : ℕ → Span → Bool
is_within t s = leb s.start t && ltb t s.end_of

-- Whether it lies in one of the spans.
abbrev pub covers : ℕ → List Span → Bool
covers t spans = any (is_within t) spans

-- Each span starts after n and after the end of the one in front of it.
abbrev IsApartFrom : ℕ → List Span → Type 0
IsApartFrom n [] = Unit
IsApartFrom n (x ∷ xs) = (n < x.start) × IsApartFrom x.end_of xs

-- Each span ends before the next one starts.
abbrev pub IsApart : List Span → Type 0
IsApart [] = Unit
IsApart (x ∷ xs) = IsApartFrom x.end_of xs

-- No span starts before n, nor before one that stands in front of it.
abbrev StartsFrom : ℕ → List Span → Type 0
StartsFrom n [] = Unit
StartsFrom n (x ∷ xs) = (n ≤ x.start) × StartsFrom x.start xs

or_swap : (a b c : Bool) → a || (b || c) ≡ b || (a || c)
or_swap a b c = ground arith

or_assoc : (a b c : Bool) → (a || b) || c ≡ a || (b || c)
or_assoc a b c = ground arith

covers-insert_span :
    (t : ℕ) (x : Span) (ys : List Span) → covers t (insert_span x ys) ≡ is_within t x || covers t ys
covers-insert_span t x [] = refl
covers-insert_span t x (y ∷ ys) = elim (Bool-cases (is_before y x)) [
  | inl e ↦ rw e (
      ap (λ b. is_within t y || b) (covers-insert_span t x ys)
      ∙ or_swap (is_within t y) (is_within t x) (covers t ys))
  | inr e ↦ rw e refl
]

covers-sort_spans : (t : ℕ) (xs : List Span) → covers t (sort_spans xs) ≡ covers t xs
unfolding sort_spans
covers-sort_spans t [] = refl
covers-sort_spans t (x ∷ xs) =
    covers-insert_span t x (sort_spans xs) ∙ ap (λ b. is_within t x || b) (covers-sort_spans t xs)

before-le : (x y : Span) → is_before y x ≡ true → y.start ≤ x.start
before-le x y h = ground arith

not_before-le : (x y : Span) → is_before y x ≡ false → x.start ≤ y.start
not_before-le x y h = ground arith

lower_start : (n m : ℕ) (xs : List Span) → n ≤ m → StartsFrom m xs → StartsFrom n xs
lower_start n m [] h s = tt
lower_start n m (x ∷ xs) h s = (omega (arith, h, s.0), s.1)

insert_span-StartsFrom :
    (n : ℕ) (x : Span) (ys : List Span)
    → n ≤ x.start
    → StartsFrom n ys
    → StartsFrom n (insert_span x ys)
insert_span-StartsFrom n x [] h s = (h, tt)
insert_span-StartsFrom n x (y ∷ ys) h s = elim (Bool-cases (is_before y x)) [
  | inl e ↦ rw e (s.0, insert_span-StartsFrom y.start x ys (before-le x y e) s.1)
  | inr e ↦ rw e (h, (not_before-le x y e, s.1))
]

sort_spans-StartsFrom : (xs : List Span) → StartsFrom 0 (sort_spans xs)
unfolding sort_spans
sort_spans-StartsFrom [] = tt
sort_spans-StartsFrom (x ∷ xs) =
    insert_span-StartsFrom 0 x (sort_spans xs) (omega arith) (sort_spans-StartsFrom xs)

-- A span that touches the last one, put together with it.
within_extend :
    (t : ℕ) (l x : Span)
    → l.start ≤ x.start
    → leb x.start l.end_of ≡ true
    → is_within t (extend l x) ≡ is_within t l || is_within t x
within_extend t l x h e = elim (Bool-cases (ltb l.end_of x.end_of)) [
  | inl f ↦ rw f (ground arith)
  | inr f ↦ rw f (ground arith)
]

extend_start : (l x : Span) → (extend l x).start ≡ l.start
extend_start l x = elim (Bool-cases (ltb l.end_of x.end_of)) [
  | inl f ↦ rw f refl
  | inr f ↦ rw f refl
]

not_leb : (a b : ℕ) → leb a b ≡ false → b < a
not_leb a b h = ground arith

extend_from :
    (l x : Span) (xs : List Span)
    → l.start ≤ x.start
    → StartsFrom x.start xs
    → StartsFrom (extend l x).start xs
extend_from l x xs h s =
    lower_start (extend l x).start x.start xs (omega (arith, h, extend_start l x)) s

covers-merge_from :
    (t : ℕ) (l : Span) (xs : List Span)
    → StartsFrom l.start xs
    → covers t (merge_from l xs) ≡ is_within t l || covers t xs
unfolding merge_from
covers-merge_from t l [] s = refl
covers-merge_from t l (x ∷ xs) s = elim (Bool-cases (leb x.start l.end_of)) [
  | inl e ↦ rw e (
      covers-merge_from t (extend l x) xs (extend_from l x xs s.0 s.1)
      ∙ ap (λ b. b || covers t xs) (within_extend t l x s.0 e)
      ∙ or_assoc (is_within t l) (is_within t x) (covers t xs))
  | inr e ↦ rw e (ap (λ b. is_within t l || b) (covers-merge_from t x xs s.1))
]

IsApart-merge_from :
    (l : Span) (xs : List Span)
    → ((n : ℕ) → n < l.start → IsApartFrom n (merge_from l xs)) × IsApart (merge_from l xs)
unfolding merge_from
IsApart-merge_from l [] = (λ n h. (h, tt), tt)
IsApart-merge_from l (x ∷ xs) = elim (Bool-cases (leb x.start l.end_of)) [
  | inl e ↦ rw e (
    λ n h. (IsApart-merge_from (extend l x) xs).0 n (omega (arith, h, extend_start l x)),
    (IsApart-merge_from (extend l x) xs).1,
  )
  | inr e ↦ rw e (
    λ n h. (h, (IsApart-merge_from x xs).0 l.end_of (not_leb x.start l.end_of e)),
    (IsApart-merge_from x xs).0 l.end_of (not_leb x.start l.end_of e),
  )
]

covers-merge_sorted :
    (t : ℕ) (xs : List Span) → StartsFrom 0 xs → covers t (merge_sorted xs) ≡ covers t xs
covers-merge_sorted t [] s = refl
covers-merge_sorted t (x ∷ xs) s = covers-merge_from t x xs s.1

merge_sorted-IsApart : (xs : List Span) → IsApart (merge_sorted xs)
merge_sorted-IsApart [] = tt
merge_sorted-IsApart (x ∷ xs) = (IsApart-merge_from x xs).1

-- The merge keeps the windows of a week and puts together what overlaps or touches: an instant
-- lies in one of the merged spans just when it lies in one of the given ones, in whatever order
-- these are, and each merged span ends before the next one starts.
pub merge_spans_lem :
    (spans : List Span)
    → ((t : ℕ) → covers t (merge_spans spans) ≡ covers t spans) × IsApart (merge_spans spans)
unfolding merge_spans
merge_spans_lem spans = (
  λ t.
      covers-merge_sorted t (sort_spans spans) (sort_spans-StartsFrom spans)
      ∙ covers-sort_spans t spans,
  merge_sorted-IsApart (sort_spans spans),
)
