-- ===== src/Surge/Quantity/Maps.antt =====
-- Resource lists as maps: a read after a write, and the names that have an amount.
use node_rotation_controller.Base.{
  String, Bool, true, false, ◌||◌, ◌≡◌, refl, sym, ap, ◌∙◌, inl, inr, ◌↔◌, Bool-cases, Option, none,
  some, List, [], ◌∷◌, str_eq, str_eq_iff, any, any-sort_names, ltb_ℤ, ℤ, arith, if◌then◌else◌,
}
use node_rotation_controller.Surge.Quantity.{
  Quantities, ResourceList, lookup, set, keys, sorted_keys, exceeds,
}

abbrev pub is_some {ℓ} : {A : Type ℓ} → Option A → Bool
is_some none = false
is_some (some a) = true

-- Whether a name stands in a list.
abbrev pub is_in : String → List String → Bool
is_in n ns = any (λ k. str_eq k n) ns

same_key : (k n j : String) → str_eq k n ≡ true → str_eq k j ≡ str_eq n j
same_key k n j e = ap (λ s. str_eq s j) ((str_eq_iff k n).0 e)

other_key : (k n j : String) → str_eq k n ≡ false → str_eq k j ≡ true → str_eq n j ≡ false
other_key k n j e f = elim (Bool-cases (str_eq n j)) [
  | inl g ↦ cc (sym e ∙ (str_eq_iff k n).1 ((str_eq_iff k j).0 f ∙ sym ((str_eq_iff n j).0 g)))
  | inr g ↦ g
]

irreflexive : (a : ℤ) → ltb_ℤ a a ≡ false
irreflexive a = ground arith

module _ ⦃q : Quantities⦄ where
  pub lookup-set :
      (n j : String) (x : q.Quantity) (l : ResourceList)
      → lookup j (set n x l) ≡ (if str_eq n j then some x else lookup j l)
  lookup-set n j x [] = refl
  lookup-set n j x ((k, y) ∷ l) = elim (Bool-cases (str_eq k n)) [
    | inl e ↦
        rw (e, same_key k n j e)
          (elim (Bool-cases (str_eq n j)) [ inl f ↦ rw f refl | inr f ↦ rw f refl ])
    | inr e ↦ elim (Bool-cases (str_eq k j)) [
      | inl f ↦ rw (e, f, other_key k n j e f) refl
      | inr f ↦ rw (e, f) (lookup-set n j x l)
    ]
  ]

  any_key : (n : String) (l : ResourceList) → is_in n (keys l) ≡ is_some (lookup n l)
  any_key n [] = refl
  any_key n ((k, x) ∷ l) = elim (Bool-cases (str_eq k n)) [
    | inl e ↦ rw e refl
    | inr e ↦ rw e (any_key n l)
  ]

  -- The sorted names are those that have an amount.
  pub is_in-sorted_keys :
      (n : String) (l : ResourceList) → is_in n (sorted_keys l) ≡ is_some (lookup n l)
  is_in-sorted_keys n l = any-sort_names (λ k. str_eq k n) (keys l) ∙ any_key n l

  pub exceeds_irrefl : (a : q.Quantity) → exceeds a a ≡ false
  unfolding exceeds
  exceeds_irrefl a = irreflexive (q.value a)

or_false : (a b : Bool) → a || b ≡ false → (a ≡ false) × (b ≡ false)
or_false false b h = (refl, h)
or_false true b h = cc

module _ ⦃q : Quantities⦄ (f : String → Bool) where
  any-keys_sound :
      (l : ResourceList)
      → any f (keys l) ≡ false
      → (n : String) → is_some (lookup n l) ≡ true
      → f n ≡ false
  any-keys_sound [] h n e = cc
  any-keys_sound ((k, x) ∷ l) h n e = elim (Bool-cases (str_eq k n)) [
    | inl g ↦ ap f (sym ((str_eq_iff k n).0 g)) ∙ (or_false (f k) _ h).0
    | inr g ↦
        any-keys_sound l (or_false (f k) _ h).1 n
          (sym (ap (λ b. is_some (if b then some x else lookup n l)) g) ∙ e)
  ]

  any-keys_complete :
      (l : ResourceList)
      → ((n : String) → is_some (lookup n l) ≡ true → f n ≡ false)
      → any f (keys l) ≡ false
  any-keys_complete [] h = refl
  any-keys_complete ((k, x) ∷ l) h =
      rw (h k (rw ((str_eq_iff k k).1 refl) refl)) (any-keys_complete l (λ n e. h n (later n e)))
    where
      later : (n : String) → is_some (lookup n l) ≡ true → is_some (lookup n ((k, x) ∷ l)) ≡ true
      later n e = elim (Bool-cases (str_eq k n)) [ inl g ↦ rw g refl | inr g ↦ rw g e ]

  -- A test fails at all the sorted names when and only when it fails wherever there is an amount.
  pub any-sorted_keys_iff :
      (l : ResourceList)
      → (any f (sorted_keys l) ≡ false) ↔ ((n : String) → is_some (lookup n l) ≡ true → f n ≡ false)
  any-sorted_keys_iff l = (
    λ h. any-keys_sound l (sym (any-sort_names f (keys l)) ∙ h),
    λ h. any-sort_names f (keys l) ∙ any-keys_complete l h,
  )
