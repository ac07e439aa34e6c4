-- ===== src/Selection/Order.antt =====
-- isEarlierDeadline is a strict weak order, and total up to the name.
use node_rotation_controller.Base.{
  ◌≡◌, inl, inr, Bool, true, false, Option, none, some, arith, Time, str_ltb_irrefl, str_ltb_trans,
  str_ltb_total, Bool-cases,
}
use node_rotation_controller.Selection.{
  Claim, Inputs, deadline_of, is_older, earlier_by, is_earlier_deadline,
}

older_irrefl : (a : Claim) → is_older a a ≡ false
unfolding is_older
older_irrefl a = ground (arith, str_ltb_irrefl a.name)

older_trans : (a b c : Claim) → is_older a b ≡ true → is_older b c ≡ true → is_older a c ≡ true
unfolding is_older
older_trans a b c h k = ground (arith, str_ltb_trans a.name b.name c.name)

older_total : (a b : Claim) → is_older a b ≡ false → is_older b a ≡ false → a.name ≡ b.name
unfolding is_older
older_total a b h k = ground (arith, str_ltb_total a.name b.name)

earlier_trans :
    (da db dc : Option Time) (ab bc ac : Bool)
    → (ab ≡ true → bc ≡ true → ac ≡ true)
    → earlier_by da db ab ≡ true
    → earlier_by db dc bc ≡ true
    → earlier_by da dc ac ≡ true
unfolding earlier_by
earlier_trans (some da) (some db) (some dc) ab bc ac t h k = ground (arith, t)
earlier_trans (some da) (some db) none ab bc ac t h k = ground (arith, t)
earlier_trans (some da) none (some dc) ab bc ac t h k = ground (arith, t)
earlier_trans (some da) none none ab bc ac t h k = ground (arith, t)
earlier_trans none (some db) (some dc) ab bc ac t h k = ground (arith, t)
earlier_trans none (some db) none ab bc ac t h k = ground (arith, t)
earlier_trans none none (some dc) ab bc ac t h k = ground (arith, t)
earlier_trans none none none ab bc ac t h k = t h k

earlier_total :
    (da db : Option Time) (ab ba : Bool)
    → earlier_by da db ab ≡ false
    → earlier_by db da ba ≡ false
    → (ab ≡ false) × (ba ≡ false)
unfolding earlier_by
earlier_total (some da) (some db) ab ba h k = ground arith
earlier_total (some da) none ab ba h k = ground arith
earlier_total none (some db) ab ba h k = ground arith
earlier_total none none ab ba h k = (h, k)

earlier_irrefl : (d : Option Time) (older : Bool) → older ≡ false → earlier_by d d older ≡ false
unfolding earlier_by
earlier_irrefl (some d) older h = ground arith
earlier_irrefl none older h = h

module _ (i : Inputs) where
  pub is_earlier_deadline_irrefl : (a : Claim) → is_earlier_deadline a a i ≡ false
  unfolding is_earlier_deadline
  is_earlier_deadline_irrefl a = earlier_irrefl (deadline_of a i) (is_older a a) (older_irrefl a)

  pub is_earlier_deadline_trans :
      (a b c : Claim)
      → is_earlier_deadline a b i ≡ true
      → is_earlier_deadline b c i ≡ true
      → is_earlier_deadline a c i ≡ true
  unfolding is_earlier_deadline
  is_earlier_deadline_trans a b c h k =
      earlier_trans (deadline_of a i) (deadline_of b i) (deadline_of c i) _ _ _ (older_trans a b c)
        h k

  pub is_earlier_deadline_total :
      (a b : Claim)
      → is_earlier_deadline a b i ≡ false
      → is_earlier_deadline b a i ≡ false
      → a.name ≡ b.name
  unfolding is_earlier_deadline
  is_earlier_deadline_total a b h k =
      let (p, q) = earlier_total (deadline_of a i) (deadline_of b i) _ _ h k in older_total a b p q

  pub is_earlier_deadline_asymm :
      (a b : Claim) → is_earlier_deadline a b i ≡ true → is_earlier_deadline b a i ≡ false
  is_earlier_deadline_asymm a b h = elim (Bool-cases (is_earlier_deadline b a i)) [
    | inl k ↦ ground (arith, is_earlier_deadline_irrefl a, is_earlier_deadline_trans a b a h k)
    | inr k ↦ k
  ]
