-- ===== src/Surge/Clamp/Pointwise.antt =====
-- Clamp, one resource at a time.
use node_rotation_controller.Base.{
  String, Bool, true, false, ◌&&◌, ◌≡◌, refl, ap, ◌∙◌, subst, inl, inr, Bool-cases, Option, none,
  some, List, [], ◌∷◌, str_eq, str_eq_iff, if◌then◌else◌,
}
use node_rotation_controller.Surge.Quantity.{
  Quantities, ResourceList, exceeds, is_positive, lookup, set, amount, quantity_or_zero,
  sorted_keys,
}
use node_rotation_controller.Surge.Quantity.Maps.{is_some, is_in, lookup-set, is_in-sorted_keys}
use node_rotation_controller.Surge.Clamp.{
  provisionable_limit, ClampResult, unclamped, Verdict, leave, refuse, cut, verdict, cut_at, judged,
  clamp_loop, clamp,
}

module _ ⦃q : Quantities⦄ where
  -- The lesser of a request and its limit; a limit that is not positive cuts nothing.
  abbrev pub least : Option q.Quantity → Option q.Quantity → Option q.Quantity
  least none limit = none
  least (some want) none = some want
  least (some want) (some limit) =
      if is_positive limit && exceeds want limit then some limit else some want

  -- What the limit cuts off.
  abbrev pub excess : Option q.Quantity → Option q.Quantity → Option q.Quantity
  excess none limit = none
  excess (some want) none = none
  excess (some want) (some limit) =
      if is_positive limit && exceeds want limit then some (q.sub want limit) else none

  abbrev changed : (q.Quantity → q.Quantity) → Verdict → Option q.Quantity → Option q.Quantity
  changed new leave o = o
  changed new refuse o = o
  changed new (cut l) o = some (new l)

  module _ (requests allocatable daemons : ResourceList) where
    abbrev verdict_at : String → Verdict
    verdict_at n = verdict (amount n requests) (provisionable_limit allocatable daemons n)

    -- A part of the result that the loop writes at each cut.
    module _ (part : ClampResult → ResourceList) (new : String → q.Quantity → q.Quantity)
        (writes : (n : String) (l : q.Quantity) (res : ClampResult)
          → part (cut_at n (amount n requests) l res) ≡ set n (new n l) (part res)) where
      abbrev Follows : List String → String → ClampResult → ClampResult → Type 0
      Follows ns j res end = lookup j (part end) ≡ (
          if is_in j ns
          then changed (new j) (verdict_at j) (lookup j (part res))
          else lookup j (part res))

      leave_step :
          (b : Bool) (o : Option q.Quantity) (j : String)
          → verdict_at j ≡ leave
          → (if b then changed (new j) (verdict_at j) o else o) ≡ o
      leave_step true o j e = rw e refl
      leave_step false o j e = refl

      cut_step :
          (b : Bool) (l : q.Quantity) (j : String)
          → verdict_at j ≡ cut l
          → (if b then changed (new j) (verdict_at j) (some (new j l)) else some (new j l))
            ≡ some (new j l)
      cut_step true l j e = rw e refl
      cut_step false l j e = refl

      loop-Follows :
          (ns : List String) (j : String) (res : ClampResult)
          → (clamp_loop requests allocatable daemons ns res).refused ≡ false
          → Follows ns j res (clamp_loop requests allocatable daemons ns res)
      unfolding clamp_loop
      loop-Follows [] j res h = refl
      loop-Follows (n ∷ ns) j res h = step (verdict_at n) refl (λ r. loop-Follows ns j r) h
        where
          found : (v : Verdict) → verdict_at n ≡ v → str_eq n j ≡ true → verdict_at j ≡ v
          found v e f = subst (λ k. verdict_at k ≡ v) ((str_eq_iff n j).0 f) e

          rest : ClampResult → ClampResult
          rest = clamp_loop requests allocatable daemons ns

          through : Bool → Option q.Quantity → Option q.Quantity
          through b o = if b then changed (new j) (verdict_at j) o else o

          after :
              (l : q.Quantity)
              → lookup j (part (cut_at n (amount n requests) l res))
                ≡ (if str_eq n j then some (new n l) else lookup j (part res))
          after l = ap (lookup j) (writes n l res) ∙ lookup-set n j (new n l) (part res)

          after_same :
              (l : q.Quantity)
              → str_eq n j ≡ true
              → lookup j (part (cut_at n (amount n requests) l res)) ≡ some (new j l)
          after_same l f =
              after l
              ∙ ap (λ b. if b then some (new n l) else lookup j (part res)) f
              ∙ ap (λ k. some (new k l)) ((str_eq_iff n j).0 f)

          after_other :
              (l : q.Quantity)
              → str_eq n j ≡ false
              → lookup j (part (cut_at n (amount n requests) l res)) ≡ lookup j (part res)
          after_other l f = after l ∙ ap (λ b. if b then some (new n l) else lookup j (part res)) f

          step :
              (v : Verdict)
              → verdict_at n ≡ v
              → ((r : ClampResult) → (rest r).refused ≡ false → Follows ns j r (rest r))
              → (judged requests n v res rest).refused ≡ false
              → Follows (n ∷ ns) j res (judged requests n v res rest)
          step leave e ih r = elim (Bool-cases (str_eq n j)) [
            | inl f ↦
                rw (f, found leave e f) (ih res r ∙ leave_step (is_in j ns) _ j (found leave e f))
            | inr f ↦ rw f (ih res r)
          ]
          step refuse e ih r = cc
          step (cut l) e ih r = elim (Bool-cases (str_eq n j)) [
            | inl f ↦
                rw (f, found (cut l) e f)
                  (ih _ r
                    ∙ ap (through (is_in j ns)) (after_same l f)
                    ∙ cut_step (is_in j ns) l j (found (cut l) e f))
            | inr f ↦ rw f (ih _ r ∙ ap (through (is_in j ns)) (after_other l f))
          ]

    -- The outcome at one resource, for a list of requests that is not refused.
    least_step :
        (o : Option q.Quantity) (limit : Option q.Quantity)
        → (if is_some o then changed (λ l. l) (verdict (quantity_or_zero o) limit) o else o)
          ≡ least o limit
    unfolding verdict
    least_step none limit = refl
    least_step (some want) none = refl
    least_step (some want) (some limit) = elim (Bool-cases (is_positive limit)) [
      | inl e ↦ elim (Bool-cases (exceeds want limit)) [
        | inl f ↦ rw (e, f) refl
        | inr f ↦ rw (e, f) refl
      ]
      | inr e ↦ elim (Bool-cases (is_positive want)) [
        | inl f ↦ rw (e, f) refl
        | inr f ↦ rw (e, f) refl
      ]
    ]

    excess_step :
        (o : Option q.Quantity) (limit : Option q.Quantity)
        → (if is_some o
            then changed
                (λ l. q.sub (quantity_or_zero o) l)
                (verdict (quantity_or_zero o) limit)
                none
            else none)
          ≡ excess o limit
    unfolding verdict
    excess_step none limit = refl
    excess_step (some want) none = refl
    excess_step (some want) (some limit) = elim (Bool-cases (is_positive limit)) [
      | inl e ↦ elim (Bool-cases (exceeds want limit)) [
        | inl f ↦ rw (e, f) refl
        | inr f ↦ rw (e, f) refl
      ]
      | inr e ↦ elim (Bool-cases (is_positive want)) [
        | inl f ↦ rw (e, f) refl
        | inr f ↦ rw (e, f) refl
      ]
    ]

    -- The requests that the loop leaves, and the shortfall.
    pub loop_result :
        (n : String)
        → (clamp_loop requests allocatable daemons
            (sorted_keys requests)
            (unclamped requests)).refused
          ≡ false
        → (lookup n
              (clamp_loop requests allocatable daemons
                (sorted_keys requests)
                (unclamped requests)).requests
            ≡ least (lookup n requests) (provisionable_limit allocatable daemons n))
          × (lookup n
                (clamp_loop requests allocatable daemons
                  (sorted_keys requests)
                  (unclamped requests)).shortfall
              ≡ excess (lookup n requests) (provisionable_limit allocatable daemons n))
    loop_result n h = (
      loop-Follows (λ r. r.requests) (λ k l. l) (λ k l r. refl) (sorted_keys requests) n
            (unclamped requests) h
          ∙ ap
              (λ b.
                if b
                then changed (λ l. l) (verdict_at n) (lookup n requests)
                else lookup n requests)
              (is_in-sorted_keys n requests)
          ∙ least_step (lookup n requests) (provisionable_limit allocatable daemons n),
      loop-Follows (λ r. r.shortfall) (λ k l. q.sub (amount k requests) l) (λ k l r. refl)
            (sorted_keys requests) n (unclamped requests) h
          ∙ ap
              (λ b.
                if b then changed (λ l. q.sub (amount n requests) l) (verdict_at n) none else none)
              (is_in-sorted_keys n requests)
          ∙ excess_step (lookup n requests) (provisionable_limit allocatable daemons n),
    )

least-none : ⦃q : Quantities⦄ → (o : Option q.Quantity) → o ≡ least o none
least-none none = refl
least-none (some x) = refl

excess-none : ⦃q : Quantities⦄ → (o : Option q.Quantity) → none ≡ excess o none
excess-none none = refl
excess-none (some x) = refl

-- The clamp works on each resource alone: where it does not refuse, every request is the lesser of
-- what was asked for and what a fresh node can provide, where that is known and positive, and the
-- shortfall is the difference where the request was cut, and is not there otherwise.
pub clamp-lookup :
    ⦃q : Quantities⦄
    → (requests allocatable daemons : ResourceList) (n : String)
    → (clamp requests allocatable daemons).refused ≡ false
    → (lookup n (clamp requests allocatable daemons).requests
        ≡ least (lookup n requests) (provisionable_limit allocatable daemons n))
      × (lookup n (clamp requests allocatable daemons).shortfall
          ≡ excess (lookup n requests) (provisionable_limit allocatable daemons n))
unfolding clamp provisionable_limit
clamp-lookup requests [] daemons n h =
    (least-none (lookup n requests), excess-none (lookup n requests))
clamp-lookup requests (a ∷ al) daemons n h = loop_result requests (a ∷ al) daemons n h
