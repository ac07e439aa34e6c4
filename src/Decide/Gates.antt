-- ===== src/Decide/Gates.antt =====
-- What the start gates promise: a rotation starts exactly when all four conditions hold, and the
-- gate that is named is the first one that does not.
use node_rotation_controller.Base.{
  ◌≡◌, ◌↔◌, Bool, true, false, Option, none, some, arith, ℤ, ◌≤ℤ◌, ◌<ℤ◌, ◌-ℤ◌, ◌+ℤ◌, ltb_ℤ, IsInt64,
  -ℤ_parts, +ℤ_parts, Duration, Time, String, Annotations, get, sub_time, add_time, lt→ltb,
  Option-cases, inl, inr, refl, not, if◌then◌else◌,
}
use node_rotation_controller.Annotations.{
  TimeText, parse_time, freeze, last_rotation_at, last_failure_at,
}
use node_rotation_controller.Selection.{Claim}
use node_rotation_controller.Selection.Trigger.{sub_time-eq, add_duration-eq}
use node_rotation_controller.Decide.{
  Gate, gate_none, gate_out_of_window, gate_frozen, gate_cooldown_after_success, gate_failure_pause,
  Inputs, since, frozen, start_gate, surgeless_fallback,
}

not_before : (a b : ℤ) → ltb_ℤ a b ≡ false → b ≤ℤ a
not_before a b h = ground arith

before_not : (a b : ℤ) → b ≤ℤ a → ltb_ℤ a b ≡ false
before_not a b h = ground arith

abbrev pub RestedSince : Option Time → Duration → Time → Type 0
RestedSince none pause now = Unit
RestedSince (some t) pause now = pause ≤ℤ sub_time now t

abbrev pub ThawedAt : Option Time → Time → Type 0
ThawedAt none now = Unit
ThawedAt (some until) now = until ≤ℤ now

module _ ⦃text : TimeText⦄ where
  -- The stamp is unset or unreadable, or `pause` has passed since its instant.
  abbrev pub Rested : String → Duration → Time → Type 0
  Rested ts pause now = RestedSince (parse_time ts) pause now

  -- No freeze is set that lies ahead.
  abbrev pub Thawed : Annotations → Time → Type 0
  Thawed ann now = ThawedAt (parse_time (get ann freeze)) now

  pub record MayStart (i : Inputs) : Type 0 where
    pub open_window : i.in_window ≡ true
    pub thawed : Thawed i.annotations i.now
    pub settled : Rested (get i.annotations last_rotation_at) i.cooldown i.now
    pub paused : Rested (get i.annotations last_failure_at) i.failure_pause i.now

  pub since-Rested :
      (ts : String) (pause : Duration) (now : Time)
      → IsInt64 pause
      → (ltb_ℤ (since ts now) pause ≡ false) ↔ Rested ts pause now
  unfolding since
  since-Rested ts pause now r = elim (Option-cases (parse_time ts)) [
    | inl e ↦ rw (e, since) (λ _. tt, λ _. ground arith)
    | inr (t, e) ↦
        rw (e, since) (not_before (sub_time now t) pause, before_not (sub_time now t) pause)
  ]

  pub frozen-Thawed : (ann : Annotations) (now : Time) → (frozen ann now ≡ false) ↔ Thawed ann now
  unfolding frozen
  frozen-Thawed ann now = elim (Option-cases (parse_time (get ann freeze))) [
    | inl e ↦ rw (e, frozen) (λ _. tt, λ _. refl)
    | inr (t, e) ↦ rw (e, frozen) (not_before now t, before_not now t)
  ]

  abbrev chain : Bool → Bool → Bool → Bool → Bool × Gate
  chain w f c p =
      if not w
      then (false, gate_out_of_window)
      else if f
      then (false, gate_frozen)
      else if c
      then (false, gate_cooldown_after_success)
      else if p
      then (false, gate_failure_pause)
      else (true, gate_none)

  -- What the gate that is named says: it does not hold, and those before it do.
  abbrev pub Says : Gate → Inputs → Type 0
  Says gate_none i = MayStart i
  Says gate_out_of_window i = i.in_window ≡ false
  Says gate_frozen i = (i.in_window ≡ true) × ¬ Thawed i.annotations i.now
  Says gate_cooldown_after_success i =
      (i.in_window ≡ true)
      × Thawed i.annotations i.now
      × ¬ Rested (get i.annotations last_rotation_at) i.cooldown i.now
  Says gate_failure_pause i =
      (i.in_window ≡ true)
      × Thawed i.annotations i.now
      × Rested (get i.annotations last_rotation_at) i.cooldown i.now
      × ¬ Rested (get i.annotations last_failure_at) i.failure_pause i.now

  says_lem :
      (w f c p : Bool) (i : Inputs)
      → i.in_window ≡ w
      → (f ≡ false) ↔ Thawed i.annotations i.now
      → (c ≡ false) ↔ Rested (get i.annotations last_rotation_at) i.cooldown i.now
      → (p ≡ false) ↔ Rested (get i.annotations last_failure_at) i.failure_pause i.now
      → Says (chain w f c p).1 i
  says_lem false f c p i ew ef ec ep = ew
  says_lem true true c p i ew ef ec ep = (ew, λ t. cc (ef.1 t))
  says_lem true false true p i ew ef ec ep = (ew, ef.0 refl, λ t. cc (ec.1 t))
  says_lem true false false true i ew ef ec ep = (ew, ef.0 refl, ec.0 refl, λ t. cc (ep.1 t))
  says_lem true false false false i ew ef ec ep = record {
    open_window = ew;
    thawed = ef.0 refl;
    settled = ec.0 refl;
    paused = ep.0 refl;
  }

  may_lem :
      (w f c p : Bool) (i : Inputs)
      → i.in_window ≡ w
      → (f ≡ false) ↔ Thawed i.annotations i.now
      → (c ≡ false) ↔ Rested (get i.annotations last_rotation_at) i.cooldown i.now
      → (p ≡ false) ↔ Rested (get i.annotations last_failure_at) i.failure_pause i.now
      → ((chain w f c p).0 ≡ true) ↔ MayStart i
  may_lem false f c p i ew ef ec ep = (λ h. cc, λ m. cc (m.open_window))
  may_lem true true c p i ew ef ec ep = (λ h. cc, λ m. cc (ef.1 m.thawed))
  may_lem true false true p i ew ef ec ep = (λ h. cc, λ m. cc (ec.1 m.settled))
  may_lem true false false true i ew ef ec ep = (λ h. cc, λ m. cc (ep.1 m.paused))
  may_lem true false false false i ew ef ec ep =
      (λ _. says_lem true false false false i ew ef ec ep, λ _. refl)

  start_gate-chain :
      (i : Inputs)
      → start_gate i
        ≡ chain i.in_window
            (frozen i.annotations i.now)
            (ltb_ℤ (since (get i.annotations last_rotation_at) i.now) i.cooldown)
            (ltb_ℤ (since (get i.annotations last_failure_at) i.now) i.failure_pause)
  unfolding start_gate
  start_gate-chain i = refl

  -- The gate that is named is the first of the four that blocks, and none is named exactly when
  -- a rotation may start: the window is open, no freeze lies ahead, and both pauses have passed.
  pub start_gate-Says :
      (i : Inputs)
      → IsInt64 i.cooldown
      → IsInt64 i.failure_pause
      → Says (start_gate i).1 i × (((start_gate i).0 ≡ true) ↔ MayStart i)
  start_gate-Says i rc rp =
      rw (start_gate-chain i)
        (says_lem i.in_window _ _ _ i refl ef ec ep, may_lem i.in_window _ _ _ i refl ef ec ep)
    where
      ef : (frozen i.annotations i.now ≡ false) ↔ Thawed i.annotations i.now
      ef = frozen-Thawed i.annotations i.now

      ec :
          (ltb_ℤ (since (get i.annotations last_rotation_at) i.now) i.cooldown ≡ false)
          ↔ Rested (get i.annotations last_rotation_at) i.cooldown i.now
      ec = since-Rested (get i.annotations last_rotation_at) i.cooldown i.now rc

      ep :
          (ltb_ℤ (since (get i.annotations last_failure_at) i.now) i.failure_pause ≡ false)
          ↔ Rested (get i.annotations last_failure_at) i.failure_pause i.now
      ep = since-Rested (get i.annotations last_failure_at) i.failure_pause i.now rp

-- Where nothing overflows, the surge-less path is taken exactly when the fallback is enabled and
-- the claim has a deadline that comes before a rotation started now could end.
pub surgeless_fallback_iff :
    (c : Claim) (i : Inputs) (e : Duration)
    → c.expire_after ≡ some e
    → IsInt64 (add_time c.created_at e -ℤ i.now)
    → IsInt64 (i.ready_timeout +ℤ i.drain_bound)
    → (surgeless_fallback c i ≡ true) ↔ (
        (i.fallback_enabled ≡ true)
        × (add_time c.created_at e <ℤ i.now +ℤ (i.ready_timeout +ℤ i.drain_bound)))
unfolding surgeless_fallback
surgeless_fallback_iff c i e x hs ha = (
  λ h. let (on, lt) = enabled_of h in (on, omega (arith, lt, -ℤ_parts, +ℤ_parts)),
  λ (on, lt).
      rw (x, surgeless_fallback)
        (rw on (
          rw
            (
              sub_time-eq (add_time c.created_at e) i.now hs,
              add_duration-eq i.ready_timeout i.drain_bound ha,
            )
            (lt→ltb _ _ (omega (arith, -ℤ_parts, +ℤ_parts))))),
)
  where
    enabled_of :
        surgeless_fallback c i ≡ true
        → (i.fallback_enabled ≡ true)
          × (add_time c.created_at e -ℤ i.now <ℤ i.ready_timeout +ℤ i.drain_bound)
    enabled_of h = ground (
      arith,
      sub_time-eq (add_time c.created_at e) i.now hs,
      add_duration-eq i.ready_timeout i.drain_bound ha,
    )
