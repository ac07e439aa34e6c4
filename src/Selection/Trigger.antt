-- ===== src/Selection/Trigger.antt =====
-- The age trigger against its description by the claim's own deadline.
use node_rotation_controller.Base.{
  ◌≡◌, ◌↔◌, true, none, some, arith, ℤ, ◌+ℤ◌, ◌-ℤ◌, ◌<ℤ◌, ltb_ℤ, IsInt64, +ℤ_parts, -ℤ_parts,
  wrap64_of_IsInt64, saturate64_of_IsInt64, Duration, Time, sub_time, sub_duration, add_duration,
  add_time, ltb→lt, lt→ltb,
}
use node_rotation_controller.Selection.{Claim, Inputs, lead_time_for, triggered}

pub sub_time-eq : (t u : Time) → IsInt64 (t -ℤ u) → sub_time t u ≡ t -ℤ u
unfolding sub_time
sub_time-eq t u h = saturate64_of_IsInt64 (t -ℤ u) h

pub sub_duration-eq : (d e : Duration) → IsInt64 (d -ℤ e) → sub_duration d e ≡ d -ℤ e
unfolding sub_duration
sub_duration-eq d e h = wrap64_of_IsInt64 (d -ℤ e) h

pub add_duration-eq : (d e : Duration) → IsInt64 (d +ℤ e) → add_duration d e ≡ d +ℤ e
unfolding add_duration
add_duration-eq d e h = wrap64_of_IsInt64 (d +ℤ e) h

triggered-auto :
    (c : Claim) (i : Inputs) (e : Duration)
    → i.override ≡ none
    → c.expire_after ≡ some e
    → IsInt64 (i.now -ℤ c.created_at)
    → IsInt64 (e -ℤ lead_time_for i.lead_time c)
    → triggered c i ≡ ltb_ℤ (e -ℤ lead_time_for i.lead_time c) (i.now -ℤ c.created_at)
unfolding triggered
triggered-auto c i e o x ha he =
    ground
      (arith, sub_time-eq i.now c.created_at ha, sub_duration-eq e (lead_time_for i.lead_time c) he)

past_deadline_iff :
    (now created e lead : ℤ)
    → (ltb_ℤ (e -ℤ lead) (now -ℤ created) ≡ true) ↔ (add_time created e -ℤ lead <ℤ now)
unfolding add_time
past_deadline_iff now created e lead = (
  λ h. omega (arith, ltb→lt _ _ h, -ℤ_parts, +ℤ_parts),
  λ h. lt→ltb _ _ (omega (arith, -ℤ_parts, +ℤ_parts)),
)

-- In auto mode, when neither the age nor the threshold leaves the range of an int64, a claim is
-- triggered exactly when now is past its own deadline less its own lead time.
pub triggered-iff-past_deadline :
    (c : Claim) (i : Inputs) (e : Duration)
    → i.override ≡ none
    → c.expire_after ≡ some e
    → IsInt64 (i.now -ℤ c.created_at)
    → IsInt64 (e -ℤ lead_time_for i.lead_time c)
    → (triggered c i ≡ true) ↔ (add_time c.created_at e -ℤ lead_time_for i.lead_time c <ℤ i.now)
triggered-iff-past_deadline c i e o x ha he =
    rw (triggered-auto c i e o x ha he)
      (past_deadline_iff i.now c.created_at e (lead_time_for i.lead_time c))
