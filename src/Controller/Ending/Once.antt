-- ===== src/Controller/Ending/Once.antt =====
-- completeOrAbort: an anchor that is released is announced, and none is announced twice.
use node_rotation_controller.Base.{
  ℕ, suc, ◌+◌, String, Bool, true, false, Option, none, some, List, ◌≡◌, ◌≢◌, inl, inr, refl, arith,
  count_if, Annotations, get, str_eq, str_eq_iff, Time, Bool-cases, if◌then◌else◌,
}
use node_rotation_controller.Annotations.{
  TimeText, parse_time, active_rotation, active_rotation_state, state_draining, draining_at,
}
use node_rotation_controller.NodeOps.{Node}
use node_rotation_controller.Controller.World.{
  Attempt, goes_through, fails, lags, lags_gone, Signal, success, expired, Effect, reported, World,
}
use node_rotation_controller.Controller.Api.{
  Written, gone, vetoed, written, report, patch_pool_if, patch_pool_by, pool_through, lagging, tick,
  first_attempt, delete_placeholder, unfreeze_nodes,
}
use node_rotation_controller.Controller.Anchor.{clear_rotation_anchor_fields}
use node_rotation_controller.Controller.Ending.{
  long_requeue, complete_edit, observe_drain, announce, complete_or_abort,
}
use node_rotation_controller.Controller.Hoare.{
  After, Triple, bind-Triple, Keeps, IsLocal, pure-Keeps, delete_placeholder-Keeps,
  unfreeze_nodes-Keeps, run-Keeps,
}

-- The outcomes that the metrics count.
abbrev is_outcome : Effect → Bool
is_outcome (reported success) = true
is_outcome (reported (expired name)) = true
is_outcome _ = false

abbrev pub anchored : String → Annotations → ℕ
anchored name m = if str_eq (get m active_rotation) name then 1 else 0

-- Outcomes announced, and the one that the anchor of this claim still owes.
abbrev pub balance : String → World → ℕ
balance name w = count_if is_outcome w.effects + anchored name w.pool

module _ (name : String) (n : ℕ) where
  abbrev Owes : World → Type 0
  Owes w = balance name w ≡ n

  abbrev Owes-IsLocal : IsLocal Owes
  Owes-IsLocal = record {
    on_tick = λ w p. p;
    on_node = λ w a ns p. p;
    on_create = λ w a ps p. p;
    on_drop = λ w a ps p. p;
    on_claim = λ w a c m p. p;
  }

  -- After the write that releases the anchor, one outcome is owed.
  abbrev OwesAfter : Written → World → Type 0
  OwesAfter (written before after) w = suc (balance name w) ≡ n
  OwesAfter _ w = Owes w

  report_outcome-Triple :
      (s : Signal)
      → is_outcome (reported s) ≡ true
      → Triple Owes (λ w. suc (balance name w) ≡ n) (report s) (λ u. Owes)
  unfolding report
  report_outcome-Triple success h = record { holds = λ w p. omega (arith, p) }
  report_outcome-Triple (expired a) h = record { holds = λ w p. omega (arith, p) }
  report_outcome-Triple _ h = cc

  anchored_here :
      (m : Annotations) → str_eq (get m active_rotation) name ≡ true → anchored name m ≡ 1
  anchored_here m e = rw e refl

  anchored_cleared :
      (m : Annotations) → name ≢ "" → anchored name (clear_rotation_anchor_fields m) ≡ 0
  unfolding clear_rotation_anchor_fields
  anchored_cleared m ne = ground (arith, str_eq_iff "" name)

  module _ ⦃text : TimeText⦄ (now : Time) where
    release-Owes :
        name ≢ ""
        → (w : World) → Owes w
        → After Owes OwesAfter (pool_through w.pool (complete_edit name now w.pool) w)
    release-Owes ne w p = elim (Bool-cases (str_eq (get w.pool active_rotation) name)) [
      | inl e ↦ rw e omega (arith, p, anchored_here w.pool e, anchored_cleared _ ne)
      | inr e ↦ rw e p
    ]

    lagging-Owes :
        (s : Annotations) (o : Option Annotations) (w : World)
        → Owes w
        → After Owes OwesAfter (lagging s o w)
    lagging-Owes s none w p = p
    lagging-Owes s (some m) w p = p

    release-Triple : name ≢ "" → Triple Owes Owes (patch_pool_if (complete_edit name now)) OwesAfter
    unfolding patch_pool_if
    release-Triple ne = record { holds = λ w p. go w p (first_attempt w.script) }
      where
        go :
            (w : World)
            → Owes w
            → (a : Attempt)
            → After Owes OwesAfter (patch_pool_by a (complete_edit name now) (tick w))
        go w p goes_through = release-Owes ne (tick w) p
        go w p fails = p
        go w p (lags b s) = lagging-Owes s (complete_edit name now s) (tick w) p
        go w p lags_gone = p

    observe_drain-Keeps : (o : Option Time) → Keeps Owes (observe_drain o now)
    unfolding report
    observe_drain-Keeps none = pure-Keeps tt
    observe_drain-Keeps (some at) = record { holds = λ w p. p }

    announce-Triple : (r : Written) → Triple Owes (OwesAfter r) (announce name now r) (λ a. Owes)
    announce-Triple gone = pure-Keeps long_requeue
    announce-Triple (vetoed seen) = pure-Keeps long_requeue
    announce-Triple (written before after) =
        elim (Bool-cases (str_eq (get before active_rotation_state) state_draining)) [
          | inl e ↦ rw e (
              bind-Triple (report success) _ (report_outcome-Triple success refl) (λ u.
                bind-Triple (observe_drain (parse_time (get before draining_at)) now) _
                  (observe_drain-Keeps _) (λ v. pure-Keeps long_requeue)))
          | inr e ↦ rw e (
              bind-Triple (report (expired name)) _ (report_outcome-Triple (expired name) refl)
                (λ u. pure-Keeps long_requeue))
        ]

    complete_or_abort-Keeps :
        (listed : Option (List Node)) → name ≢ "" → Keeps Owes (complete_or_abort name now listed)
    unfolding complete_or_abort
    complete_or_abort-Keeps listed ne =
        bind-Triple (delete_placeholder name) _ (delete_placeholder-Keeps Owes-IsLocal name) (λ u.
          bind-Triple (unfreeze_nodes listed name) _ (unfreeze_nodes-Keeps Owes-IsLocal listed name)
            (λ v.
              bind-Triple (patch_pool_if (complete_edit name now)) _ (release-Triple ne)
                announce-Triple))

-- A completion counts an outcome when and only when it releases the anchor of its claim, which
-- has a name that is not empty: whatever calls of the API fail or lag, the number of successes
-- and expiries announced, plus one while the pool is anchored to the claim, stays what it was.
pub complete_or_abort-balance :
    ⦃text : TimeText⦄
    → (name : String) (now : Time) (listed : Option (List Node)) (w : World) → name ≢ ""
    → balance name (complete_or_abort name now listed w).1 ≡ balance name w
complete_or_abort-balance name now listed w ne =
    run-Keeps (complete_or_abort name now listed)
      (complete_or_abort-Keeps name (balance name w) now listed ne) w refl
