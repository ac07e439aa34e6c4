-- ===== src/Policy/Valid.antt =====
-- Policy.Validate: no error is found just in a policy that is well-formed.
use node_rotation_controller.Base.{◌≡◌, ◌↔◌, []}
use node_rotation_controller.Policy.{
  Policy, Formats, problem_if, is_negative, is_few, is_not_one, duration_problems,
  age_threshold_override, is_bad_override, few_chances, max_unavailable_not_one, negative_cooldown,
  bad_age_threshold, no_windows, windows_problems, has_no_windows, validate,
}
use node_rotation_controller.Policy.Shape.{IsWellFormed}
use node_rotation_controller.Policy.Parts.{
  nil-append, append-nil, none_if, if_none, few_iff, one_iff, cooldown_iff, override_iff,
  no_windows_iff, windows_iff, durations_iff,
}

-- Validate finds no problem just in a well-formed policy: chances and durations that are set are in
-- range, one node at a time, a threshold that is auto or a positive duration, and at least one
-- window, each with a known zone, known days and an end after its start.
pub validate-IsWellFormed_iff :
    ⦃formats : Formats⦄ → (p : Policy) → (validate p ≡ []) ↔ IsWellFormed p
unfolding validate
validate-IsWellFormed_iff p = (
  (λ h.
      let a = nil-append (problem_if (is_few p.min_rotation_chances) few_chances) _ h in
      let b =
        nil-append (problem_if (is_not_one p.surge.max_unavailable) max_unavailable_not_one) _
          a.1 in
      let c = nil-append (duration_problems p.surge) _ b.1 in
      let d =
        nil-append (problem_if (is_negative p.surge.cooldown_after) negative_cooldown) _ c.1 in
      let e =
        nil-append (problem_if (is_bad_override (age_threshold_override p)) bad_age_threshold) _
          d.1 in
      let f = nil-append (problem_if (has_no_windows p.maintenance_windows) no_windows) _ e.1 in
      let g = nil-append (windows_problems 0 p.maintenance_windows) _ f.1 in
      let ds = (durations_iff p.surge).0 c.0 in
      record {
        chances = (few_iff p.min_rotation_chances).0 (none_if _ _ a.0);
        one_at_a_time = (one_iff p.surge.max_unavailable).0 (none_if _ _ b.0);
        ready_timeout = ds.0;
        retry_backoff = ds.1;
        drain_estimate = ds.2;
        provisioning_estimate = ds.3;
        failure_pause = ds.4;
        cooldown = (cooldown_iff p.surge.cooldown_after).0 (none_if _ _ d.0);
        age = (override_iff p).0 (none_if _ _ e.0);
        has_windows = (no_windows_iff p.maintenance_windows).0 (none_if _ _ f.0);
        windows = (windows_iff 0 p.maintenance_windows).0 g.0;
        no_pre_pull = none_if _ _ g.1;
      }),
  (λ w. append-nil _ _ (if_none _ _ ((few_iff p.min_rotation_chances).1 w.chances)) (
      append-nil _ _ (if_none _ _ ((one_iff p.surge.max_unavailable).1 w.one_at_a_time)) (
        append-nil _ _
          ((durations_iff p.surge).1 (
            w.ready_timeout, w.retry_backoff, w.drain_estimate, w.provisioning_estimate,
            w.failure_pause,
          ))
          (append-nil _ _ (if_none _ _ ((cooldown_iff p.surge.cooldown_after).1 w.cooldown)) (
            append-nil _ _ (if_none _ _ ((override_iff p).1 w.age)) (
              append-nil _ _ (if_none _ _ ((no_windows_iff p.maintenance_windows).1 w.has_windows))
                (append-nil _ _ ((windows_iff 0 p.maintenance_windows).1 w.windows)
                  (if_none _ _ w.no_pre_pull)))))))),
)
