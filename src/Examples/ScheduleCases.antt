-- ===== src/Examples/ScheduleCases.antt =====
-- internal/schedule/schedule.go at a weekly window.
use node_rotation_controller.Base.{
  false, ◌≡◌, refl, none, pos, minutes, add_duration, wrap64, ◌+ℤ◌, sub_duration, ◌-ℤ◌,
}
use node_rotation_controller.Schedule.{Inputs}
use node_rotation_controller.Schedule.Division.{ceil_div}
use node_rotation_controller.Schedule.Derive.{
  derive, has_fatal, throughput, threshold, forecast, resolve_provisioning_estimate,
  resolve_drain_estimate, layer1, layer2, mul_int,
}
use node_rotation_controller.Schedule.Derive.Sound.{IsKept, derive-IsKept}

abbrev weekly : Inputs
weekly = record {
  expire_after = minutes 30_000;
  tgp = minutes 60;
  tgp_was_unset = false;
  period = minutes 10_080;
  window_len = minutes 240;
  idle_gap = none;
  ready_timeout = minutes 15;
  cooldown = minutes 10;
  drain_estimate = none;
  provisioning_estimate = none;
  retry_backoff = minutes 30;
  chances = pos 2;
  max_unavailable = pos 1;
  node_count = pos 0;
  override = none;
}

no_fatal : has_fatal (derive weekly).findings ≡ false
unfolding has_fatal derive throughput add_duration wrap64 ◌+ℤ◌ threshold forecast
    resolve_provisioning_estimate resolve_drain_estimate layer1 sub_duration ◌-ℤ◌ mul_int layer2
    ceil_div
no_fatal = refl

derive-IsKept_example : IsKept weekly (derive weekly)
derive-IsKept_example = derive-IsKept weekly no_fatal
