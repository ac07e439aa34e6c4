-- ===== src/Sim/Resolve/Agree.antt =====
-- The simulator of internal/sim/resolve.go and the controller resolve a policy alike.
use node_rotation_controller.Base.{
  Bool, sym, ◌∙◌, add_duration, if◌then◌else◌, Option, none, some, ◌≡◌, refl, ap, length, Time,
  Duration,
}
use node_rotation_controller.Policy.{Policy, Formats, age_threshold_override}
use node_rotation_controller.Schedule.Derive.{Result, derive}
use node_rotation_controller.Schedule.{buffer, drain_fallback}
use node_rotation_controller.Window.{Zones, Schedule as Windows}
use node_rotation_controller.Controller.Reads.{Resolved}
use node_rotation_controller.Controller.Resolve.{
  PoolSpec, Config, Calendar, resolve, derived_thresholds, derive_inputs, pool_tgp,
  resolve_failure_pause,
}
use node_rotation_controller.Controller.Windows.{calendar}
use node_rotation_controller.Sim.{FleetSpec, SimResolved}
use node_rotation_controller.Sim.Resolve.{
  template_tgp, or_floor, sim_inputs, resolve_with, sim_resolve,
}

-- What the simulator keeps of the controller's resolution and of its derivation.
abbrev pub AgreesWith : SimResolved → Resolved → Result → Type 0
AgreesWith s res derived =
    (s.lead_time ≡ res.lead_time)
    × (s.override ≡ res.override)
    × (s.retry_backoff ≡ res.retry_backoff)
    × (s.ready_timeout ≡ res.ready_timeout)
    × (s.cooldown ≡ res.cooldown)
    × (s.failure_pause ≡ res.failure_pause)
    × (s.drain_bound ≡ res.drain_bound)
    × (s.derived ≡ derived)

-- The pool that a fleet stands for.
pub record IsPoolOf (pool : PoolSpec) (f : FleetSpec) : Type 0 where
  pub same_expire_after : pool.template_expire_after ≡ some f.expire_after
  pub same_tgp : pool.template_tgp ≡ f.tgp

pool_tgp-template_tgp :
    (pool : PoolSpec) (o : Option Duration) → pool.template_tgp ≡ o → pool_tgp pool ≡ template_tgp o
unfolding pool_tgp
pool_tgp-template_tgp pool none h = rw (h, pool_tgp) refl
pool_tgp-template_tgp pool (some d) h = rw (h, pool_tgp) refl

pause_alike :
    (o : Option Duration) (cooldown : Duration)
    → or_floor o cooldown ≡ resolve_failure_pause o cooldown
unfolding resolve_failure_pause
pause_alike none cooldown = refl
pause_alike (some d) cooldown = refl

module _ ⦃formats : Formats⦄ ⦃zones : Zones⦄ where
  resolve-override :
      (config : Config) (pool : PoolSpec) (pol : Policy) (sched : Calendar) (o : Option Duration)
      → age_threshold_override pol ≡ some o
      → (resolve config pool pol sched).override ≡ o
  unfolding resolve
  resolve-override config pool pol sched o h = rw h refl

  module _ (config : Config) (pool : PoolSpec) (pol : Policy) (sched : Windows) (f : FleetSpec)
      (now : Time) where
    abbrev pub controllers : Resolved
    controllers = resolve config pool pol (calendar sched now)

    inputs_alike :
        (o : Option Duration)
        → age_threshold_override pol ≡ some o
        → IsPoolOf pool f
        → sim_inputs pol sched f o
          ≡ derive_inputs pool controllers (calendar sched now) (length f.nodes) f.expire_after
    unfolding sim_inputs derive_inputs resolve calendar
    inputs_alike o h p =
        rw
          (
            pool_tgp-template_tgp pool f.tgp p.same_tgp,
            resolve-override config pool pol (calendar sched now) o h,
          )
          refl

    derived_alike :
        IsPoolOf pool f
        → derive
            (derive_inputs pool controllers (calendar sched now) (length f.nodes) f.expire_after)
          ≡ derived_thresholds pool controllers (calendar sched now) (length f.nodes)
    unfolding derived_thresholds resolve pool_tgp derive_inputs
    derived_alike p = rw (p.same_expire_after, derived_thresholds) refl

    pub agrees :
        (o : Option Duration)
        → age_threshold_override pol ≡ some o
        → IsPoolOf pool f
        → AgreesWith
            (resolve_with pol sched f o)
            controllers
            (derived_thresholds pool controllers (calendar sched now) (length f.nodes))
    unfolding resolve_with sim_inputs resolve calendar
    agrees o h p = (
      refl,
      sym (resolve-override config pool pol (calendar sched now) o h),
      refl,
      refl,
      refl,
      pause_alike pol.surge.failure_pause _,
      ap (λ (t : Duration × Bool). if t.1 then drain_fallback else add_duration t.0 buffer)
          (sym (pool_tgp-template_tgp pool f.tgp p.same_tgp)),
      ap derive (inputs_alike o h p) ∙ derived_alike p,
    )

-- Where the ageThreshold can be read and the pool's template is the fleet's, the simulator's
-- resolution of a policy is there and agrees with the controller's, at any instant, and its
-- derivation with the one that the controller makes of as many claims as the fleet has nodes.
pub sim_resolve-agrees :
    ⦃formats : Formats⦄ ⦃zones : Zones⦄ (config : Config) (pool : PoolSpec) (pol : Policy)
    (sched : Windows) (f : FleetSpec) (now : Time) (o : Option Duration)
    → age_threshold_override pol ≡ some o
    → IsPoolOf pool f
    → (s : SimResolved) × (sim_resolve pol sched f ≡ some s)
      × AgreesWith s (resolve config pool pol (calendar sched now)) (
          derived_thresholds pool
            (resolve config pool pol (calendar sched now))
            (calendar sched now)
            (length f.nodes))
unfolding sim_resolve resolve_with
sim_resolve-agrees config pool pol sched f now o h p =
    (resolve_with pol sched f o, rw (h, sim_resolve) refl, agrees config pool pol sched f now o h p)
