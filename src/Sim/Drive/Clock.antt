-- ===== src/Sim/Drive/Clock.antt =====
-- The virtual clock of internal/sim/loop.go moves on, and not past the next minute.
use node_rotation_controller.Base.{
  ◌+◌, ◌-◌, ◌*◌, ◌/◌, ◌%◌, Bool, true, false, Option, none, some, ℤ, pos, negsuc, ◌≤ℤ◌, ◌<ℤ◌,
  +ℤ_parts, Time, add_time, nanos_per_minute, arith, if◌then◌else◌,
}
use node_rotation_controller.Sim.{InFlight, Run, tick}
use node_rotation_controller.Sim.Loop.{truncate_tick, next, next_with, sooner}

-- The minute that an instant lies in starts at or before it, less than a minute ago.
truncate_tick_bounds : (t : Time) → (truncate_tick t ≤ℤ t) × (t <ℤ add_time (truncate_tick t) tick)
unfolding truncate_tick add_time
truncate_tick_bounds (pos n) =
    let s = +ℤ_parts (pos (n - n % nanos_per_minute)) tick in (omega arith, omega arith)
truncate_tick_bounds (negsuc n) =
    let s = +ℤ_parts (negsuc ((n / nanos_per_minute + 1) * nanos_per_minute - 1)) tick in
    (omega arith, omega arith)

sooner_bounds : (now t n : Time) → now <ℤ n → (now <ℤ sooner now t n) × (sooner now t n ≤ℤ n)
sooner_bounds now t n h = ground arith

le_trans : (a b c : ℤ) → a ≤ℤ b → b ≤ℤ c → a ≤ℤ c
le_trans a b c h k = omega arith

next_with_bounds :
    (now n : Time) (rot : Option InFlight)
    → now <ℤ n
    → (now <ℤ next_with now n rot) × (next_with now n rot ≤ℤ n)
next_with_bounds now n none h = (h, omega arith)
next_with_bounds now n (some rot) h =
    let (a, b) = ready_bounds rot.surgeless rot.ready_at in
    let (c, d) = sooner_bounds now rot.done_at _ a in (c, le_trans _ _ n d b)
  where
    ready_bounds :
        (surgeless : Bool) (t : Time)
        → (now <ℤ (if surgeless then n else sooner now t n))
          × ((if surgeless then n else sooner now t n) ≤ℤ n)
    ready_bounds true t = (h, omega arith)
    ready_bounds false t = sooner_bounds now t n h

-- The next instant lies after the present one, by a minute at most, whatever is in flight.
pub next-advances : (r : Run) (now : Time) → (now <ℤ next r now) × (next r now ≤ℤ add_time now tick)
unfolding next add_time
next-advances r now =
    let (a, b) = truncate_tick_bounds now in
    let (c, d) = next_with_bounds now (add_time (truncate_tick now) tick) r.rot b in
    (c, le_trans _ _ (add_time now tick) d (add_tick_mono (truncate_tick now) now a))
  where
    add_tick_mono : (s t : Time) → s ≤ℤ t → add_time s tick ≤ℤ add_time t tick
    add_tick_mono s t h = let a = +ℤ_parts s tick in let b = +ℤ_parts t tick in omega arith
