-- ===== src/Sim.antt =====
-- internal/sim: the simulator of a fleet under a policy. The world that it keeps: the virtual
-- environment, the slots of the fleet, the rotation in flight, and the timeline.
pub mod Resolve
pub mod Fleet
pub mod Loop
pub mod Intervals
pub mod Start
pub mod Drive
pub mod Report
use Prim.Native.String.{◌++◌ as append}
use node_rotation_controller.Base.{
  ℕ, zero, suc, String, Bool, Option, none, some, List, [], ◌∷◌, ℤ, pos, Time, Duration,
  Annotations, add_time, itoa, minutes,
}
use node_rotation_controller.Schedule.{Severity}
use node_rotation_controller.Schedule
use node_rotation_controller.Schedule.Derive
use node_rotation_controller.Selection.{LeadTime}
use node_rotation_controller.Selection.Census.{Census}
use node_rotation_controller.Decide.{Gate}

abbrev pub tick : Duration
tick = minutes 1

abbrev pub max_steps : ℕ
max_steps = 2_000_000

pub record Env : Type 0 where
  pub provisioning : Duration
  pub drain : Duration

pub record FleetNode : Type 0 where
  pub name : String
  pub created_at : Time
  pub expire_after : Option Duration
  pub tgp : Option Duration

-- Fleet: the values of the template, and the nodes.
pub record FleetSpec : Type 0 where
  pub expire_after : Duration
  pub tgp : Option Duration
  pub nodes : List FleetNode

pub record Options : Type 0 where
  pub start : Time
  pub end_of : Time

pub record SimResolved : Type 0 where
  pub lead_time : LeadTime
  pub override : Option Duration
  pub retry_backoff : Duration
  pub ready_timeout : Duration
  pub cooldown : Duration
  pub failure_pause : Duration
  pub drain_bound : Duration
  pub derived : Derive.Result
  pub inputs : Schedule.Inputs

pub data Kind : Type 0 where
  window_open window_close rotation_start node_is_ready rotation_done : Kind
  expire_after_breach blocked_by_gate no_eligible_claim : Kind

-- Event: the fields that a kind does not use are left at their zero values.
pub record SimEvent : Type 0 where
  pub kind : Kind
  pub at : Time
  pub until : Time
  pub node : String
  pub replacement : String
  pub surgeless : Bool
  pub gate : Gate
  pub census : Option Census

pub data BirthMode : Type 0 where
  birth_initial birth_surge birth_surgeless : BirthMode

pub data DrainCapSource : Type 0 where
  drain_cap_explicit drain_cap_fallback : DrainCapSource

pub record Generation : Type 0 where
  pub slot : ℕ
  pub gen : ℕ
  pub name : String
  pub birth_mode : BirthMode
  pub predecessor_gen : Option ℕ
  pub created_at : Time
  pub expire_after : Duration
  pub drain_cap : Duration
  pub drain_cap_source : DrainCapSource
  pub deadline : Time
  pub eligibility_boundary : Time
  pub ready_at : Time
  pub provisional : Bool

pub data RotationMode : Type 0 where
  rotation_surge rotation_surgeless : RotationMode

pub record Rotation : Type 0 where
  pub slot : ℕ
  pub from_gen : ℕ
  pub to_gen : Option ℕ
  pub mode : RotationMode
  pub start : Time
  pub ready : Time
  pub done : Time

pub record WindowInterval : Type 0 where
  pub start : Time
  pub end_of : Time
  pub start_clipped : Bool
  pub end_clipped : Bool

-- The text of a diagnostic is rendered from a subject and durations.
pub record Diagnostic : Type 0 where
  pub severity : Severity
  pub code : String
  pub subject : String
  pub amounts : List ℤ

-- Timeline, its Events with the latest first.
pub record Timeline : Type 0 where
  pub events : List SimEvent
  pub generations : List Generation
  pub rotations : List Rotation
  pub windows : List WindowInterval
  pub simulated_through : Time
  pub diagnostics : List Diagnostic
  pub partial : Bool

-- simNode: a slot of the fleet.
pub record SimNode : Type 0 where
  pub base : String
  pub gen : ℕ
  pub created_at : Time
  pub expire_after : Duration
  pub tgp : Option Duration
  pub state : String
  pub breached : Bool

-- name
unfoldable pub name_of : SimNode → String
name_of n = elim n.gen [ zero ↦ n.base | suc g ↦ append n.base (append "-r" (itoa (pos n.gen))) ]

unfoldable pub deadline : SimNode → Time
deadline n = add_time n.created_at n.expire_after

-- rotation: the one in flight. gen_idx is -1 on the surge-less path, here none.
pub record InFlight : Type 0 where
  pub slot : ℕ
  pub start : Time
  pub ready_at : Time
  pub done_at : Time
  pub surgeless : Bool
  pub rot_idx : ℕ
  pub gen_idx : Option ℕ

pub record Run : Type 0 where
  pub res : SimResolved
  pub env : Env
  pub opts : Options
  pub fallback_enabled : Bool
  pub template : FleetSpec
  pub nodes : List SimNode
  pub pool_ann : Annotations
  pub rot : Option InFlight
  pub tl : Timeline
  pub block_from : Time
  pub block_gate : Gate
  pub census_from : Time
  pub census : Option Census
  pub win_open : Bool
