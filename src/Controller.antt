-- ===== src/Controller.antt =====
-- internal/controller/rotation_controller.go: the rotation state machine of one NodePool.
pub mod World
pub mod Reads
pub mod Api
pub mod Anchor
pub mod Ending
pub mod Pending
pub mod Failing
pub mod Dispatch
pub mod Hoare
pub mod Resolve
pub mod Edge
pub mod Moves
pub mod Walk
pub mod Start
pub mod Windows
pub mod Sweep
pub mod Reconcile
pub mod Series
pub mod Calm
pub mod Warnings
pub mod Watch
pub mod PolicyStatus
pub mod Observe
pub mod Create
