-- ===== src/Examples.antt =====
-- Concrete inputs: each theorem at one of them, and tests of the definitions.
pub mod Stamps
mod SelectionCases
mod ControllerCases
mod ScheduleCases
mod SurgeCases
mod DecideCases
mod NodeCases
mod PolicyCases
mod PassCases
mod SizingCases
mod WindowCases
mod SimCases
mod WarningCases
mod SweepCases
mod StatusCases
