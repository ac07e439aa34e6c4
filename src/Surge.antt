-- ===== src/Surge.antt =====
-- internal/surge: what a placeholder must reserve, and which capacity an attempt brought.
pub mod Pods
pub mod Path
pub mod Quantity
pub mod Clamp
pub mod WholeNode
pub mod Headroom
pub mod Name
pub mod Placeholder
pub mod Sizing
