-- ===== src/Supervisor.antt =====
-- The process supervisor (crates/servicemanager-supervisor/src).
pub mod Transition
pub mod ProcessControl
pub mod Environment
pub mod Hooks
pub mod Rotation
pub mod ExitActions
