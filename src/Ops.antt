-- ===== src/Ops.antt =====
-- crates/servicemanager-ops: the operations on services.
pub mod Specs
pub mod Backend
pub mod Edit
pub mod InstallChecks
pub mod Lifecycle
pub mod Services
pub mod ExitKeys
pub mod Recovery
