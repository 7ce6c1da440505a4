-- ===== src/Registry.antt =====
-- crates/servicemanager-registry/src/imp.rs: the configuration of a managed service in the Windows registry.
pub mod Bytes
pub mod Decode
pub mod MultiValue
pub mod NssmKeys
pub mod Names
pub mod ExitActions
pub mod Preflight
pub mod Store
pub mod Laws
pub mod Reading
pub mod SingleValue
pub mod Scrub
pub mod Write
pub mod Read
