-- ===== src/Core.antt =====
-- Data model, validation and expansion (crates/servicemanager-core/src).
pub mod Error
pub mod Model
pub mod ImagePath
pub mod Validate
pub mod Quote
pub mod Expansion
pub mod Events
