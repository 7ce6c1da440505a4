-- ===== src/Win32.antt =====
-- Windows process control (crates/servicemanager-win32/src).
pub mod ProcessTree
