-- ===== src/Gui.antt =====
-- crates/servicemanager-gui: the statistics of the dashboard.
pub mod Uptime
pub mod Counts
