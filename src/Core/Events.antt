-- ===== src/Core/Events.antt =====
-- The event records of crates/servicemanager-core/src/events.rs.
use ngsm.Prelude.{ℕ, Option}
use ngsm.Text.{Text}
use ngsm.Text.Integer.{ℤ}

pub data EventKind : Type 0 where
  started_event stopped_event child_exited restarted throttled : EventKind

pub data StopReason : Type 0 where
  scm_stop : StopReason

pub record EventRecord : Type 0 where
  pub ts : Text
  pub service : Text
  pub event : EventKind
  pub pid : Option ℕ
  pub exit_code : Option ℤ
  pub lived_ms : Option ℕ
  pub delay_ms : Option ℕ
  pub reason : Option StopReason
