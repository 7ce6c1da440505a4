-- ===== src/Gui/Counts.antt =====
-- The counts of the dashboard in crates/servicemanager-gui/src/metrics.rs. Times are in milliseconds, and
-- `parse_ts`, of the time crate, is a parameter.
pub mod Consistent
pub mod Classes
pub mod Numbers
use ngsm.Prelude.{
  ℕ, ◌+◌, ◌-◌, min, Bool, true, false, not, ◌&&◌, Option, none, some, List, [], ◌∷◌, leb, ◌==◌,
  if◌then◌else◌,
}
use ngsm.Text.{Text}
use ngsm.Text.Integer.{ℤ, pos, negsuc}
use ngsm.Core.Model.{
  ServiceDefinition, ServiceState, running, stopped, start_pending, StartupType, manual,
}
use ngsm.Core.Events.{
  EventKind, EventRecord, started_event, stopped_event, child_exited, restarted, throttled,
}
use ngsm.Core.ImagePath.{is_managed}

pub record Counts : Type 0 where
  pub total : ℕ
  pub running_count : ℕ
  pub stopped_count : ℕ
  pub manual_start : ℕ
  pub failed : ℕ
  pub auto_recovering : ℕ

abbrev pub no_counts : Counts
no_counts = record {
  total = 0;
  running_count = 0;
  stopped_count = 0;
  manual_start = 0;
  failed = 0;
  auto_recovering = 0;
}

abbrev pub is_running_state : Option ServiceState → Bool
is_running_state (some running) = true
is_running_state _ = false

abbrev pub is_stopped_state : Option ServiceState → Bool
is_stopped_state (some stopped) = true
is_stopped_state _ = false

abbrev pub may_recover : Option ServiceState → Bool
may_recover (some running) = true
may_recover (some start_pending) = true
may_recover _ = false

abbrev pub is_child_exit : EventKind → Bool
is_child_exit child_exited = true
is_child_exit _ = false

abbrev pub is_throttled : EventKind → Bool
is_throttled throttled = true
is_throttled _ = false

abbrev pub is_manual : StartupType → Bool
is_manual manual = true
is_manual _ = false

-- `matches!(exit_code, None | Some(0))`
abbrev pub is_clean_exit : Option ℤ → Bool
is_clean_exit none = true
is_clean_exit (some (pos n)) = n == 0
is_clean_exit (some (negsuc n)) = false

abbrev pub state_of : ServiceDefinition → Option ServiceState
state_of d = elim d.runtime [ none ↦ none | some r ↦ some r.state ]

abbrev pub last_event : Option (List (ℕ × EventRecord)) → Option EventRecord
last_event none = none
last_event (some []) = none
last_event (some ((ts, r) ∷ [])) = some r
last_event (some (first ∷ r ∷ rest)) = last_event (some (r ∷ rest))

abbrev pub grace_ms : Option ℕ → ℕ
grace_ms none = 300000
grace_ms (some ms) = min ms 4294967295 + 30000

module _ (parse_ts : Text → Option ℕ) where
  -- A record from the future or with no valid time has no age.
  unfoldable pub age_within : ℕ → ℕ → EventRecord → Bool
  age_within now limit r = elim (parse_ts r.ts) [
    | none ↦ false
    | some ts ↦ leb ts now && leb (now - ts) limit
  ]

  unfoldable pub classify_failed : Option ServiceState → Option EventRecord → ℕ → Bool
  unfolding age_within
  classify_failed state none now = false
  classify_failed state (some r) now =
      is_stopped_state state
      && (is_child_exit r.event && (not (is_clean_exit r.exit_code) && age_within now 86400000 r))

  unfoldable pub classify_auto_recovering : Option ServiceState → Option EventRecord → ℕ → Bool
  unfolding age_within
  classify_auto_recovering state none now = false
  classify_auto_recovering state (some r) now =
      may_recover state && (is_throttled r.event && age_within now (grace_ms r.delay_ms) r)

  unfoldable pub add_if : Bool → ℕ → ℕ
  add_if true n = n + 1
  add_if false n = n

  -- One turn of the loop, for a managed service.
  unfoldable pub count_service :
      ℕ → Option ServiceState → Bool → Option EventRecord → Counts → Counts
  unfolding classify_failed classify_auto_recovering add_if
  count_service now state starts_manually last c = record {
    total = c.total + 1;
    running_count = add_if (is_running_state state) c.running_count;
    stopped_count = add_if (is_stopped_state state) c.stopped_count;
    manual_start = add_if (is_stopped_state state && starts_manually) c.manual_start;
    failed = add_if (classify_failed state last now) c.failed;
    auto_recovering = add_if (classify_auto_recovering state last now) c.auto_recovering;
  }

  unfoldable pub count_each :
      (Text → Option (List (ℕ × EventRecord))) → ℕ → List ServiceDefinition → Counts → Counts
  unfolding count_service is_managed
  count_each events now [] c = c
  count_each events now (d ∷ defs) c = count_each events now defs (
      if is_managed d
      then count_service now (state_of d) (is_manual d.native.startup)
          (last_event (events d.native.name)) c
      else c)

  unfoldable pub compute_counts :
      List ServiceDefinition → (Text → Option (List (ℕ × EventRecord))) → ℕ → Counts
  unfolding count_each
  compute_counts defs events now = count_each events now defs no_counts
