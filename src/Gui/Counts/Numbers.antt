-- ===== src/Gui/Counts/Numbers.antt =====
-- Which services each count of crates/servicemanager-gui/src/metrics.rs is the number of.
use ngsm.Prelude.{ℕ, ◌+◌, ◌≡◌, ◌↔◌, Bool, true, ◌&&◌, Option, List, [], ◌∷◌, if◌then◌else◌}
use ngsm.Text.{Text}
use ngsm.Core.Model.{ServiceDefinition}
use ngsm.Core.Events.{EventRecord}
use ngsm.Core.ImagePath.{is_managed}
use ngsm.Gui.Counts.{
  Counts, is_running_state, is_stopped_state, is_manual, state_of, last_event, classify_failed,
  classify_auto_recovering, count_service,
}
use ngsm.Gui.Counts.Classes.{HasFailed, IsRecovering}
use ngsm.Gui.Counts.Consistent.{IsConsistent}

-- The number of services with a property.
abbrev pub number_of : (ServiceDefinition → Bool) → List ServiceDefinition → ℕ
number_of p [] = 0
number_of p (d ∷ defs) = if p d then number_of p defs + 1 else number_of p defs

module _ (parse_ts : Text → Option ℕ) (events : Text → Option (List (ℕ × EventRecord)))
    (now : ℕ) where
  abbrev pub last_of : ServiceDefinition → Option EventRecord
  last_of d = last_event (events d.native.name)

  abbrev pub is_failed : ServiceDefinition → Bool
  is_failed d = classify_failed parse_ts (state_of d) (last_of d) now

  abbrev pub is_recovering : ServiceDefinition → Bool
  is_recovering d = classify_auto_recovering parse_ts (state_of d) (last_of d) now

  abbrev next_of : ServiceDefinition → Counts → Counts
  next_of d c = count_service parse_ts now (state_of d) (is_manual d.native.startup) (last_of d) c

  -- The counts, by the services that they are the numbers of.
  pub record Counted (defs : List ServiceDefinition) (c : Counts) : Type 0 where
    pub managed_ones : c.total ≡ number_of is_managed defs
    pub running_ones :
        c.running_count ≡ number_of (λ d. is_managed d && is_running_state (state_of d)) defs
    pub stopped_ones :
        c.stopped_count ≡ number_of (λ d. is_managed d && is_stopped_state (state_of d)) defs
    pub manual_ones :
        c.manual_start
        ≡ number_of
            (λ d. is_managed d && (is_stopped_state (state_of d) && is_manual d.native.startup))
            defs
    pub failed_ones : c.failed ≡ number_of (λ d. is_managed d && is_failed d) defs
    pub recovering_ones : c.auto_recovering ≡ number_of (λ d. is_managed d && is_recovering d) defs
    pub failed_are :
        (d : ServiceDefinition)
        → is_failed d ≡ true ↔ HasFailed parse_ts now (state_of d) (last_of d)
    pub recovering_are :
        (d : ServiceDefinition)
        → is_recovering d ≡ true ↔ IsRecovering parse_ts now (state_of d) (last_of d)
    pub fits : IsConsistent c
