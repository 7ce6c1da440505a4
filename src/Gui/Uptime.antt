-- ===== src/Gui/Uptime.antt =====
-- The up-intervals of crates/servicemanager-gui/src/metrics.rs. A time is a number on one scale.
pub mod Timeline
use ngsm.Prelude.{
  ℕ, ◌+◌, max, Bool, true, false, Option, none, some, List, [], ◌∷◌, ◌++◌, ltb, if◌then◌else◌,
}
use ngsm.Core.Model.{ServiceState, running, paused, pause_pending, continue_pending, stop_pending}
use ngsm.Core.Events.{EventKind, started_event, stopped_event, child_exited, restarted, throttled}

abbrev pub Interval : Type 0
Interval = ℕ × ℕ

-- The two variables of the loop.
pub record Progress : Type 0 where
  pub intervals : List Interval
  pub up_since : Option ℕ

abbrev pub is_up_event : EventKind → Bool
is_up_event started_event = true
is_up_event restarted = true
is_up_event child_exited = false
is_up_event stopped_event = false
is_up_event throttled = false

-- A start that is already known changes nothing.
unfoldable pub opened : Option ℕ → ℕ → Option ℕ
opened none at = some at
opened (some s) at = some s

unfoldable pub closed : List Interval → Option ℕ → ℕ → List Interval
closed intervals none at = intervals
closed intervals (some s) at = if ltb s at then intervals ++ ((s, at) ∷ []) else intervals

unfoldable pub record_event : ℕ → EventKind → Progress → Progress
unfolding opened closed
record_event at kind p =
    if is_up_event kind
    then record p { up_since = opened p.up_since at }
    else record { intervals = closed p.intervals p.up_since at; up_since = none }

unfoldable pub replay : ℕ → List (ℕ × EventKind) → Progress → Progress
unfolding record_event
replay start [] p = p
replay start ((ts, kind) ∷ events) p = replay start events (record_event (max ts start) kind p)

abbrev pub is_live : Option ServiceState → Bool
is_live (some running) = true
is_live (some paused) = true
is_live (some pause_pending) = true
is_live (some continue_pending) = true
is_live (some stop_pending) = true
is_live _ = false

-- A service with an open start is up until now if its host is live; otherwise its tail is unknown.
unfoldable pub finish : ℕ → Option ServiceState → Progress → List Interval × Bool
unfolding closed
finish now state p = elim p.up_since [
  | none ↦ (p.intervals, false)
  | some s ↦ if is_live state then (closed p.intervals (some s) now, false) else (p.intervals, true)
]

unfoldable pub build_up_intervals :
    List (ℕ × EventKind) → ℕ → ℕ → Option ServiceState → List Interval × Bool
unfolding replay finish
build_up_intervals events start now state =
    finish now state (replay start events (record { intervals = []; up_since = none }))
