-- ===== src/Gui/Counts/Consistent.antt =====
-- How the counts of crates/servicemanager-gui/src/metrics.rs relate.
use ngsm.Prelude.{
  ℕ, ◌+◌, ◌≤◌, ◌≡◌, refl, inl, inr, Bool, true, false, ◌&&◌, Option, none, some, List, [], ◌∷◌,
  arith, &&-left, Bool-cases,
}
use ngsm.Text.{Text}
use ngsm.Core.Model.{
  ServiceDefinition, ServiceState, running, stopped, start_pending, stop_pending, continue_pending,
  pause_pending, paused, unknown_state,
}
use ngsm.Core.Events.{EventRecord}
use ngsm.Core.ImagePath.{is_managed}
use ngsm.Gui.Counts.{
  Counts, no_counts, is_running_state, is_stopped_state, may_recover, classify_failed,
  classify_auto_recovering, add_if, count_service, count_each, compute_counts,
}

pub record IsConsistent (c : Counts) : Type 0 where
  pub states : c.running_count + c.stopped_count ≤ c.total
  pub manual_stopped : c.manual_start ≤ c.stopped_count
  pub failed_stopped : c.failed ≤ c.stopped_count
  pub recovering_up : c.auto_recovering + c.stopped_count ≤ c.total

module _ (parse_ts : Text → Option ℕ) where
  failed_is_stopped :
      (state : Option ServiceState) (last : Option EventRecord) (now : ℕ)
      → classify_failed parse_ts state last now ≡ true
      → is_stopped_state state ≡ true
  unfolding classify_failed
  failed_is_stopped state none now h = cc
  failed_is_stopped state (some r) now h = &&-left (is_stopped_state state) _ h

  recovering_is_up :
      (state : Option ServiceState) (last : Option EventRecord) (now : ℕ)
      → classify_auto_recovering parse_ts state last now ≡ true
      → may_recover state ≡ true
  unfolding classify_auto_recovering
  recovering_is_up state none now h = cc
  recovering_is_up state (some r) now h = &&-left (may_recover state) _ h

  running_apart :
      (state : Option ServiceState) → is_running_state state ≡ true → is_stopped_state state ≡ false
  running_apart (some running) h = refl
  running_apart none h = cc
  running_apart (some stopped) h = cc
  running_apart (some start_pending) h = cc
  running_apart (some stop_pending) h = cc
  running_apart (some continue_pending) h = cc
  running_apart (some pause_pending) h = cc
  running_apart (some paused) h = cc
  running_apart (some unknown_state) h = cc

  recovering_apart :
      (state : Option ServiceState) → may_recover state ≡ true → is_stopped_state state ≡ false
  recovering_apart (some running) h = refl
  recovering_apart none h = cc
  recovering_apart (some stopped) h = cc
  recovering_apart (some start_pending) h = refl
  recovering_apart (some stop_pending) h = cc
  recovering_apart (some continue_pending) h = cc
  recovering_apart (some pause_pending) h = cc
  recovering_apart (some paused) h = cc
  recovering_apart (some unknown_state) h = cc

  add_if_le :
      (x y : Bool) {m n : ℕ}
      → (x ≡ true → y ≡ true)
      → m ≤ n
      → add_if parse_ts x m ≤ add_if parse_ts y n
  unfolding add_if
  add_if_le true true g h = omega arith
  add_if_le true false g h = cc (g refl)
  add_if_le false true g h = omega arith
  add_if_le false false g h = h

  add_if_apart :
      (x y : Bool) (m n t : ℕ)
      → (x ≡ true → y ≡ false)
      → m + n ≤ t
      → add_if parse_ts x m + add_if parse_ts y n ≤ t + 1
  unfolding add_if
  add_if_apart true true m n t g h = cc (g refl)
  add_if_apart true false m n t g h = omega arith
  add_if_apart false true m n t g h = omega arith
  add_if_apart false false m n t g h = omega arith

  count_service-IsConsistent :
      (now : ℕ) (state : Option ServiceState) (starts_manually : Bool) (last : Option EventRecord)
      (c : Counts)
      → IsConsistent c
      → IsConsistent (count_service parse_ts now state starts_manually last c)
  unfolding count_service
  count_service-IsConsistent now state m last c h = record {
    states =
        add_if_apart (is_running_state state) (is_stopped_state state) _ _ _ (running_apart state)
          h.states;
    manual_stopped =
        add_if_le (is_stopped_state state && m) (is_stopped_state state)
          (&&-left (is_stopped_state state) m) h.manual_stopped;
    failed_stopped =
        add_if_le (classify_failed parse_ts state last now) (is_stopped_state state)
          (failed_is_stopped state last now) h.failed_stopped;
    recovering_up =
        add_if_apart (classify_auto_recovering parse_ts state last now) (is_stopped_state state) _ _
          _ (λ q. recovering_apart state (recovering_is_up state last now q)) h.recovering_up;
  }

  count_each-IsConsistent :
      (events : Text → Option (List (ℕ × EventRecord))) (now : ℕ) (defs : List ServiceDefinition)
      (c : Counts)
      → IsConsistent c
      → IsConsistent (count_each parse_ts events now defs c)
  unfolding count_each
  count_each-IsConsistent events now [] c h = h
  count_each-IsConsistent events now (d ∷ defs) c h = elim (Bool-cases (is_managed d)) [
    | inl ours ↦
        rw ours
          (count_each-IsConsistent events now defs _ (count_service-IsConsistent now _ _ _ c h))
    | inr theirs ↦ rw theirs (count_each-IsConsistent events now defs c h)
  ]

  pub totals-IsConsistent :
      (defs : List ServiceDefinition) (events : Text → Option (List (ℕ × EventRecord))) (now : ℕ)
      → IsConsistent (compute_counts parse_ts defs events now)
  unfolding compute_counts
  totals-IsConsistent defs events now = count_each-IsConsistent events now defs no_counts (record {
    states = omega arith;
    manual_stopped = omega arith;
    failed_stopped = omega arith;
    recovering_up = omega arith;
  })
