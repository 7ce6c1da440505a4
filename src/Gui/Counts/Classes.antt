-- ===== src/Gui/Counts/Classes.antt =====
-- Which services crates/servicemanager-gui/src/metrics.rs classifies as failed and as recovering.
use ngsm.Prelude.{
  ℕ, ◌-◌, ◌≤◌, ◌≡◌, refl, ◌≢◌, ◌↔◌, ◌⊎◌, inl, inr, true, false, ◌&&◌, not, Option, none, some,
  arith, leb, ◌==◌, ==_iff, Bool-cases,
}
use ngsm.Text.{Text}
use ngsm.Text.Integer.{ℤ, pos, negsuc}
use ngsm.Core.Model.{
  ServiceState, running, stopped, start_pending, stop_pending, continue_pending, pause_pending,
  paused, unknown_state,
}
use ngsm.Core.Events.{
  EventKind, EventRecord, started_event, stopped_event, child_exited, restarted, throttled,
}
use ngsm.Gui.Counts.{
  is_stopped_state, may_recover, is_child_exit, is_throttled, is_clean_exit, grace_ms, age_within,
  classify_failed, classify_auto_recovering,
}

is_child_exit_iff : (k : EventKind) → is_child_exit k ≡ true ↔ k ≡ child_exited
is_child_exit_iff child_exited = (λ h. refl, λ h. refl)
is_child_exit_iff started_event = (λ h. cc, λ h. cc)
is_child_exit_iff stopped_event = (λ h. cc, λ h. cc)
is_child_exit_iff restarted = (λ h. cc, λ h. cc)
is_child_exit_iff throttled = (λ h. cc, λ h. cc)

is_throttled_iff : (k : EventKind) → is_throttled k ≡ true ↔ k ≡ throttled
is_throttled_iff throttled = (λ h. refl, λ h. refl)
is_throttled_iff started_event = (λ h. cc, λ h. cc)
is_throttled_iff stopped_event = (λ h. cc, λ h. cc)
is_throttled_iff restarted = (λ h. cc, λ h. cc)
is_throttled_iff child_exited = (λ h. cc, λ h. cc)

is_stopped_state_iff : (s : Option ServiceState) → is_stopped_state s ≡ true ↔ s ≡ some stopped
is_stopped_state_iff none = (λ h. cc, λ h. cc)
is_stopped_state_iff (some stopped) = (λ h. refl, λ h. refl)
is_stopped_state_iff (some start_pending) = (λ h. cc, λ h. cc)
is_stopped_state_iff (some stop_pending) = (λ h. cc, λ h. cc)
is_stopped_state_iff (some running) = (λ h. cc, λ h. cc)
is_stopped_state_iff (some continue_pending) = (λ h. cc, λ h. cc)
is_stopped_state_iff (some pause_pending) = (λ h. cc, λ h. cc)
is_stopped_state_iff (some paused) = (λ h. cc, λ h. cc)
is_stopped_state_iff (some unknown_state) = (λ h. cc, λ h. cc)

may_recover_iff :
    (s : Option ServiceState) → may_recover s ≡ true ↔ (s ≡ some running) ⊎ (s ≡ some start_pending)
may_recover_iff s = (forth s, back s)
  where
    forth :
        (s : Option ServiceState)
        → may_recover s ≡ true
        → (s ≡ some running) ⊎ (s ≡ some start_pending)
    forth none h = cc
    forth (some running) h = inl refl
    forth (some start_pending) h = inr refl
    forth (some stopped) h = cc
    forth (some stop_pending) h = cc
    forth (some continue_pending) h = cc
    forth (some pause_pending) h = cc
    forth (some paused) h = cc
    forth (some unknown_state) h = cc

    back :
        (s : Option ServiceState)
        → (s ≡ some running) ⊎ (s ≡ some start_pending)
        → may_recover s ≡ true
    back s (inl up) = rw up refl
    back s (inr starting) = rw starting refl

-- The exit code is there and is not 0.
abbrev pub IsError : Option ℤ → Type 0
IsError code = (z : ℤ) × (code ≡ some z) × (z ≢ pos 0)

is_clean_exit_iff : (code : Option ℤ) → not (is_clean_exit code) ≡ true ↔ IsError code
is_clean_exit_iff code = (forth code, back code)
  where
    forth : (code : Option ℤ) → not (is_clean_exit code) ≡ true → IsError code
    forth none h = cc
    forth (some (pos n)) h = (pos n, refl, λ e. let same : n ≡ 0 = cc e in cc (rw same at h))
    forth (some (negsuc n)) h = (negsuc n, refl, λ e. cc e)

    back : (code : Option ℤ) → IsError code → not (is_clean_exit code) ≡ true
    back none e = cc e.1
    back (some (pos n)) e = elim (Bool-cases (n == 0)) [
      | inr other ↦ rw other refl
      | inl zero_code ↦ absurd (e.2 (zero_is n e.0 e.1 ((==_iff n 0).0 zero_code)))
    ]
      where
        zero_is : (m : ℕ) (z : ℤ) → ◌≡◌ {A = Option ℤ} (some (pos m)) (some z) → m ≡ 0 → z ≡ pos 0
        zero_is m z h same = cc (h, same)
    back (some (negsuc n)) e = refl

module _ (parse_ts : Text → Option ℕ) (now : ℕ) where
  -- The time of the record is at most `limit` milliseconds before now, and not after it.
  abbrev pub IsRecent : EventRecord → ℕ → Type 0
  IsRecent r limit = (ts : ℕ) × (parse_ts r.ts ≡ some ts) × (ts ≤ now) × (now - ts ≤ limit)

  -- It is stopped, and its last record is an exit of its child with an error, in the last 24 hours.
  abbrev pub HasFailed : Option ServiceState → Option EventRecord → Type 0
  HasFailed state last =
      (r : EventRecord) × (last ≡ some r)
      × (state ≡ some stopped)
      × (r.event ≡ child_exited)
      × IsError r.exit_code
      × IsRecent r 86400000

  -- It is running or starting, and its last record is a throttled restart whose delay, with the grace, is not over.
  abbrev pub IsRecovering : Option ServiceState → Option EventRecord → Type 0
  IsRecovering state last =
      (r : EventRecord) × (last ≡ some r)
      × ((state ≡ some running) ⊎ (state ≡ some start_pending))
      × (r.event ≡ throttled)
      × IsRecent r (grace_ms r.delay_ms)

  age_within_iff :
      (limit : ℕ) (r : EventRecord) → age_within parse_ts now limit r ≡ true ↔ IsRecent r limit
  unfolding age_within
  age_within_iff limit r = (forth (parse_ts r.ts), back)
    where
      forth :
          (t : Option ℕ)
          → (elim t [ none ↦ false | some ts ↦ leb ts now && leb (now - ts) limit ]) ≡ true
          → (ts : ℕ) × (t ≡ some ts) × (ts ≤ now) × (now - ts ≤ limit)
      forth none h = cc
      forth (some ts) h = (ts, refl, ground arith, ground arith)

      back :
          IsRecent r limit
          → (elim (parse_ts r.ts) [ none ↦ false | some ts ↦ leb ts now && leb (now - ts) limit ])
            ≡ true
      back (ts, there, past, recent) = rw there (ground arith)

  pub classify_failed_iff :
      (state : Option ServiceState) (last : Option EventRecord)
      → classify_failed parse_ts state last now ≡ true ↔ HasFailed state last
  unfolding classify_failed
  classify_failed_iff state last = (forth last, back)
    where
      forth :
          (l : Option EventRecord) → classify_failed parse_ts state l now ≡ true → HasFailed state l
      forth none h = cc
      forth (some r) h = (
        r,
        refl,
        (is_stopped_state_iff state).0 (ground arith),
        (is_child_exit_iff r.event).0 (ground arith),
        (is_clean_exit_iff r.exit_code).0 (ground arith),
        (age_within_iff 86400000 r).0 (ground arith),
      )

      back : HasFailed state last → classify_failed parse_ts state last now ≡ true
      back (r, same, halted, exited, unclean, recent) =
          rw
            (
              same,
              (is_stopped_state_iff state).1 halted,
              (is_child_exit_iff r.event).1 exited,
              (is_clean_exit_iff r.exit_code).1 unclean,
              (age_within_iff 86400000 r).1 recent,
            )
            refl

  pub classify_auto_recovering_iff :
      (state : Option ServiceState) (last : Option EventRecord)
      → classify_auto_recovering parse_ts state last now ≡ true ↔ IsRecovering state last
  unfolding classify_auto_recovering
  classify_auto_recovering_iff state last = (forth last, back)
    where
      forth :
          (l : Option EventRecord)
          → classify_auto_recovering parse_ts state l now ≡ true
          → IsRecovering state l
      forth none h = cc
      forth (some r) h = (
        r,
        refl,
        (may_recover_iff state).0 (ground arith),
        (is_throttled_iff r.event).0 (ground arith),
        (age_within_iff (grace_ms r.delay_ms) r).0 (ground arith),
      )

      back : IsRecovering state last → classify_auto_recovering parse_ts state last now ≡ true
      back (r, same, up, late, recent) =
          rw
            (
              same,
              (may_recover_iff state).1 up,
              (is_throttled_iff r.event).1 late,
              (age_within_iff (grace_ms r.delay_ms) r).1 recent,
            )
            refl
