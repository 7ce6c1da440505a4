-- ===== src/Ops/Lifecycle/Polling.antt =====
-- The loop of crates/servicemanager-ops/src/lifecycle.rs that waits for the stop ends in time.
use ngsm.Prelude.{
  ℕ, zero, suc, ◌+◌, ◌-◌, ◌≤◌, ◌<◌, min, ◌≡◌, refl, ◌≢◌, inl, inr, Bool, true, false, Option, none,
  some, arith, leb, Bool-cases,
}
use ngsm.Text.{Text}
use ngsm.Result.{Result, ok, err}
use ngsm.Core.Error.{Error}
use ngsm.Core.Model.{is_disabled, counts_as_stopped}
use ngsm.Ops.Lifecycle.{
  RestartBackend, RestartSnapshot, is_stopped, poll_round, wait_for_stop, start_again, after_wait,
  after_stop, restart_known, stop_first, restart_allowed, restart_using,
}

-- What is assumed of the clock: it does not run backwards, and a sleep lasts as long as it was asked to
-- at least.
pub record ClockLaws (b : RestartBackend) : Type 0 where
  pub clock : b.World → ℕ
  pub query_forward : (w : b.World) → clock w ≤ clock (b.query w).1
  pub now_reads : (w : b.World) → (clock w ≤ (b.now w).0) × ((b.now w).0 ≤ clock (b.now w).1)
  pub sleep_lasts : (d : ℕ) (w : b.World) → clock w + d ≤ clock (b.sleep d w)

module _ (b : RestartBackend) (laws : ClockLaws b) (name : Text) (stop_timeout_ms : ℕ) where
  -- The world in which the next round begins.
  abbrev next : ℕ → b.World → b.World
  next began w = b.sleep (min 200 (stop_timeout_ms - ((b.now w).0 - began))) (b.now w).1

  poll_round_ends :
      (more : b.World → Option (Result Error (Unit {0})) × b.World) (began : ℕ) (w : b.World)
      → (leb stop_timeout_ms ((b.now w).0 - began) ≡ false → (more (next began w)).0 ≢ none)
      → (r : Result Error RestartSnapshot)
      → (poll_round b name stop_timeout_ms more began r w).0 ≢ none
  unfolding poll_round
  poll_round_ends more began w again (err e) = λ h. cc
  poll_round_ends more began w again (ok snapshot) = elim (Bool-cases (is_stopped snapshot.state)) [
    | inl done ↦ rw done (λ h. cc)
    | inr waiting ↦ elim (Bool-cases (leb stop_timeout_ms ((b.now w).0 - began))) [
      | inl late ↦ rw (waiting, late) (λ h. cc)
      | inr early ↦ rw (waiting, early) (again early)
    ]
  ]

  wait_for_stop_ends :
      (fuel began : ℕ) (w : b.World)
      → stop_timeout_ms + began < laws.clock w + suc fuel
      → (wait_for_stop b name stop_timeout_ms (suc fuel) began w).0 ≢ none
  unfolding wait_for_stop
  wait_for_stop_ends zero began w enough =
      poll_round_ends (λ v. wait_for_stop b name stop_timeout_ms zero began v) began (b.query w).1
        (λ early.
          let f = laws.query_forward w in
          let g = (laws.now_reads (b.query w).1).0 in absurd (ground arith))
        (b.query w).0
  wait_for_stop_ends (suc n) began w enough =
      poll_round_ends (λ v. wait_for_stop b name stop_timeout_ms (suc n) began v) began
        (b.query w).1
        (λ early.
          let w₁ = (b.query w).1 in
          let f = laws.query_forward w in
          let g = laws.now_reads w₁ in
          let s =
            laws.sleep_lasts (min 200 (stop_timeout_ms - ((b.now w₁).0 - began))) (b.now w₁).1 in
          wait_for_stop_ends n began (next began w₁) (ground arith))
        (b.query w).0

  after_wait_ends :
      (r : Option (Result Error (Unit {0}))) (w : b.World)
      → r ≢ none
      → (after_wait b name stop_timeout_ms r w).0 ≢ none
  unfolding after_wait start_again
  after_wait_ends none w h = absurd (h refl)
  after_wait_ends (some (err e)) w h = λ q. cc
  after_wait_ends (some (ok u)) w h = λ q. cc

  after_stop_ends :
      (r : Result Error (Unit {0})) (w : b.World) → (after_stop b name stop_timeout_ms r w).0 ≢ none
  unfolding after_stop
  after_stop_ends (err e) w = λ h. cc
  after_stop_ends (ok u) w =
      let began = (b.now w).0 in
      let w₁ = (b.now w).1 in
      let ended =
        wait_for_stop_ends stop_timeout_ms began w₁ (let g = (laws.now_reads w).1 in omega arith) in
      after_wait_ends (wait_for_stop b name stop_timeout_ms (suc stop_timeout_ms) began w₁).0
        (wait_for_stop b name stop_timeout_ms (suc stop_timeout_ms) began w₁).1 ended

  restart_known_ends :
      (r : Result Error RestartSnapshot) (w : b.World)
      → (restart_known b name stop_timeout_ms r w).0 ≢ none
  unfolding restart_known start_again
  restart_known_ends (err e) w = λ h. cc
  restart_known_ends (ok snapshot) w = elim (Bool-cases (is_disabled snapshot.startup)) [
    | inl off ↦ rw off (λ h. cc)
    | inr on ↦ elim (Bool-cases (counts_as_stopped snapshot.state)) [
      | inl idle ↦ rw (on, idle) (λ h. cc)
      | inr active ↦
          rw (on, active)
            (after_stop_ends (stop_first b name stop_timeout_ms snapshot w).0
              (stop_first b name stop_timeout_ms snapshot w).1)
    ]
  ]

  restart_allowed_ends :
      (r : Result Error (Unit {0})) (w : b.World)
      → (restart_allowed b name stop_timeout_ms r w).0 ≢ none
  unfolding restart_allowed
  restart_allowed_ends (err e) w = λ h. cc
  restart_allowed_ends (ok u) w = restart_known_ends (b.query w).0 (b.query w).1

  -- A restart always answers, whatever the service control manager says: on a clock that does not run
  -- backwards, the wait for the stop is over when the timeout is, so one round of polling for each of
  -- its milliseconds, and one more, is enough.
  pub restart_using_ends :
      (force_native : Bool) (w : b.World)
      → (restart_using b name stop_timeout_ms force_native w).0 ≢ none
  unfolding restart_using
  restart_using_ends true w = restart_allowed_ends (ok tt) w
  restart_using_ends false w = restart_allowed_ends (b.ensure_managed w).0 (b.ensure_managed w).1
