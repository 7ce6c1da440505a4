-- ===== src/Ops/Lifecycle.antt =====
-- The restart of crates/servicemanager-ops/src/lifecycle.rs. Times are in milliseconds.
pub mod Polling
pub mod Started
use ngsm.Prelude.{
  ℕ, zero, suc, ◌-◌, min, Bool, true, false, ◌||◌, Option, none, some, ◌++◌, leb, if◌then◌else◌,
}
use ngsm.Text.{Text, text, contains_text}
use ngsm.Text.Decimal.{show}
use ngsm.Result.{Result, ok, err}
use ngsm.Action.{Act}
use ngsm.Core.Error.{Error, other, to_string}
use ngsm.Core.Model.{
  ServiceState, stopped, stop_pending, StartupType, is_disabled, counts_as_stopped,
}

pub record RestartSnapshot : Type 0 where
  pub startup : StartupType
  pub state : Option ServiceState

-- The service control manager and the clock, for the service that is restarted.
pub record RestartBackend : Type 1 where
  pub World : Type 0
  pub ensure_managed : Act World Error (Unit {0})
  pub query : Act World Error RestartSnapshot
  pub stop : Act World Error (Unit {0})
  pub start : Act World Error (Unit {0})
  pub now : World → ℕ × World
  pub sleep : ℕ → World → World

abbrev pub is_stopped : Option ServiceState → Bool
is_stopped (some stopped) = true
is_stopped _ = false

abbrev pub is_stop_pending : Option ServiceState → Bool
is_stop_pending (some stop_pending) = true
is_stop_pending _ = false

unfoldable pub is_service_not_active_error : Error → Bool
unfolding to_string
is_service_not_active_error error =
    contains_text (text "0x80070426") (to_string error)
    || contains_text (text "has not been started") (to_string error)

abbrev pub late_error : Text → ℕ → Error
late_error name stop_timeout_ms =
    other (
      text "'" ++ (name ++ (text "' did not stop within " ++ (show stop_timeout_ms ++ text " ms"))))

module _ (b : RestartBackend) (name : Text) (stop_timeout_ms : ℕ) where
  -- A run may be cut off by its fuel: then there is no answer.
  abbrev Run : Type 0 → Type 0
  Run A = Option (Result Error A) × b.World

  -- A stop that is refused because the service is not active is no failure.
  unfoldable pub tolerate : Result Error (Unit {0}) → Result Error (Unit {0})
  unfolding is_service_not_active_error
  tolerate (ok u) = ok u
  tolerate (err e) = if is_service_not_active_error e then ok tt else err e

  unfoldable pub stop_first : RestartSnapshot → Act b.World Error (Unit {0})
  unfolding tolerate
  stop_first snapshot w =
      if is_stop_pending snapshot.state
      then (ok tt, w)
      else let (r, w') = b.stop w in (tolerate r, w')

  -- A round of the loop after its query; `more` is the rest of the loop.
  unfoldable pub poll_round :
      (b.World → Run (Unit {0})) → ℕ → Result Error RestartSnapshot → b.World → Run (Unit {0})
  poll_round more began (err e) w = (some (err e), w)
  poll_round more began (ok snapshot) w =
      if is_stopped snapshot.state
      then (some (ok tt), w)
      else (let (time, w') = b.now w in
          let elapsed = time - began in
          if leb stop_timeout_ms elapsed
          then (some (err (late_error name stop_timeout_ms)), w')
          else more (b.sleep (min 200 (stop_timeout_ms - elapsed)) w'))

  unfoldable pub wait_for_stop : ℕ → ℕ → b.World → Run (Unit {0})
  unfolding poll_round
  wait_for_stop zero began w = (none, w)
  wait_for_stop (suc fuel) began w =
      let (r, w') = b.query w in poll_round (λ v. wait_for_stop fuel began v) began r w'

  abbrev pub started_text : Result Error (Unit {0}) → Result Error Text
  started_text (ok _) = ok (text "Restarted '" ++ (name ++ text "'."))
  started_text (err e) = err e

  unfoldable pub start_again : b.World → Run Text
  start_again w = let (r, w') = b.start w in (some (started_text r), w')

  unfoldable pub after_wait : Option (Result Error (Unit {0})) → b.World → Run Text
  unfolding start_again
  after_wait none w = (none, w)
  after_wait (some (err e)) w = (some (err e), w)
  after_wait (some (ok _)) w = start_again (b.sleep 250 w)

  -- A round sleeps for a millisecond at least, so the loop has fuel enough for its whole timeout.
  unfoldable pub after_stop : Result Error (Unit {0}) → b.World → Run Text
  unfolding wait_for_stop after_wait
  after_stop (err e) w = (some (err e), w)
  after_stop (ok _) w =
      let (began, w₁) = b.now w in
      let (r, w₂) = wait_for_stop (suc stop_timeout_ms) began w₁ in after_wait r w₂

  unfoldable pub restart_known : Result Error RestartSnapshot → b.World → Run Text
  unfolding start_again stop_first after_stop
  restart_known (err e) w = (some (err e), w)
  restart_known (ok snapshot) w =
      if is_disabled snapshot.startup
      then (
        some (
            err (other (text "'" ++ (name ++ text "' is disabled — enable it before restarting")))),
        w,
      )
      else if counts_as_stopped snapshot.state
      then start_again w
      else (let (r, w') = stop_first snapshot w in after_stop r w')

  unfoldable pub restart_allowed : Result Error (Unit {0}) → b.World → Run Text
  unfolding restart_known
  restart_allowed (err e) w = (some (err e), w)
  restart_allowed (ok _) w = let (r, w') = b.query w in restart_known r w'

  unfoldable pub restart_using : Bool → b.World → Run Text
  unfolding restart_allowed
  restart_using force_native w =
      if force_native
      then restart_allowed (ok tt) w
      else (let (r, w') = b.ensure_managed w in restart_allowed r w')
