-- ===== src/Ops/Services.antt =====
-- The guarded operations of crates/servicemanager-ops: the checks of src/helpers.rs, the controls of
-- src/lifecycle.rs and the removal of src/remove.rs.
pub mod Guarded
pub mod Removed
use ngsm.Prelude.{ℕ, ◌+◌, ◌-◌, Bool, true, false, not, Option, none, some, ◌++◌, if◌then◌else◌}
use ngsm.Text.{Text, text}
use ngsm.Result.{Result, ok, err, map_err}
use ngsm.Action.{Act, pure, fail, from_result, ◌>>=◌, ◌>>◌}
use ngsm.Core.Error.{Error, invalid_config, other, to_string}
use ngsm.Core.Model.{
  NativeServiceConfig, ManagedApplicationConfig, ServiceRuntimeState, ServiceDefinition,
  ServiceState, is_disabled, counts_as_stopped,
}
use ngsm.Core.ImagePath.{is_managed}

pub record NativeService : Type 0 where
  pub config : NativeServiceConfig
  pub runtime : Option ServiceRuntimeState
  pub query_error : Option Text

pub data ServiceControlSignal : Type 0 where
  stop_signal pause_signal continue_signal interrogate_signal : ServiceControlSignal
  user_signal : ℕ → ServiceControlSignal

-- The service control manager and the registry.
pub record ServiceBackend : Type 1 where
  pub World : Type 0
  pub lock_service_config : Text → Act World Error (Unit {0})
  pub query_service : Text → Act World Error NativeService
  pub read_managed_config : Text → Act World Error (Option ManagedApplicationConfig)
  pub delete_managed_config : Text → Act World Error (Unit {0})
  pub control_service : Text → ServiceControlSignal → Act World Error (Unit {0})
  pub start_service : Text → Act World Error (Unit {0})
  pub remove_service : Text → Act World Error (Unit {0})

abbrev pub definition_of : NativeService → Option ManagedApplicationConfig → ServiceDefinition
definition_of snapshot managed = record {
  native = snapshot.config;
  managed = managed;
  runtime = snapshot.runtime;
}

abbrev pub state_seen : NativeService → Option ServiceState
state_seen snapshot = elim snapshot.runtime [ none ↦ none | some r ↦ some r.state ]

abbrev pub quoted : Text → Text → Text
quoted name rest = text "'" ++ (name ++ (text "'" ++ rest))

abbrev pub confirmed : Result Error (Option ManagedApplicationConfig) → Result Error Bool
confirmed (ok none) = ok false
confirmed (ok (some c)) = ok true
confirmed (err e) = ok false

module _ (b : ServiceBackend) where
  -- An unreadable configuration is an error, so that nobody takes the service for a native one.
  unfoldable pub read_or :
      Text → (Error → Error) → Act b.World Error (Option ManagedApplicationConfig)
  read_or name wrap w = let (r, w') = b.read_managed_config name w in (map_err wrap r, w')

  unfoldable pub ensure_ngsm_managed : Text → Act b.World Error (Unit {0})
  unfolding read_or is_managed
  ensure_ngsm_managed name = do
    native ← b.query_service name
    managed ← read_or name (λ e. other (
        quoted name (
          text ": managed ownership cannot be determined — its managed config is unreadable ("
          ++ (to_string e ++ text ")"))))
    if is_managed (definition_of native managed)
        then pure tt
        else fail (
            other (
              quoted name
                (text " is not an NGSM-managed service — refusing the lifecycle operation")))

  unfoldable pub ensure_enabled : Text → Act b.World Error (Unit {0})
  ensure_enabled name = do
    native ← b.query_service name
    if is_disabled native.config.startup
        then fail (other (quoted name (text " is disabled — enable it before starting")))
        else pure tt

  unfoldable pub start : Text → Act b.World Error Text
  unfolding ensure_ngsm_managed ensure_enabled
  start name = do
    ensure_ngsm_managed name
    ensure_enabled name
    b.start_service name
    pure (text "Start requested for '" ++ (name ++ text "'."))

  unfoldable pub signal : Text → ServiceControlSignal → Text → Act b.World Error Text
  unfolding ensure_ngsm_managed
  signal name control label = do
    ensure_ngsm_managed name
    b.control_service name control
    pure (label ++ (text " requested for '" ++ (name ++ text "'.")))

  unfoldable pub stop : Text → Act b.World Error Text
  unfolding signal
  stop name = signal name stop_signal (text "Stop")

  unfoldable pub pause : Text → Act b.World Error Text
  unfolding signal
  pause name = signal name pause_signal (text "Pause")

  unfoldable pub continue_service : Text → Act b.World Error Text
  unfolding signal
  continue_service name = signal name continue_signal (text "Continue")

  unfoldable pub check_ownership : Text → Bool → NativeService → Act b.World Error (Unit {0})
  unfolding read_or is_managed
  check_ownership name true native = pure tt
  check_ownership name false native = do
    managed ← read_or name (λ e. other (
        quoted name (
          text ": managed ownership cannot be determined — its managed config is unreadable ("
          ++ (to_string e ++ text "); refusing to remove it"))))
    if is_managed (definition_of native managed)
        then pure tt
        else fail
            (other (quoted name (text " is not an NGSM-managed service — refusing to remove it")))

  -- Only a confirmed configuration of NGSM is scrubbed.
  unfoldable pub is_managed_for_purge : Text → Act b.World Error Bool
  is_managed_for_purge name w = let (r, w') = b.read_managed_config name w in (confirmed r, w')

  unfoldable pub purge : Text → Act b.World Error (Unit {0})
  unfolding is_managed_for_purge
  purge name = do
    ours ← is_managed_for_purge name
    if ours
        then (λ w.
            let (r, w') = b.delete_managed_config name w in
            (
              map_err
                  (λ e.
                    other
                      (text "service removed, but managed config cleanup failed: " ++ to_string e))
                  r,
              w',
            ))
        else pure tt

  unfoldable pub remove_stopped : Text → NativeService → Act b.World Error Text
  unfolding purge
  remove_stopped name native =
      if counts_as_stopped (state_seen native)
      then (do b.remove_service name; purge name; pure (text "Removed '" ++ (name ++ text "'.")))
      else fail (other (quoted name (text " is not stopped — stop it before removing it")))

  unfoldable pub remove : Text → Bool → Bool → Act b.World Error Text
  unfolding check_ownership remove_stopped
  remove name force_native purge_managed_config =
      if purge_managed_config
      then (do
        b.lock_service_config name
        native ← b.query_service name
        check_ownership name force_native native
        remove_stopped name native)
      else fail (
          invalid_config (
            text
              "cannot preserve managed config during removal: Windows SCM deletes the service registry subtree, including Parameters. Export or back up the configuration before removing the service; --no-purge-config is unsupported."))
