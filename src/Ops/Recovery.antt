-- ===== src/Ops/Recovery.antt =====
-- crates/servicemanager-ops/src/recovery.rs.
pub mod Saved
use ngsm.Prelude.{◌+◌, ◌-◌, not, Option, none, some, ◌++◌, if◌then◌else◌, retain, get_or}
use ngsm.Text.{Text, text, text_eq}
use ngsm.Result.{Result, ok, err}
use ngsm.Action.{Act, pure, fail, from_result, or_else, ◌>>=◌, ◌>>◌}
use ngsm.Core.Error.{Error, other, to_string}
use ngsm.Core.Model.{ManagedApplicationConfig, ExitAction, restart}
use ngsm.Ops.Specs.{RecoverySpec}
use ngsm.Ops.Backend.{ConfigBackend}
use ngsm.Ops.ExitKeys.{validate_keys}

-- The configuration that a recovery request asks for.
unfoldable pub apply_recovery : RecoverySpec → ManagedApplicationConfig → ManagedApplicationConfig
apply_recovery spec original = record original {
  restart_policy = record {
    restart_delay_ms = spec.restart_delay_ms;
    throttle_delay_ms = spec.throttle_delay_ms;
    default_action = some spec.default_action;
  };
  exit_actions = spec.exit_actions;
}

abbrev pub recovery_restored : Result Error (Unit {0}) → Text
recovery_restored (ok _) = text "managed configuration restored"
recovery_restored (err rollback) =
    text "managed rollback also failed ("
    ++ (to_string rollback ++ text "); configuration may be partially applied")

module _ (b : ConfigBackend) where
  unfoldable pub undo_recovery :
      RecoverySpec → ManagedApplicationConfig → Error → b.World → Error × b.World
  undo_recovery spec original error w =
      let (rollback, w') = b.write_managed spec.name original w in
      (
        other (
            text "recovery update failed ("
            ++ (to_string error ++ (text "); " ++ recovery_restored rollback))),
        w',
      )

  unfoldable pub save_found :
      RecoverySpec → Option ManagedApplicationConfig → Act b.World Error Text
  unfolding undo_recovery apply_recovery
  save_found spec none = fail (
      other (
        text "'"
        ++ (spec.name
            ++ text "' is not an NGSM-managed service — refusing to edit its recovery policy")))
  save_found spec (some original) = do
    let managed = apply_recovery spec original
    from_result (b.validate_managed_config managed)
    or_else (b.write_managed spec.name managed) (undo_recovery spec original)
    pure (text "Saved recovery policy for '" ++ (spec.name ++ text "'."))

  unfoldable pub save_recovery_with_backend : RecoverySpec → Act b.World Error Text
  unfolding save_found validate_keys
  save_recovery_with_backend spec = do
    from_result (validate_keys spec.exit_actions)
    b.lock_service_config spec.name
    found ← b.read_managed spec.name
    save_found spec found

  -- The policy as it is read back: the mirror of the default action is left out.
  unfoldable pub recovery_of : Text → Option ManagedApplicationConfig → Result Error RecoverySpec
  recovery_of name none =
      err (other (text "'" ++ (name ++ text "' is not an NGSM-managed service")))
  recovery_of name (some managed) = ok (record {
    name = name;
    restart_delay_ms = managed.restart_policy.restart_delay_ms;
    throttle_delay_ms = managed.restart_policy.throttle_delay_ms;
    default_action = get_or managed.restart_policy.default_action restart;
    exit_actions = retain (λ entry. not (text_eq entry.0 (text "default"))) managed.exit_actions;
  })

  unfoldable pub read_recovery_with_backend : Text → Act b.World Error RecoverySpec
  unfolding recovery_of
  read_recovery_with_backend name = do
    found ← b.read_managed name
    from_result (recovery_of name found)

  unfoldable pub save_same_name : Text → RecoverySpec → Act b.World Error Text
  unfolding save_recovery_with_backend
  save_same_name name spec =
      if text_eq spec.name name
      then save_recovery_with_backend spec
      else fail (other (text "a recovery update must keep the requested service name"))

  unfoldable pub update_recovery_with_backend :
      Text → (RecoverySpec → Result Error RecoverySpec) → Act b.World Error Text
  unfolding read_recovery_with_backend save_same_name
  update_recovery_with_backend name update = do
    b.lock_service_config name
    current ← read_recovery_with_backend name
    spec ← from_result (update current)
    save_same_name name spec
