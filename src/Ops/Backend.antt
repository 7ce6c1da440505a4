-- ===== src/Ops/Backend.antt =====
-- The configuration backend of crates/servicemanager-ops/src/helpers.rs, with what else an edit calls of
-- the registry and service-control crates.
use ngsm.Prelude.{◌≡◌, Option, none, some}
use ngsm.Text.{Text}
use ngsm.Result.{Result, ok}
use ngsm.Action.{Act}
use ngsm.Core.Error.{Error}
use ngsm.Core.Model.{ManagedApplicationConfig, IoStream}
use ngsm.Ops.Specs.{EditSpec}

-- `lock_service_config` waits for the writer lock of the service; the two validations read nothing.
pub record ConfigBackend : Type 1 where
  pub World : Type 0
  pub lock_service_config : Text → Act World Error (Unit {0})
  pub read_managed : Text → Act World Error (Option ManagedApplicationConfig)
  pub write_managed : Text → ManagedApplicationConfig → Act World Error (Unit {0})
  pub update_native : EditSpec → Act World Error (Unit {0})
  pub validate_native_update : EditSpec → Result Error (Unit {0})
  pub validate_managed_config : ManagedApplicationConfig → Result Error (Unit {0})

-- What is assumed of a backend: a read answers with what is stored, a write that succeeds stores its
-- configuration, and nothing else touches what is stored. A write that fails may have stored a part. The form
-- `as_stored` in which a configuration is read back is not the one that was written: the registry mirrors the default
-- action among the exit actions, for example, and keeps no mark of a stream without a path.
pub record BackendLaws (b : ConfigBackend) : Type 0 where
  pub stored : b.World → Text → Option ManagedApplicationConfig
  pub as_stored : ManagedApplicationConfig → ManagedApplicationConfig
  pub lock_quiet : (n m : Text) (w : b.World) → stored (b.lock_service_config n w).1 m ≡ stored w m
  pub read_quiet : (n m : Text) (w : b.World) → stored (b.read_managed n w).1 m ≡ stored w m
  pub read_answers :
      (n : Text) (w : b.World) (found : Option ManagedApplicationConfig)
      → (b.read_managed n w).0 ≡ ok found
      → stored w n ≡ found
  pub write_stores :
      (n : Text) (c : ManagedApplicationConfig) (w : b.World)
      → (b.write_managed n c w).0 ≡ ok tt
      → stored (b.write_managed n c w).1 n ≡ some (as_stored c)
  pub native_quiet :
      (s : EditSpec) (m : Text) (w : b.World) → stored (b.update_native s w).1 m ≡ stored w m

abbrev pub io_stream : Text → IoStream
io_stream path = record {
  path = path;
  share_mode = none;
  creation_disposition = none;
  flags_and_attributes = none;
  copy_and_truncate = none;
}
