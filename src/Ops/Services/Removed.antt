-- ===== src/Ops/Services/Removed.antt =====
-- What a removal of crates/servicemanager-ops/src/remove.rs has seen before it acts, and what it does then.
use ngsm.Prelude.{◌≡◌, ◌⊎◌, Bool, true, false, some}
use ngsm.Text.{Text}
use ngsm.Result.{Result, ok, err, is_ok}
use ngsm.Core.Error.{Error}
use ngsm.Core.Model.{ManagedApplicationConfig, counts_as_stopped}
use ngsm.Ops.Services.{ServiceBackend, NativeService, state_seen, confirmed}
use ngsm.Ops.Services.Guarded.{Looked, queried_after, read_after, Queried, IsOurs, Refused}

module _ (b : ServiceBackend) (name : Text) where
  abbrev pub locked_after : b.World → b.World
  locked_after w = (b.lock_service_config name w).1

  -- The check of ownership in the world `w`, and the world in which the service may be removed.
  abbrev pub Allowed : Bool → NativeService → b.World → b.World → Type 0
  Allowed force native w u =
      ((force ≡ true) × (u ≡ w)) ⊎ (IsOurs b name native w × (u ≡ read_after b name w))

  abbrev Checked :
      Bool → b.World → NativeService → b.World → Result Error (Unit {0}) × b.World → Type 0
  Checked force first native w (ok _, u) = Allowed force native w u × Looked b name first u
  Checked force first native w (err e, u) = Looked b name first u

  -- The removal of the configuration, in the world `w`: it is deleted if a read answers one, and else nothing is done.
  abbrev pub Purged : {A : Type 0} → b.World → Result Error A × b.World → Type 0
  Purged w (r, w') =
      ((config : ManagedApplicationConfig) × ((b.read_managed_config name w).0 ≡ ok (some config))
        × (w' ≡ (b.delete_managed_config name (read_after b name w)).1)
        × (is_ok r ≡ is_ok (b.delete_managed_config name (read_after b name w)).0))
      ⊎ ((confirmed (b.read_managed_config name w).0 ≡ ok false)
          × (w' ≡ read_after b name w)
          × (is_ok r ≡ true))

  -- The removal of the service in the world `u`, and of its configuration once that has succeeded.
  abbrev pub Taken : b.World → Result Error Text × b.World → Type 0
  Taken u (r, w') =
      ((is_ok (b.remove_service name u).0 ≡ false)
        × (is_ok r ≡ false)
        × (w' ≡ (b.remove_service name u).1))
      ⊎ ((is_ok (b.remove_service name u).0 ≡ true) × Purged (b.remove_service name u).1 (r, w'))

  -- What a removal from the world `w` answers, and the world after it.
  abbrev pub Removed : Bool → b.World → Result Error Text × b.World → Type 0
  Removed force w p =
      Refused b name w p
      ⊎ ((native : NativeService) × (u : b.World) × Queried b name native (locked_after w)
          × (counts_as_stopped (state_seen native) ≡ true)
          × Allowed force native (queried_after b name (locked_after w)) u
          × Taken u p)
