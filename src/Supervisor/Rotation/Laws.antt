-- ===== src/Supervisor/Rotation/Laws.antt =====
-- What is assumed of the calls of `RotationIo` in crates/servicemanager-supervisor/src/rotation.rs.
use ngsm.Prelude.{ℕ, ◌≡◌, Option, List}
use ngsm.Text.{Text}
use ngsm.Result.{ok}
use ngsm.Core.Model.{IoStream}
use ngsm.Supervisor.Rotation.{RotationIo}

-- No other process writes to the log or to its archives meanwhile. `content w p` is what the file under `p` holds in the world `w`, if there is one.
-- Two paths are `Apart` if they name different files.
-- A rename and a copy that succeed give the content of the first path to the second; to open or to truncate a path
-- leaves the paths apart from it alone; and the other calls leave them all alone.
pub record RotationLaws (io : RotationIo) : Type 1 where
  pub Apart : Text → Text → Type 0
  pub content : io.World → Text → Option (List ℕ)
  pub sync_quiet :
      (f : io.File) (p : Text) (w : io.World) → content (io.sync_all f w).1 p ≡ content w p
  pub rename_moves :
      (from to : Text) (w : io.World)
      → (io.rename from to w).0 ≡ ok tt
      → content (io.rename from to w).1 to ≡ content w from
  pub copy_copies :
      (from to : Text) (w : io.World)
      → (io.copy_archive from to w).0 ≡ ok tt
      → content (io.copy_archive from to w).1 to ≡ content w from
  pub truncate_elsewhere :
      (p q : Text) (stream : IoStream) (w : io.World)
      → Apart p q
      → content (io.truncate p stream w).1 q ≡ content w q
  pub reopen_elsewhere :
      (p q : Text) (stream : IoStream) (w : io.World)
      → Apart p q
      → content (io.reopen p stream w).1 q ≡ content w q
  pub len_quiet :
      (f : io.File) (p : Text) (w : io.World) → content (io.file_len f w).1 p ≡ content w p
  pub cancelled_quiet : (p : Text) (w : io.World) → content (io.cancelled w).1 p ≡ content w p
  pub now_quiet : (p : Text) (w : io.World) → content (io.now w).1 p ≡ content w p
