-- ===== src/Supervisor/Rotation.antt =====
-- The rotation of a log file in crates/servicemanager-supervisor/src/rotation.rs. The lock of the sink is held
-- throughout, and the archive name that `build_rotated_name` picks is an argument.
pub mod Handles
pub mod Laws
pub mod Archived
use ngsm.Prelude.{
  ℕ, ◌+◌, ◌/◌, min, Bool, false, not, ◌&&◌, ◌||◌, Option, none, some, List, ltb, leb, ◌==◌,
  if◌then◌else◌,
}
use ngsm.Text.{Text, text}
use ngsm.Result.{Result, ok, err, map_ok, is_ok}
use ngsm.Action.{Act, pure, fail, from_result, ◌>>=◌, ◌>>◌}
use ngsm.Core.Model.{IoStream, LogRotationConfig, is_true}

-- The file system, the cancellation test and the clock (in milliseconds). Errors are texts.
pub record RotationIo : Type 1 where
  pub World : Type 0
  pub File : Type 0
  pub sync_all : File → Act World Text (Unit {0})
  pub rename : Text → Text → Act World Text (Unit {0})
  pub copy_archive : Text → Text → Act World Text (Unit {0})
  pub truncate : Text → IoStream → Act World Text (Unit {0})
  pub reopen : Text → IoStream → Act World Text File
  pub file_len : File → Act World Text ℕ
  pub write : File → List ℕ → Act World Text ℕ
  pub cancelled : World → Bool × World
  pub now : World → ℕ × World

abbrev pub interrupted : Text
interrupted = text "operation interrupted"

abbrev pub u64_max : ℕ
u64_max = 18446744073709551615

abbrev pub reaches : Option ℕ → ℕ → Bool
reaches none n = false
reaches (some threshold) n = ltb 0 threshold && leb threshold n

unfoldable pub should_rotate_for : LogRotationConfig → ℕ → ℕ → Bool
should_rotate_for config bytes age_ms =
    if not (is_true config.enabled) || bytes == 0
    then false
    else (reaches config.bytes bytes || reaches config.seconds (age_ms / 1000))

module _ (io : RotationIo) where
  -- The state of the sink, with the world that it acts on.
  pub record RotationState : Type 0 where
    pub world : io.World
    pub path : Text
    pub file : Option io.File
    pub bytes_in_current : ℕ
    pub opened_at : ℕ
    pub config : LogRotationConfig
    pub stream : IoStream

  abbrev pub Sink : Type 0 → Type 0
  Sink A = Act RotationState Text A

  -- A call of the outside world.
  unfoldable pub call : {A : Type 0} → Act io.World Text A → Sink A
  call m s = let (r, w) = m s.world in (r, record s { world = w })

  unfoldable pub refuse_if_cancelled : Sink (Unit {0})
  refuse_if_cancelled s =
      let (gone, w) = io.cancelled s.world in
      (if gone then err interrupted else ok tt, record s { world = w })

  unfoldable pub sync_current : Option io.File → Sink (Unit {0})
  unfolding call
  sync_current none = pure tt
  sync_current (some f) = call (io.sync_all f)

  -- `drop(self.file.take())`
  unfoldable pub drop_file : Sink (Unit {0})
  drop_file s = (ok tt, record s { file = none })

  -- The outcome of `m` as a value.
  unfoldable pub attempt : {A : Type 0} → Sink A → Sink (Result Text A)
  attempt m s = let (r, s') = m s in (ok r, s')

  unfoldable pub copy_and_truncate : Text → RotationState → Result Text (Unit {0}) × RotationState
  unfolding call refuse_if_cancelled
  copy_and_truncate archive s =
      (do
        call (io.copy_archive s.path archive)
        refuse_if_cancelled
        call (io.truncate s.path s.stream))
        s

  unfoldable pub move_aside : Text → RotationState → Result Text (Unit {0}) × RotationState
  unfolding call refuse_if_cancelled copy_and_truncate
  move_aside rotated s =
      if is_true s.stream.copy_and_truncate
      then copy_and_truncate rotated s
      else (do refuse_if_cancelled; call (io.rename s.path rotated)) s

  -- The file that was reopened becomes the current one; its age starts again if the old one is aside.
  unfoldable pub adopt : io.File → ℕ → Bool → Sink (Unit {0})
  adopt f n moved s =
      let (time, w) = io.now s.world in
      let s' = record s { file = some f; bytes_in_current = n } in
      (ok tt, if moved then record s' { opened_at = time; world = w } else s')

  unfoldable pub reopen_current : Bool → RotationState → Result Text (Unit {0}) × RotationState
  unfolding call adopt
  reopen_current moved s =
      (do f ← call (io.reopen s.path s.stream); n ← call (io.file_len f); adopt f n moved) s

  unfoldable pub after_drop : Text → Sink (Option Text)
  unfolding attempt move_aside refuse_if_cancelled reopen_current
  after_drop rotated = do
    moved ← attempt (move_aside rotated)
    refuse_if_cancelled
    reopen_current (is_ok moved)
    from_result (map_ok (λ _. some rotated) moved)

  unfoldable pub rotate : Text → RotationState → Result Text (Option Text) × RotationState
  unfolding refuse_if_cancelled sync_current drop_file after_drop
  rotate rotated s = (do refuse_if_cancelled; sync_current s.file; drop_file; after_drop rotated) s

  unfoldable pub count_written : ℕ → Sink ℕ
  count_written n s = (ok n, record s { bytes_in_current = min u64_max (s.bytes_in_current + n) })

  -- The first block of `write_some`: a sink without a file opens its destination again.
  unfoldable pub ensure_open : Option io.File → RotationState → Result Text io.File × RotationState
  unfolding call
  ensure_open (some f) s = (ok f, s)
  ensure_open none s =
      (do
        f ← call (io.reopen s.path s.stream)
        n ← call (io.file_len f)
        (λ t.
            let (time, w) = io.now t.world in
            (ok f, record t { world = w; file = some f; bytes_in_current = n; opened_at = time })))
        s

  unfoldable pub write_some : List ℕ → RotationState → Result Text ℕ × RotationState
  unfolding ensure_open call count_written
  write_some bytes s = (do f ← ensure_open s.file; n ← call (io.write f bytes); count_written n) s
