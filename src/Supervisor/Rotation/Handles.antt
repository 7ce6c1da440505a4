-- ===== src/Supervisor/Rotation/Handles.antt =====
-- Which handle a rotation of crates/servicemanager-supervisor/src/rotation.rs leaves in the sink.
use ngsm.Prelude.{ℕ, ◌≡◌, refl, inl, inr, Bool, true, false, Option, none, some, Bool-cases}
use ngsm.Text.{Text}
use ngsm.Result.{Result, ok, err}
use ngsm.Action.{Act, Keeps, Keeps-bind, >>=-elim}
use ngsm.Core.Model.{IoStream, is_true}
use ngsm.Supervisor.Rotation.{
  RotationIo, RotationState, Sink, call, refuse_if_cancelled, sync_current, attempt,
  copy_and_truncate, move_aside, adopt, reopen_current,
}

module _ (io : RotationIo) (path : Text) (stream : IoStream) where
  -- The destination and the handle of a sink.
  abbrev pub At : Option io.File → RotationState io → Type 0
  At file t = (t.path ≡ path) × (t.stream ≡ stream) × (t.file ≡ file)

  call-At :
      {A : Type 0} (m : Act io.World Text A) (file : Option io.File) → Keeps (At file) (call io m)
  unfolding call
  call-At m file = record { at = λ t h. h }

  pub refuse-At : (file : Option io.File) → Keeps (At file) (refuse_if_cancelled io)
  unfolding refuse_if_cancelled
  refuse-At file = record { at = λ t h. h }

  pub sync_current-At : (o file : Option io.File) → Keeps (At file) (sync_current io o)
  unfolding sync_current
  sync_current-At none file = record { at = λ t h. h }
  sync_current-At (some f) file = call-At (io.sync_all f) file

  copy_and_truncate-At :
      (archive : Text) (file : Option io.File) → Keeps (At file) (copy_and_truncate io archive)
  unfolding copy_and_truncate
  copy_and_truncate-At archive file = record {
    at = λ t h.
        (Keeps-bind _ _ (call-At (io.copy_archive t.path archive) file)
            λ _. Keeps-bind _ _ (refuse-At file) λ _. call-At (io.truncate t.path t.stream) file).at
          t h;
  }

  pub move_aside-At :
      (rotated : Text) (file : Option io.File) → Keeps (At file) (move_aside io rotated)
  unfolding move_aside
  move_aside-At rotated file = record {
    at = λ t h. elim (Bool-cases (is_true t.stream.copy_and_truncate)) [
      | inl copies ↦ rw copies ((copy_and_truncate-At rotated file).at t h)
      | inr renames ↦
          rw renames
            ((Keeps-bind _ _ (refuse-At file) λ _. call-At (io.rename t.path rotated) file).at t h)
    ];
  }

  pub attempt-At :
      {A : Type 0} (m : Sink io A) (file : Option io.File)
      → Keeps (At file) m
      → Keeps (At file) (attempt io m)
  unfolding attempt
  attempt-At m file k = record { at = λ t h. k.at t h }

  -- The handle of the sink is the answer of a reopening under its path, and its count of bytes is the
  -- length that was read from it.
  abbrev pub IsReopened : RotationState io → Type 0
  IsReopened s =
      (f : io.File) × (n : ℕ) × (u : io.World) × (v : io.World) × ((io.reopen path stream u).0
        ≡ ok f)
      × ((io.file_len f v).0 ≡ ok n)
      × (s.file ≡ some f)
      × (s.bytes_in_current ≡ n)

  abbrev pub Reopening : Result Text (Unit {0}) × RotationState io → Type 0
  Reopening (ok _, s) = IsReopened s
  Reopening (err e, s) = s.file ≡ none

  pub reopen_current-Reopening :
      (moved : Bool) (t : RotationState io) → At none t → Reopening (reopen_current io moved t)
  unfolding reopen_current call
  reopen_current-Reopening moved t h =
      >>=-elim Reopening (call io (io.reopen t.path t.stream)) _ t
        (λ f opened.
          let t₁ = (call io (io.reopen t.path t.stream) t).1 in
          let same : (io.reopen path stream t.world).0 ≡ ok f = rw (h.0, h.1) at opened in
          >>=-elim Reopening (call io (io.file_len f)) _ t₁
            (λ n measured.
              adopted moved f n (call io (io.file_len f) t₁).1
                (f, n, t.world, t₁.world, same, measured, refl, refl))
            (λ e failed. h.2))
        (λ e failed. h.2)
    where
      adopted :
          (b : Bool) (f : io.File) (n : ℕ) (t' : RotationState io)
          → IsReopened (record t' { file = some f; bytes_in_current = n })
          → Reopening (adopt io f n b t')
      adopted true f n t' r = r
      adopted false f n t' r = r
