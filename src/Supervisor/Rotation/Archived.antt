-- ===== src/Supervisor/Rotation/Archived.antt =====
-- What a rotation of crates/servicemanager-supervisor/src/rotation.rs does with the log: its content is in the archive
-- when the rotation succeeds, and the sink has a handle that was opened on its path after that.
use ngsm.Prelude.{
  ap, ◌∙◌, sym, subst, List, ℕ, ◌≡◌, refl, ◌⊎◌, inl, inr, Bool, true, false, Option, none, some,
  Bool-cases,
}
use ngsm.Text.{Text}
use ngsm.Result.{Result, ok, err, map_ok, is_ok}
use ngsm.Action.{Keeps, >>=-elim, >>=-after}
use ngsm.Core.Model.{IoStream, is_true}
use ngsm.Supervisor.Rotation.{
  RotationIo, RotationState, Sink, call, refuse_if_cancelled, sync_current, drop_file, attempt,
  copy_and_truncate, move_aside, adopt, reopen_current, after_drop, rotate,
}
use ngsm.Supervisor.Rotation.Handles.{
  At, Reopening, IsReopened, refuse-At, sync_current-At, move_aside-At, reopen_current-Reopening,
}
use ngsm.Supervisor.Rotation.Laws.{RotationLaws}

module _ (io : RotationIo) (laws : RotationLaws io) (path rotated : Text) (stream : IoStream)
    (log : Option (List ℕ)) (apart : laws.Apart path rotated) where
  -- The log is still under its path.
  abbrev Current : RotationState io → Type 0
  Current t = laws.content t.world path ≡ log

  abbrev Archived : RotationState io → Type 0
  Archived t = laws.content t.world rotated ≡ log

  abbrev Moved : {A : Type 0} → Result Text A × RotationState io → Type 0
  Moved (ok _, t) = Archived t
  Moved (err e, t) = Unit

  refuse-Current : Keeps Current (refuse_if_cancelled io)
  unfolding refuse_if_cancelled
  refuse-Current = record { at = λ t h. laws.cancelled_quiet path t.world ∙ h }

  refuse-Archived : Keeps Archived (refuse_if_cancelled io)
  unfolding refuse_if_cancelled
  refuse-Archived = record { at = λ t h. laws.cancelled_quiet rotated t.world ∙ h }

  sync_current-Current : (f : Option io.File) → Keeps Current (sync_current io f)
  unfolding sync_current call
  sync_current-Current none = record { at = λ t h. h }
  sync_current-Current (some f) = record { at = λ t h. laws.sync_quiet f path t.world ∙ h }

  copy_and_truncate-Moved :
      (t : RotationState io) → t.path ≡ path → Current t → Moved (copy_and_truncate io rotated t)
  unfolding copy_and_truncate call refuse_if_cancelled
  copy_and_truncate-Moved t p h =
      >>=-elim Moved (call io (io.copy_archive t.path rotated)) _ t
        (λ u copied.
          let t₁ = (call io (io.copy_archive t.path rotated) t).1 in
          let there : Archived t₁ = laws.copy_copies t.path rotated t.world copied ∙ rw p h in
          >>=-after (λ (q : Result Text (Unit {0}) × RotationState io). Archived q.1) Moved
            (refuse_if_cancelled io) _ t₁ (refuse-Archived.at t₁ there)
            (λ v t₂ h₂. weaken (call io (io.truncate t.path t.stream) t₂) (truncate_keeps t₂ h₂))
            (λ e t₂ h₂. tt))
        (λ e failed. tt)
    where
      truncate_keeps :
          (s : RotationState io) → Archived s → Archived (call io (io.truncate t.path t.stream) s).1
      truncate_keeps s k =
          laws.truncate_elsewhere t.path rotated t.stream s.world
            (subst (λ x. laws.Apart x rotated) (sym p) apart)
          ∙ k

      weaken : {A : Type 0} → (q : Result Text A × RotationState io) → Archived q.1 → Moved q
      weaken (ok a, s) k = k
      weaken (err e, s) k = tt

  rename-Moved :
      (from : Text) (t : RotationState io)
      → from ≡ path
      → Current t
      → Moved (call io (io.rename from rotated) t)
  unfolding call
  rename-Moved from t p h = go (io.rename from rotated t.world).0 refl
    where
      go :
          (r : Result Text (Unit {0}))
          → (io.rename from rotated t.world).0 ≡ r
          → Moved (call io (io.rename from rotated) t)
      go (ok u) e =
          rw e (laws.rename_moves from rotated t.world e ∙ ap (laws.content t.world) p ∙ h)
      go (err x) e = rw e tt

  reopen_current-Archived :
      (moved : Bool) (t : RotationState io)
      → t.path ≡ path
      → Archived t
      → Archived (reopen_current io moved t).1
  unfolding reopen_current call adopt
  reopen_current-Archived moved t p h =
      >>=-elim (λ (q : Result Text (Unit {0}) × RotationState io). Archived q.1)
        (call io (io.reopen t.path t.stream)) _ t
        (λ f opened.
          let t₁ = (call io (io.reopen t.path t.stream) t).1 in
          let kept : Archived t₁ = elsewhere in
          >>=-elim (λ (q : Result Text (Unit {0}) × RotationState io). Archived q.1)
            (call io (io.file_len f)) _ t₁
            (λ n measured.
              adopted f n (call io (io.file_len f) t₁).1 moved
                (laws.len_quiet f rotated t₁.world ∙ kept))
            (λ e failed. laws.len_quiet f rotated t₁.world ∙ kept))
        (λ e failed. elsewhere)
    where
      elsewhere : laws.content (io.reopen t.path t.stream t.world).1 rotated ≡ log
      elsewhere =
          laws.reopen_elsewhere t.path rotated t.stream t.world
            (subst (λ x. laws.Apart x rotated) (sym p) apart)
          ∙ h

      adopted :
          (f : io.File) (n : ℕ) (s : RotationState io) (b : Bool)
          → Archived s
          → Archived (adopt io f n b s).1
      adopted f n s true k = laws.now_quiet rotated s.world ∙ k
      adopted f n s false k = k

  -- The handle of the sink, the log and its path while the log is still in its place.
  abbrev InPlace : Option io.File → RotationState io → Type 0
  InPlace file t = At io path stream file t × Current t

  both :
      {P Q : RotationState io → Type 0} {A : Type 0} {m : Sink io A}
      → Keeps P m
      → Keeps Q m
      → Keeps (λ t. P t × Q t) m
  both p q = record { at = λ t h. (p.at t h.0, q.at t h.1) }

  move_aside-Moved :
      (t : RotationState io) → t.path ≡ path → Current t → Moved (move_aside io rotated t)
  unfolding move_aside
  move_aside-Moved t p h = elim (Bool-cases (is_true t.stream.copy_and_truncate)) [
    | inl copies ↦ rw copies (copy_and_truncate-Moved t p h)
    | inr renames ↦ rw renames (
        >>=-after (λ (q : Result Text (Unit {0}) × RotationState io). Current q.1) Moved
          (refuse_if_cancelled io) _ t (refuse-Current.at t h)
          (λ u t₁ h₁. rename-Moved t.path t₁ p h₁) (λ e t₁ h₁. tt))
  ]

  -- What a rotation may answer, from a sink with the handle `old`.
  abbrev pub Rotated : Option io.File → Result Text (Option Text) × RotationState io → Type 0
  Rotated old (ok archive, s) =
      (archive ≡ some rotated) × (laws.content s.world rotated ≡ log) × IsReopened io path stream s
  Rotated old (err e, s) = (s.file ≡ old) ⊎ ((s.file ≡ none) ⊎ IsReopened io path stream s)

  -- With the outcome of the move as a value.
  abbrev MovedAs : Result Text (Unit {0}) → RotationState io → Type 0
  MovedAs moved t = At io path stream none t × Moved (moved, t)

  keep-Moved :
      (moved : Result Text (Unit {0})) (t t' : RotationState io)
      → (Archived t → Archived t')
      → Moved (moved, t)
      → Moved (moved, t')
  keep-Moved (ok u) t t' f k = f k
  keep-Moved (err e) t t' f k = tt

  answered :
      (old : Option io.File) (moved : Result Text (Unit {0})) (s : RotationState io)
      → IsReopened io path stream s
      → Moved (moved, s)
      → Rotated old (map_ok (λ _. some rotated) moved, s)
  answered old (ok u) s r k = (refl, k, r)
  answered old (err e) s r k = inr (inr r)

  abbrev Tried : Result Text (Result Text (Unit {0})) × RotationState io → Type 0
  Tried (ok moved, t) = MovedAs moved t
  Tried (err e, t) = t.file ≡ none

  after_drop-Rotated :
      (old : Option io.File) (t : RotationState io)
      → InPlace none t
      → Rotated old (after_drop io rotated t)
  unfolding after_drop attempt
  after_drop-Rotated old t h =
      let P = Rotated old in
      >>=-after Tried P (attempt io (move_aside io rotated)) _ t
        ((move_aside-At io path stream rotated none).at t h.0, move_aside-Moved t h.0.0 h.1)
        (λ m t₁ q.
          >>=-after (λ (r : Result Text (Unit {0}) × RotationState io). MovedAs m r.1) P
            (refuse_if_cancelled io) _ t₁
            (
              (refuse-At io path stream none).at t₁ q.0,
              keep-Moved m t₁ (refuse_if_cancelled io t₁).1 (refuse-Archived.at t₁) q.1,
            )
            (λ u t₂ q₂.
              >>=-after
                (λ (r : Result Text (Unit {0}) × RotationState io).
                  Reopening io path stream r × Moved (m, r.1))
                P (reopen_current io (is_ok m)) _ t₂
                (
                  reopen_current-Reopening io path stream (is_ok m) t₂ q₂.0,
                  keep-Moved m t₂ (reopen_current io (is_ok m) t₂).1
                      (reopen_current-Archived (is_ok m) t₂ q₂.0.0) q₂.1,
                )
                (λ v t₃ r. answered old m t₃ r.0 r.1) (λ e t₃ r. inr (inl r.0)))
            (λ e t₂ q₂. inr (inl q₂.0.2)))
        (λ e t₁ none_left. inr (inl none_left))

  rotate_from :
      (s : RotationState io)
      → s.path ≡ path
      → s.stream ≡ stream
      → Current s
      → Rotated s.file (rotate io rotated s)
  unfolding rotate drop_file
  rotate_from s p st there =
      let P = Rotated s.file in
      let Q : Option io.File → Result Text (Unit {0}) × RotationState io → Type 0 =
        λ f q. InPlace f q.1 in
      >>=-after (Q s.file) P (refuse_if_cancelled io) _ s
        ((both (refuse-At io path stream s.file) refuse-Current).at s ((p, st, refl), there))
        (λ u t₁ h₁.
          >>=-after (Q s.file) P (sync_current io s.file) _ t₁
            ((both (sync_current-At io path stream s.file s.file) (sync_current-Current s.file)).at
              t₁ h₁)
            (λ v t₂ h₂.
              >>=-after (Q none) P (drop_file io) _ t₂ ((h₂.0.0, h₂.0.1, refl), h₂.1)
                (λ x t₃ h₃. after_drop-Rotated s.file t₃ h₃) (λ e t₃ h₃. inr (inl h₃.0.2)))
            (λ e t₂ h₂. inl h₂.0.2))
        (λ e t₁ h₁. inl h₁.0.2)

module _ (io : RotationIo) (laws : RotationLaws io) where
  -- When a rotation to an archive apart from its log succeeds, the archive holds what the log held before, and the
  -- answer names the archive; and the sink has a handle that a reopening of its own path answered, with the length
  -- that was read from that handle as its count of bytes. One that fails leaves the handle from before, or no handle,
  -- or one that was reopened in that way.
  pub rotate-Rotated :
      (rotated : Text) (s : RotationState io)
      → (apart : laws.Apart s.path rotated)
      → Rotated io laws s.path rotated s.stream
          (laws.content s.world s.path)
          apart
          s.file
          (rotate io rotated s)
  rotate-Rotated rotated s apart =
      rotate_from io laws s.path rotated s.stream (laws.content s.world s.path) apart s refl refl
        refl
