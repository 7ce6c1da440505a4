-- ===== src/Ops/Recovery/Saved.antt =====
-- The stored configuration after crates/servicemanager-ops/src/recovery.rs saved a policy, or failed to.
use ngsm.Prelude.{◌≡◌, refl, sym, ap, ◌∙◌, subst, ◌⊎◌, inl, inr, Option, none, some}
use ngsm.Text.{Text, text}
use ngsm.Result.{Result, ok, err, map_ok}
use ngsm.Action.{from_result, or_else, >>=-elim, >>=-after, or_else-elim}
use ngsm.Core.Error.{Error}
use ngsm.Core.Model.{ManagedApplicationConfig}
use ngsm.Ops.Specs.{RecoverySpec}
use ngsm.Ops.Backend.{ConfigBackend, BackendLaws}
use ngsm.Ops.ExitKeys.{validate_keys}
use ngsm.Ops.Recovery.{apply_recovery, undo_recovery, save_found, save_recovery_with_backend}

module _ (b : ConfigBackend) (laws : BackendLaws b) (spec : RecoverySpec) where
  -- The last call wrote `original` again, and it is stored in the form of the backend, or that write failed.
  abbrev pub Rewritten : ManagedApplicationConfig → b.World → Type 0
  Rewritten original w =
      (laws.stored w spec.name ≡ some (laws.as_stored original))
      ⊎ ((w₁ : b.World) × (e₁ : Error) × (b.write_managed spec.name original w₁ ≡ (err e₁, w)))

  -- What saving a policy leaves of the stored configuration `before`.
  abbrev pub Saved : Option ManagedApplicationConfig → Result Error Text × b.World → Type 0
  Saved before (ok m, w) =
      (original : ManagedApplicationConfig) × (before ≡ some original)
      × (validate_keys spec.exit_actions ≡ ok tt)
      × (b.validate_managed_config (apply_recovery spec original) ≡ ok tt)
      × (laws.stored w spec.name ≡ some (laws.as_stored (apply_recovery spec original)))
  Saved before (err e, w) =
      (laws.stored w spec.name ≡ before)
      ⊎ ((original : ManagedApplicationConfig) × (before ≡ some original) × Rewritten original w)

  undo_recovery-Saved :
      (original : ManagedApplicationConfig) (e : Error) (w : b.World)
      → Saved
          (some original)
          (err (undo_recovery b spec original e w).0, (undo_recovery b spec original e w).1)
  unfolding undo_recovery
  undo_recovery-Saved original e w =
      inr (original, refl, go (b.write_managed spec.name original w).0 refl)
    where
      go :
          (r : Result Error (Unit {0}))
          → (b.write_managed spec.name original w).0 ≡ r
          → Rewritten original (b.write_managed spec.name original w).1
      go (ok tt) h = inl (laws.write_stores spec.name original w h)
      go (err x) h = inr (w, x, ap (λ r. (r, (b.write_managed spec.name original w).1)) h)

  save_found-Saved :
      (before : Option ManagedApplicationConfig) (w : b.World)
      → validate_keys spec.exit_actions ≡ ok tt
      → laws.stored w spec.name ≡ before
      → Saved before (save_found b spec before w)
  unfolding save_found
  save_found-Saved none w keys kept = inl kept
  save_found-Saved (some original) w keys kept =
      let goal = apply_recovery spec original in
      let Phase : Result Error (Unit {0}) × b.World → Type 0 =
        λ p. Saved (some original) (map_ok (λ _. text "") p.0, p.1) in
      >>=-elim (Saved (some original)) (from_result (b.validate_managed_config goal)) _ w
        (λ u valid.
          >>=-after Phase (Saved (some original))
            (or_else (b.write_managed spec.name goal) (undo_recovery b spec original)) _ w
            (or_else-elim Phase (b.write_managed spec.name goal) (undo_recovery b spec original) w
              (λ v written.
                (original, refl, keys, valid, laws.write_stores spec.name goal w written))
              (λ e refused. undo_recovery-Saved original e (b.write_managed spec.name goal w).1))
            (λ v t q. q) (λ e t q. q))
        (λ e invalid. inl kept)

  -- Saving a recovery policy is a transaction on the stored managed configuration. When it succeeds,
  -- every key of the request is valid, and what is stored is the configuration from before with the
  -- policy of the request in it, in the form in which the backend stores it. When it fails, in any of its phases, the
  -- configuration from before is stored as it was or in the form of the backend, or else the very last call was the
  -- write that should restore it, and that write failed.
  pub save_recovery_with_backend-Saved :
      (w : b.World) → Saved (laws.stored w spec.name) (save_recovery_with_backend b spec w)
  unfolding save_recovery_with_backend
  save_recovery_with_backend-Saved w =
      let before = laws.stored w spec.name in
      >>=-elim (Saved before) (from_result (validate_keys spec.exit_actions)) _ w
        (λ u keys.
          let w₁ = (b.lock_service_config spec.name w).1 in
          let locked = laws.lock_quiet spec.name spec.name w in
          >>=-elim (Saved before) (b.lock_service_config spec.name) _ w
            (λ v got.
              let w₂ = (b.read_managed spec.name w₁).1 in
              let seen = laws.read_quiet spec.name spec.name w₁ in
              >>=-elim (Saved before) (b.read_managed spec.name) _ w₁
                (λ found answer.
                  let same : found ≡ before =
                    sym (laws.read_answers spec.name w₁ found answer) ∙ locked in
                  subst (λ x. Saved x (save_found b spec found w₂)) same
                    (save_found-Saved found w₂ keys (seen ∙ locked ∙ sym same)))
                (λ e refused. inl (seen ∙ locked)))
            (λ e refused. inl locked))
        (λ e invalid. inl refl)
