-- ===== src/Ops/Edit/Outcome.antt =====
-- The stored configuration after an edit of crates/servicemanager-ops/src/edit.rs.
use ngsm.Prelude.{
  ◌≡◌, refl, sym, ◌∙◌, ap, subst, ◌⊎◌, inl, inr, Bool, true, false, Option, none, some, Bool-cases,
  if◌then◌else◌,
}
use ngsm.Text.{Text}
use ngsm.Result.{Result, ok, err}
use ngsm.Action.{from_result, >>=-elim, >>=-after, or_else-elim}
use ngsm.Core.Error.{Error}
use ngsm.Core.Model.{ManagedApplicationConfig}
use ngsm.Ops.Specs.{EditSpec, has_changes}
use ngsm.Ops.Backend.{ConfigBackend, BackendLaws}
use ngsm.Ops.Edit.{
  merge_managed_fields, touches_managed, touches_native, rollback_managed, edit_managed,
  undo_native, edit_native, edit_found, edit_with_backend,
}

-- The configuration that an edit aims at.
abbrev pub target : EditSpec → ManagedApplicationConfig → Result Error ManagedApplicationConfig
target spec original =
    if touches_managed spec then merge_managed_fields spec original else ok original

module _ (b : ConfigBackend) (laws : BackendLaws b) (spec : EditSpec) where
  -- What is stored when an edit aims at `goal`: a goal that is written is stored in the form of the backend.
  abbrev pub stored_goal : ManagedApplicationConfig → ManagedApplicationConfig
  stored_goal goal = if touches_managed spec then laws.as_stored goal else goal

  -- The configuration from before is stored: it was left alone, or written again; or the last call was the write
  -- that should restore it, and that write failed.
  abbrev pub Undone : ManagedApplicationConfig → b.World → Type 0
  Undone original w =
      (laws.stored w spec.name ≡ some original)
      ⊎ ((touches_managed spec ≡ true) × (laws.stored w spec.name ≡ some (laws.as_stored original)))
      ⊎ ((w₁ : b.World) × (e₁ : Error) × (b.write_managed spec.name original w₁ ≡ (err e₁, w)))

  -- What an edit leaves of the stored configuration `before`.
  abbrev pub Outcome : Option ManagedApplicationConfig → Result Error Text × b.World → Type 0
  Outcome before (ok m, w) =
      (original : ManagedApplicationConfig) × (goal : ManagedApplicationConfig) × (before
        ≡ some original)
      × (target spec original ≡ ok goal)
      × (laws.stored w spec.name ≡ some (stored_goal goal))
  Outcome before (err e, w) =
      (laws.stored w spec.name ≡ before)
      ⊎ ((original : ManagedApplicationConfig) × (before ≡ some original) × Undone original w)

  abbrev Failed : ManagedApplicationConfig → Error × b.World → Type 0
  Failed original (e, w) = Undone original w

  rollback-Failed :
      (original : ManagedApplicationConfig) (native : Bool) (e : Error) (w : b.World)
      → touches_managed spec ≡ true
      → Failed original (rollback_managed b spec original native e w)
  unfolding rollback_managed
  rollback-Failed original native e w on = go (b.write_managed spec.name original w).0 refl
    where
      go :
          (r : Result Error (Unit {0}))
          → (b.write_managed spec.name original w).0 ≡ r
          → Failed original (rollback_managed b spec original native e w)
      go (ok u) h = inr (inl (on, laws.write_stores spec.name original w h))
      go (err x) h = inr (inr (w, x, ap (λ r. (r, (b.write_managed spec.name original w).1)) h))

  -- The managed phase: `goal` is stored, or the phase failed.
  abbrev Managed : ManagedApplicationConfig → Result Error (Unit {0}) × b.World → Type 0
  Managed original (ok _, w) =
      (goal : ManagedApplicationConfig) × (target spec original ≡ ok goal)
      × (laws.stored w spec.name ≡ some (stored_goal goal))
  Managed original (err e, w) = Failed original (e, w)

  edit_managed-Managed :
      (original : ManagedApplicationConfig) (w : b.World)
      → laws.stored w spec.name ≡ some original
      → Managed original (edit_managed b spec original w)
  unfolding edit_managed
  edit_managed-Managed original w before = elim (Bool-cases (touches_managed spec)) [
    | inr off ↦ rw off (original, rw off refl, rw off before)
    | inl on ↦ rw on (
        >>=-elim (Managed original) (from_result (merge_managed_fields spec original)) _ w
          (λ goal merged.
            >>=-elim (Managed original) (from_result (b.validate_managed_config goal)) _ w
              (λ u valid.
                or_else-elim (Managed original) (b.write_managed spec.name goal)
                  (rollback_managed b spec original false) w
                  (λ v written.
                    (goal, rw on merged, rw on (laws.write_stores spec.name goal w written)))
                  (λ e refused.
                    rollback-Failed original false e (b.write_managed spec.name goal w).1 on))
              (λ e invalid. inl before))
          (λ e invalid. inl before))
  ]

  undo_native-Failed :
      (original goal : ManagedApplicationConfig) (e : Error) (w : b.World)
      → target spec original ≡ ok goal
      → laws.stored w spec.name ≡ some (stored_goal goal)
      → Failed original (undo_native b spec original e w)
  unfolding undo_native
  undo_native-Failed original goal e w aimed kept = elim (Bool-cases (touches_managed spec)) [
    | inl on ↦ rw on (rw on at (rollback-Failed original true e w on))
    | inr off ↦
        let same : original ≡ goal = cc (rw off at aimed) in
        rw off (inl ((rw off at kept) ∙ ap some (sym same)))
  ]

  Failed-Outcome :
      (original : ManagedApplicationConfig) (before : Option ManagedApplicationConfig) (e : Error)
      (w : b.World)
      → before ≡ some original
      → Failed original (e, w)
      → Outcome before (err e, w)
  Failed-Outcome original before e w was f = inr (original, was, f)

  -- The native phase leaves what is stored alone, or failed.
  abbrev Native :
      ManagedApplicationConfig
      → ManagedApplicationConfig
      → Result Error (Unit {0}) × b.World
      → Type 0
  Native original goal (ok _, w) = laws.stored w spec.name ≡ some (stored_goal goal)
  Native original goal (err e, w) = Failed original (e, w)

  edit_native-Native :
      (original goal : ManagedApplicationConfig) (w : b.World)
      → target spec original ≡ ok goal
      → laws.stored w spec.name ≡ some (stored_goal goal)
      → Native original goal (edit_native b spec original w)
  unfolding edit_native
  edit_native-Native original goal w aimed kept =
      let after : laws.stored (b.update_native spec w).1 spec.name ≡ some (stored_goal goal) =
        laws.native_quiet spec spec.name w ∙ kept in
      elim (Bool-cases (touches_native spec)) [
        | inr off ↦ rw off kept
        | inl on ↦ rw on (
            or_else-elim (Native original goal) (b.update_native spec) (undo_native b spec original)
              w (λ u done. after)
              (λ e refused.
                undo_native-Failed original goal e (b.update_native spec w).1 aimed after))
      ]

  edit_found-Outcome :
      (before : Option ManagedApplicationConfig) (w : b.World)
      → laws.stored w spec.name ≡ before
      → Outcome before (edit_found b spec before w)
  unfolding edit_found
  edit_found-Outcome none w kept = inl kept
  edit_found-Outcome (some original) w kept =
      >>=-after (Managed original) (Outcome (some original)) (edit_managed b spec original) _ w
        (edit_managed-Managed original w kept)
        (λ u t q.
          >>=-after (Native original q.0) (Outcome (some original)) (edit_native b spec original) _
            t (edit_native-Native original q.0 t q.1 q.2) (λ v t' r. (original, q.0, refl, q.1, r))
            (λ e t' r. Failed-Outcome original (some original) e t' refl r))
        (λ e t q. Failed-Outcome original (some original) e t refl q)

  -- An edit is a transaction on the stored managed configuration. When it succeeds, that is the
  -- configuration from before with the fields of the request merged into it, in the form in which the backend
  -- stores it, or what was there before when the request names no managed field. When it fails, in any of its phases,
  -- the configuration from before is stored as it was, or the request names a managed field and that configuration
  -- is stored in the form of the backend, or the very last call was the write that should restore it, and that write
  -- failed.
  pub edit_with_backend-Outcome :
      (w : b.World) → Outcome (laws.stored w spec.name) (edit_with_backend b spec w)
  unfolding edit_with_backend
  edit_with_backend-Outcome w =
      let before = laws.stored w spec.name in
      elim (Bool-cases (has_changes spec)) [
        | inr nothing ↦ rw nothing (inl refl)
        | inl asked ↦ rw asked (
            >>=-elim (Outcome before) (from_result (b.validate_native_update spec)) _ w
              (λ u valid.
                let w₁ = (b.lock_service_config spec.name w).1 in
                let locked = laws.lock_quiet spec.name spec.name w in
                >>=-elim (Outcome before) (b.lock_service_config spec.name) _ w
                  (λ v got.
                    let w₂ = (b.read_managed spec.name w₁).1 in
                    let seen = laws.read_quiet spec.name spec.name w₁ in
                    >>=-elim (Outcome before) (b.read_managed spec.name) _ w₁
                      (λ found answer.
                        let same : found ≡ before =
                          sym (laws.read_answers spec.name w₁ found answer) ∙ locked in
                        subst (λ x. Outcome x (edit_found b spec found w₂)) same
                          (edit_found-Outcome found w₂ (seen ∙ locked ∙ sym same)))
                      (λ e refused. inl (seen ∙ locked)))
                  (λ e refused. inl locked))
              (λ e invalid. inl refl))
      ]
