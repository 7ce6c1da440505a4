-- ===== src/Ops/Services/Guarded.antt =====
-- What the guarded operations of crates/servicemanager-ops have seen before they act.
use ngsm.Prelude.{
  ◌≡◌, refl, ◌++◌, ◌⊎◌, inl, inr, Bool, true, false, Option, if◌then◌else◌, Bool-cases,
}
use ngsm.Text.{Text, text}
use ngsm.Result.{Result, ok, err, map_err, is_ok}
use ngsm.Action.{◌>>=◌, pure, fail, >>=-elim, >>=-after}
use ngsm.Core.Error.{Error}
use ngsm.Core.Model.{ManagedApplicationConfig, is_disabled}
use ngsm.Core.ImagePath.{is_managed}
use ngsm.Ops.Services.{
  ServiceBackend, NativeService, definition_of, read_or, ensure_ngsm_managed, ensure_enabled, start,
}

module _ (b : ServiceBackend) (name : Text) where
  -- The second world is reached from the first by calls that only look or wait: the lock of the configuration, a query
  -- and a read of it.
  pub data Looked (first : b.World) : b.World → Type 0 where
    here : Looked first first
    locked : {w : b.World} → Looked first w → Looked first (b.lock_service_config name w).1
    queried : {w : b.World} → Looked first w → Looked first (b.query_service name w).1
    read : {w : b.World} → Looked first w → Looked first (b.read_managed_config name w).1

  abbrev pub queried_after : b.World → b.World
  queried_after w = (b.query_service name w).1

  abbrev pub read_after : b.World → b.World
  read_after w = (b.read_managed_config name w).1

  -- A query in this world answers `native`.
  abbrev pub Queried : NativeService → b.World → Type 0
  Queried native w = (b.query_service name w).0 ≡ ok native

  -- With the configuration that a read in this world answers, `native` is a service of NGSM.
  abbrev pub IsOurs : NativeService → b.World → Type 0
  IsOurs native w =
      (managed : Option ManagedApplicationConfig) × ((b.read_managed_config name w).0 ≡ ok managed)
      × (is_managed (definition_of native managed) ≡ true)

  -- An error after nothing but looking.
  abbrev pub Refused : {A : Type 0} → b.World → Result Error A × b.World → Type 0
  Refused w (r, w') = (is_ok r ≡ false) × Looked w w'

  pub read_or_sound :
      (wrap : Error → Error) (w : b.World) (managed : Option ManagedApplicationConfig)
      → (read_or b name wrap w).0 ≡ ok managed
      → (b.read_managed_config name w).0 ≡ ok managed
  unfolding read_or
  read_or_sound wrap w managed h = go (b.read_managed_config name w).0 h
    where
      go :
          (r : Result Error (Option ManagedApplicationConfig))
          → map_err wrap r ≡ ok managed
          → r ≡ ok managed
      go (ok c) q = cc
      go (err e) q = cc

  -- What a check of ownership answers, in the world before its read.
  abbrev pub Owning : b.World → NativeService → b.World → Result Error (Unit {0}) × b.World → Type 0
  Owning first native w (ok _, w') = IsOurs native w × (w' ≡ read_after w)
  Owning first native w (err e, w') = Looked first w'

  pub owned :
      (first : b.World) (native : NativeService) (w : b.World)
      (managed : Option ManagedApplicationConfig) (e : Error)
      → Looked first w
      → (b.read_managed_config name w).0 ≡ ok managed
      → (c : Bool) → is_managed (definition_of native managed) ≡ c
      → Owning first native w ((if c then pure tt else fail {A = Unit {0}} e) (read_after w))
  owned first native w managed e path answer true h = ((managed, answer, h), refl)
  owned first native w managed e path answer false h = read path

  -- The world after `ensure_ngsm_managed` returned, with what it has seen.
  abbrev Ensured : b.World → Result Error (Unit {0}) × b.World → Type 0
  Ensured w (ok _, w') =
      (native : NativeService) × Queried native w
      × IsOurs native (queried_after w)
      × (w' ≡ read_after (queried_after w))
  Ensured w (err e, w') = Looked w w'

  ensure_ngsm_managed-Ensured : (w : b.World) → Ensured w (ensure_ngsm_managed b name w)
  unfolding ensure_ngsm_managed
  ensure_ngsm_managed-Ensured w =
      >>=-elim (Ensured w) (b.query_service name) _ w
        (λ native seen.
          let w₁ = queried_after w in
          let P = Owning w native w₁ in
          lift native seen _ (
            >>=-elim P (read_or b name _) _ w₁
              (λ managed answer.
                owned w native w₁ managed _ (queried here) (read_or_sound _ w₁ managed answer)
                  (is_managed (definition_of native managed)) refl)
              (λ e failed. read (queried here))))
        (λ e failed. queried here)
    where
      lift :
          (native : NativeService)
          → Queried native w
          → (p : Result Error (Unit {0}) × b.World) → Owning w native (queried_after w) p
          → Ensured w p
      lift native q (ok u, v) h = (native, q, h.0, h.1)
      lift native q (err e, v) h = h

  abbrev IsEnabled : b.World → Type 0
  IsEnabled w =
      (native : NativeService) × Queried native w × (is_disabled native.config.startup ≡ false)

  abbrev Enabled : b.World → b.World → Result Error (Unit {0}) × b.World → Type 0
  Enabled first w (ok _, w') = IsEnabled w × (w' ≡ queried_after w)
  Enabled first w (err e, w') = Looked first w'

  ensure_enabled-Enabled :
      (first w : b.World) → Looked first w → Enabled first w (ensure_enabled b name w)
  unfolding ensure_enabled
  ensure_enabled-Enabled first w path =
      >>=-elim (Enabled first w) (b.query_service name) _ w
        (λ native seen. elim (Bool-cases (is_disabled native.config.startup)) [
          | inl off ↦ rw off (queried path)
          | inr on ↦ let found : IsEnabled w = (native, seen, on) in rw on (found, refl)
        ])
        (λ e failed. queried path)

  -- What a start from the world `w` answers, and the world after it.
  abbrev pub Started : b.World → Result Error Text × b.World → Type 0
  Started w (r, w') =
      Refused w (r, w')
      ⊎ (((native : NativeService) × Queried native w × IsOurs native (queried_after w))
          × IsEnabled (read_after (queried_after w))
          × (w' ≡ (b.start_service name (queried_after (read_after (queried_after w)))).1)
          × (is_ok r
              ≡ is_ok (b.start_service name (queried_after (read_after (queried_after w)))).0))

  -- A start acts only on a service of NGSM that is not disabled. Either it answers an error after nothing but queries
  -- and reads; or, from its first world on, it has queried the service, read a configuration with which that is one of
  -- NGSM, queried the service again and found it not disabled, and the next and last thing it did is to start the
  -- service. Then it succeeds exactly if that call did.
  pub start-Started : (w : b.World) → Started w (start b name w)
  unfolding start
  start-Started w =
      let w₂ = read_after (queried_after w) in
      >>=-after (Ensured w) (Started w) (ensure_ngsm_managed b name) _ w
        (ensure_ngsm_managed-Ensured w)
        (λ u t ours. rw ours.3 (
          >>=-after (Enabled w w₂) (Started w) (ensure_enabled b name) _ w₂
            (ensure_enabled-Enabled w w₂ (read (queried here)))
            (λ v t' on. rw on.1 (begun (ours.0, ours.1, ours.2) on.0))
            (λ e t' path. inl (refl, path))))
        (λ e t path. inl (refl, path))
    where
      begun :
          (native : NativeService) × Queried native w × IsOurs native (queried_after w)
          → IsEnabled (read_after (queried_after w))
          → Started w (
              (b.start_service name >>= λ _.
              pure (text "Start requested for '" ++ (name ++ text "'.")))
                (queried_after (read_after (queried_after w))))
      begun ours on =
          >>=-elim (Started w) (b.start_service name) _
            (queried_after (read_after (queried_after w)))
            (λ x done. inr (ours, on, refl, rw done refl))
            (λ e failed. inr (ours, on, refl, rw failed refl))
