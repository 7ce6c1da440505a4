-- ===== src/Registry/SingleValue/Marked.antt =====
-- The marker of a managed service, and what keeps it.
use ngsm.Prelude.{
  ℕ, ◌≡◌, refl, ◌∙◌, ◌⊎◌, inl, inr, true, false, Option, List, [], ◌∷◌, &&-left, &&-right,
  Bool-cases, all,
}
use ngsm.Text.{Text}
use ngsm.Text.Utf16.{IsUnicode}
use ngsm.Result.{Result, ok, err, is_ok}
use ngsm.Action.{>>=-elim, from_result, Keeps, Keeps-pure, Keeps-bind}
use ngsm.Core.Error.{Error}
use ngsm.Registry.NssmKeys
use ngsm.Registry.Bytes.{reg_sz, reg_multi_sz, reg_dword, u32_bytes, string_bytes, multi_bytes}
use ngsm.Registry.Decode.RoundTrip.{bytes_to_wide_string-string_bytes}
use ngsm.Registry.Names.{
  ManagedValueKind, string, multi_string, number, stdio_attribute_names, is_stdio_path_value,
}
use ngsm.Registry.Names.Marker.{differs_from_marker, differs-Differ, stdio_differ}
use ngsm.Registry.MultiValue.{split_multi_value}
use ngsm.Registry.Preflight.{is_blank}
use ngsm.Registry.Store.{
  RegistryApi, WinError, ignore_missing, set_bytes, delete_value, write_string, write_string_typed,
  write_multi_string, write_u32,
}
use ngsm.Registry.Laws.{RegistryLaws}
use ngsm.Registry.Reading.{Unchanged, HasString, is_string_type}
use ngsm.Registry.SingleValue.{clears, parse_number, delete_all, clear_path_value, write_of_kind}

module _ (api : RegistryApi) (laws : RegistryLaws api) (k : api.Key) where
  open laws use {content}

  -- The service is managed: its Application value is a text that is not blank.
  abbrev pub Marked : api.World → Type 0
  Marked w =
      (v : Text) × (ty : ℕ) × HasString api laws k NssmKeys.application w v ty
      × (is_blank v ≡ false)

  -- Nothing is changed, or the service was managed and still is. What fails on a service that is not
  -- managed changes nothing.
  abbrev pub Guarded : api.World → Result Error (Unit {0}) × api.World → Type 0
  Guarded w (r, w') = (Marked w × Marked w') ⊎ ((is_ok r ≡ false) × Unchanged api laws k w w')

  unfoldable pub Kept : Option (ℕ × List ℕ) → api.World → Type 0
  Kept marker w = content w k NssmKeys.application ≡ marker

  module _ (marker : Option (ℕ × List ℕ)) where
    pub delete_value-Keeps :
        (name : Text)
        → differs_from_marker name ≡ true
        → Keeps (Kept marker) (ignore_missing (delete_value api k name))
    unfolding Kept ignore_missing delete_value
    delete_value-Keeps name h = record {
      at =
          λ w kept. laws.delete_others k name NssmKeys.application w (differs-Differ name h) ∙ kept;
    }

    delete_all-Keeps :
        (names : List Text)
        → all differs_from_marker names ≡ true
        → Keeps (Kept marker) (delete_all api k names)
    unfolding delete_all
    delete_all-Keeps [] h = Keeps-pure tt
    delete_all-Keeps (name ∷ names) h =
        Keeps-bind _ _
          (delete_value-Keeps name
            (&&-left (differs_from_marker name) (all differs_from_marker names) h))
          (λ _.
            delete_all-Keeps names
              (&&-right (differs_from_marker name) (all differs_from_marker names) h))

    pub clear_path_value-Keeps :
        (canonical : Text)
        → differs_from_marker canonical ≡ true
        → Keeps (Kept marker) (clear_path_value api k canonical)
    unfolding clear_path_value
    clear_path_value-Keeps canonical h = Keeps-bind _ _ (delete_value-Keeps canonical h) (λ _.
        elim (Bool-cases (is_stdio_path_value canonical)) [
          | inl stdio ↦
              rw stdio
                (delete_all-Keeps (stdio_attribute_names canonical) (stdio_differ canonical stdio))
          | inr other ↦ rw other (Keeps-pure tt)
        ])

    pub set_bytes-Keeps :
        (name : Text) (kind : ℕ) (bytes : List ℕ)
        → differs_from_marker name ≡ true
        → Keeps (Kept marker) (set_bytes api k name kind bytes)
    unfolding Kept set_bytes
    set_bytes-Keeps name kind bytes h = record {
      at = λ w kept.
          laws.set_others k name NssmKeys.application kind bytes w (differs-Differ name h) ∙ kept;
    }

    pub from_result-Keeps : {A : Type 0} (r : Result Error A) → Keeps (Kept marker) (from_result r)
    from_result-Keeps r = record { at = λ w kept. kept }

    -- Writing another value than the marker keeps the marker.
    pub write_of_kind-Keeps :
        (canonical value : Text) (kind : ManagedValueKind)
        → differs_from_marker canonical ≡ true
        → Keeps (Kept marker) (write_of_kind api k canonical value kind)
    unfolding write_of_kind write_string write_string_typed write_multi_string write_u32
    write_of_kind-Keeps canonical value string h = elim (Bool-cases (clears canonical value)) [
      | inl cleared ↦ rw cleared (clear_path_value-Keeps canonical h)
      | inr written ↦ rw written (
          Keeps-bind _ _ (from_result-Keeps (string_bytes canonical value))
            (λ bytes. set_bytes-Keeps canonical reg_sz bytes h))
    ]
    write_of_kind-Keeps canonical value multi_string h =
        Keeps-bind _ _ (from_result-Keeps (multi_bytes canonical (split_multi_value value)))
          (λ bytes. set_bytes-Keeps canonical reg_multi_sz bytes h)
    write_of_kind-Keeps canonical value number h =
        Keeps-bind _ _ (from_result-Keeps (parse_number canonical value))
          (λ n. set_bytes-Keeps canonical reg_dword (u32_bytes n) h)

  pub Marked-Kept :
      (w w' : api.World) → Marked w → Kept (content w k NssmKeys.application) w' → Marked w'
  unfolding Kept
  Marked-Kept w w' (v, ty, (bytes, stored, typed, decoded), filled) kept =
      (v, ty, (bytes, kept ∙ stored, typed, decoded), filled)

  -- Writing a text to the marker that is not blank leaves a marker: the text is read back as it was.
  pub write_marker-Marked :
      (value : Text) (kind : ℕ) (w : api.World)
      → IsUnicode value
      → is_string_type kind ≡ true
      → is_blank value ≡ false
      → Marked w
      → Marked (write_string_typed api k NssmKeys.application value kind w).1
  unfolding write_string_typed set_bytes
  write_marker-Marked value kind w u typed filled marked =
      >>=-elim (λ (out : Result Error (Unit {0}) × api.World). Marked out.1) _ _ w
        (λ bytes encoded.
          stored bytes encoded (api.reg_set_value k NssmKeys.application kind bytes w).0 refl)
        (λ e failed. marked)
    where
      stored :
          (bytes : List ℕ)
          → string_bytes NssmKeys.application value ≡ ok bytes
          → (r : Result WinError (Unit {0}))
          → (api.reg_set_value k NssmKeys.application kind bytes w).0 ≡ r
          → Marked (api.reg_set_value k NssmKeys.application kind bytes w).1
      stored bytes encoded (ok tt) e = (
        value,
        kind,
        (
          bytes,
          laws.set_stores k NssmKeys.application kind bytes w e,
          typed,
          bytes_to_wide_string-string_bytes NssmKeys.application value bytes u encoded,
        ),
        filled,
      )
      stored bytes encoded (err cause) e =
          Marked-Kept w (api.reg_set_value k NssmKeys.application kind bytes w).1 marked (
            unfold Kept in
            laws.set_fails k NssmKeys.application NssmKeys.application kind bytes w cause e)
