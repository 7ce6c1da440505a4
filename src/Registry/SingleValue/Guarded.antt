-- ===== src/Registry/SingleValue/Guarded.antt =====
-- What setting and unsetting one value keep: a native service stays as it is, and a managed one stays managed.
use ngsm.Prelude.{
  ℕ, ◌≡◌, refl, subst, inl, inr, Bool, true, false, ◌&&◌, Option, none, some, List, if◌then◌else◌,
  Bool-cases,
}
use ngsm.Text.{Text, text_eq}
use ngsm.Text.Laws.{eq_of_text_eq, text_eq_refl}
use ngsm.Text.Utf16.{IsUnicode}
use ngsm.Result.{Result, ok, err}
use ngsm.Action.{pure, fail, >>=-elim, >>=-after, from_result, Keeps}
use ngsm.Core.Error.{Error}
use ngsm.Registry.NssmKeys
use ngsm.Registry.Bytes.{reg_sz}
use ngsm.Registry.Names.{
  ManagedValueKind, string, owned_value_names, is_stdio_path_value, is_path_value, lookup_kind,
}
use ngsm.Registry.Names.Canonical.{IsOneOf, Resolved, lookup_kind-Resolved}
use ngsm.Registry.Names.Marker.{differs_from_marker, owned_differs, marker_kind}
use ngsm.Registry.Preflight.{is_blank}
use ngsm.Registry.Store.{RegistryApi, ignore_missing, delete_value, write_string}
use ngsm.Registry.Laws.{RegistryLaws}
use ngsm.Registry.Reading.{Unchanged, IsOptional, opt_string-IsOptional}
use ngsm.Registry.SingleValue.{
  marker_missing, is_marker, check_new_value, clears, check_unset, require_managed_marker,
  clear_path_value, write_of_kind, set_value_in_key, unset_value_in_key,
}
use ngsm.Registry.SingleValue.Marked.{
  write_marker-Marked, Marked, Guarded, Kept, delete_value-Keeps, clear_path_value-Keeps,
  write_of_kind-Keeps, Marked-Kept,
}

and_false : (b : Bool) → (b && false) ≡ false
and_false true = refl
and_false false = refl

module _ (api : RegistryApi) (laws : RegistryLaws api) (k : api.Key) where
  open laws use {content}

  abbrev IsRequired : api.World → Result Error (Unit {0}) × api.World → Type 0
  IsRequired w (ok done, w') = Marked api laws k w × Unchanged api laws k w w'
  IsRequired w (err e, w') = Unchanged api laws k w w'

  require_managed_marker-IsRequired :
      (w : api.World) → IsRequired w (require_managed_marker api k w)
  unfolding require_managed_marker
  require_managed_marker-IsRequired w =
      >>=-after (IsOptional api laws k NssmKeys.application w) (IsRequired w) _ _ w
        (opt_string-IsOptional api laws k NssmKeys.application w) decide (λ e w' quiet. quiet)
    where
      decide :
          (found : Option Text) (w' : api.World)
          → IsOptional api laws k NssmKeys.application w (ok found, w')
          → IsRequired w ((if is_marker found then pure tt else fail marker_missing) w')
      decide none w' quiet = quiet
      decide (some v) w' ((ty, there), quiet) = elim (Bool-cases (is_blank v)) [
        | inl blank ↦ rw blank quiet
        | inr filled ↦ rw filled ((v, ty, there, filled), quiet)
      ]

  marker_written :
      (value : Text) (w : api.World)
      → IsUnicode value
      → is_blank value ≡ false
      → Marked api laws k w
      → Marked api laws k (write_string api k NssmKeys.application value w).1
  unfolding write_string
  marker_written value w u filled marked =
      write_marker-Marked api laws k value reg_sz w u refl filled marked

  checked_filled :
      (canonical value : Text)
      → text_eq canonical NssmKeys.application ≡ true
      → check_new_value canonical value ≡ ok tt
      → is_blank value ≡ false
  unfolding check_new_value
  checked_filled canonical value same h = elim (Bool-cases (is_blank value)) [
    | inl blank ↦ cc (rw (same, blank) at h)
    | inr filled ↦ filled
  ]

  -- The write of a checked value leaves a managed service managed.
  write_of_kind-Marked :
      (name canonical value : Text) (kind : ManagedValueKind) (w : api.World)
      → IsUnicode value
      → lookup_kind name ≡ ok (canonical, kind)
      → IsOneOf canonical owned_value_names
      → check_new_value canonical value ≡ ok tt
      → Marked api laws k w
      → Marked api laws k (write_of_kind api k canonical value kind w).1
  write_of_kind-Marked name canonical value kind w u found owned checked marked =
      elim (Bool-cases (text_eq canonical NssmKeys.application)) [
        | inr other ↦
            let keeps =
              write_of_kind-Keeps api laws k (content w k NssmKeys.application) canonical value kind
                (owned_differs canonical owned other) in
            Marked-Kept api laws k w _ marked (keeps.at w (unfold Kept in refl))
        | inl same ↦
            let e : canonical ≡ NssmKeys.application =
              eq_of_text_eq canonical NssmKeys.application same in
            let s : kind ≡ string = marker_kind name canonical kind found same in
            let filled = checked_filled canonical value same checked in
            rw (s, e)
              (unfold write_of_kind in
                let keep : clears NssmKeys.application value ≡ false =
                  rw (text_eq_refl NssmKeys.application)
                    (and_false (is_path_value NssmKeys.application)) in
                rw keep (marker_written value w u filled marked))
      ]

  set_value_in_key-Guarded :
      (name value : Text) (w : api.World)
      → IsUnicode value
      → Guarded api laws k w (set_value_in_key api k name value w)
  unfolding set_value_in_key
  set_value_in_key-Guarded name value w u =
      >>=-elim (Guarded api laws k w) (from_result (lookup_kind name)) _ w
        (λ (canonical, kind) found.
          let owned = (subst (Resolved name) found (lookup_kind-Resolved name)).1 in
          >>=-elim (Guarded api laws k w) (from_result (check_new_value canonical value)) _ w
            (λ _ checked.
              >>=-after (IsRequired w) (Guarded api laws k w) (require_managed_marker api k) _ w
                (require_managed_marker-IsRequired w)
                (λ _ w1 (marked, quiet). inl (
                  marked,
                  write_of_kind-Marked name canonical value kind w1 u found owned checked (
                      Marked-Kept api laws k w w1 marked
                        (unfold Kept in quiet NssmKeys.application)),
                ))
                (λ e w1 quiet. inr (refl, quiet)))
            (λ e failed. inr (refl, λ m. refl)))
        (λ e failed. inr (refl, λ m. refl))

  check_unset-other :
      (canonical : Text)
      → check_unset canonical ≡ ok tt
      → text_eq canonical NssmKeys.application ≡ false
  unfolding check_unset
  check_unset-other canonical h = elim (Bool-cases (text_eq canonical NssmKeys.application)) [
    | inl same ↦ cc (rw same at h)
    | inr other ↦ other
  ]

  unset_checked-Keeps :
      (marker : Option (ℕ × List ℕ)) (canonical : Text)
      → differs_from_marker canonical ≡ true
      → Keeps (Kept api laws k marker) (
          if is_stdio_path_value canonical
          then clear_path_value api k canonical
          else ignore_missing (delete_value api k canonical))
  unset_checked-Keeps marker canonical h = elim (Bool-cases (is_stdio_path_value canonical)) [
    | inl stdio ↦ rw stdio (clear_path_value-Keeps api laws k marker canonical h)
    | inr other ↦ rw other (delete_value-Keeps api laws k marker canonical h)
  ]

  unset_value_in_key-Guarded :
      (name : Text) (w : api.World) → Guarded api laws k w (unset_value_in_key api k name w)
  unfolding unset_value_in_key
  unset_value_in_key-Guarded name w =
      >>=-elim (Guarded api laws k w) (from_result (lookup_kind name)) _ w
        (λ (canonical, kind) found.
          let owned = (subst (Resolved name) found (lookup_kind-Resolved name)).1 in
          >>=-elim (Guarded api laws k w) (from_result (check_unset canonical)) _ w
            (λ _ checked.
              let differs = owned_differs canonical owned (check_unset-other canonical checked) in
              >>=-after (IsRequired w) (Guarded api laws k w) (require_managed_marker api k) _ w
                (require_managed_marker-IsRequired w)
                (λ _ w1 (marked, quiet).
                  let marked1 =
                    Marked-Kept api laws k w w1 marked
                      (unfold Kept in quiet NssmKeys.application) in
                  let keeps =
                    unset_checked-Keeps (content w1 k NssmKeys.application) canonical differs in
                  inl (
                    marked,
                    Marked-Kept api laws k w1 _ marked1 (keeps.at w1 (unfold Kept in refl)),
                  ))
                (λ e w1 quiet. inr (refl, quiet)))
            (λ e failed. inr (refl, λ m. refl)))
        (λ e failed. inr (refl, λ m. refl))

  -- Setting or unsetting one value by its name changes nothing of a service without an Application value that
  -- is a text and not blank; and a service with one still has one afterwards, also where the operation fails.
  pub single_value-Guarded :
      (name value : Text) (w : api.World)
      → IsUnicode value
      → Guarded api laws k w (set_value_in_key api k name value w)
        × Guarded api laws k w (unset_value_in_key api k name w)
  single_value-Guarded name value w u =
      (set_value_in_key-Guarded name value w u, unset_value_in_key-Guarded name w)
