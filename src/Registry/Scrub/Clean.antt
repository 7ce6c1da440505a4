-- ===== src/Registry/Scrub/Clean.antt =====
-- What the scrub of a managed configuration leaves.
use ngsm.Prelude.{◌≡◌, refl, inl, inr, none, List, [], ◌∷◌, ◌++◌, ◌==◌, Bool-cases}
use ngsm.Text.{Text, text}
use ngsm.Result.{Result, ok, err, map_err}
use ngsm.Action.{Act}
use ngsm.Core.Error.{Error}
use ngsm.Registry.Names.{owned_value_names}
use ngsm.Registry.Store.{
  RegistryApi, WinError, map_reg_error, ignored, ignore_missing, delete_value,
}
use ngsm.Registry.Laws.{RegistryLaws}
use ngsm.Registry.Scrub.{noted, scrub_result, scrub_each, scrub_managed}

module _ (api : RegistryApi) (laws : RegistryLaws api) (k : api.Key) where
  open laws use {content}

  abbrev pub Gone : api.World → Text → Type 0
  Gone w name = content w k name ≡ none

  abbrev pub AllGone : api.World → List Text → Type 0
  AllGone w [] = Unit
  AllGone w (name ∷ names) = Gone w name × AllGone w names

  -- A deletion that succeeds, or finds nothing, leaves no value.
  delete_value-Gone :
      (name : Text) (w : api.World)
      → (ignore_missing (delete_value api k name) w).0 ≡ ok tt
      → Gone (ignore_missing (delete_value api k name) w).1 name
  unfolding ignore_missing delete_value map_reg_error
  delete_value-Gone name w h = go (api.reg_delete_value k name w).0 refl h
    where
      context : Text
      context = text "RegDeleteValue(" ++ (name ++ text ")")

      go :
          (r : Result WinError (Unit {0}))
          → (api.reg_delete_value k name w).0 ≡ r
          → ignored (map_err (map_reg_error context) r) ≡ ok tt
          → content (api.reg_delete_value k name w).1 k name ≡ none
      go (ok tt) e q = laws.delete_removes k name w e
      go (err cause) e q = elim (Bool-cases (cause.code == 2)) [
        | inl missing ↦
            laws.delete_adds_nothing k name name w (laws.delete_missing k name w cause e missing)
        | inr other ↦ cc (rw other at q)
      ]

  delete_value-adds_nothing :
      (name other : Text) (w : api.World)
      → Gone w other
      → Gone (ignore_missing (delete_value api k name) w).1 other
  unfolding ignore_missing delete_value
  delete_value-adds_nothing name other w h = laws.delete_adds_nothing k name other w h

  noted_nil :
      (failures : List Text) (name : Text) (r : Result Error (Unit {0}))
      → noted failures name r ≡ []
      → (failures ≡ []) × (r ≡ ok tt)
  noted_nil failures name (ok tt) h = (h, refl)
  noted_nil [] name (err e) h = cc
  noted_nil (f ∷ fs) name (err e) h = cc

  scrub_each_nil :
      (delete : Text → Act api.World Error (Unit {0})) (names failures : List Text) (w : api.World)
      → (scrub_each api delete names failures w).0 ≡ []
      → failures ≡ []
  unfolding scrub_each
  scrub_each_nil delete [] failures w h = h
  scrub_each_nil delete (name ∷ names) failures w h =
      (noted_nil failures name _ (scrub_each_nil delete names _ _ h)).0

  scrub_each-kept :
      (names failures : List Text) (other : Text) (w : api.World)
      → Gone w other
      → Gone (scrub_each api (delete_value api k) names failures w).1 other
  unfolding scrub_each
  scrub_each-kept [] failures other w h = h
  scrub_each-kept (name ∷ names) failures other w h =
      scrub_each-kept names _ other _ (delete_value-adds_nothing name other w h)

  scrub_each-AllGone :
      (names failures : List Text) (w : api.World)
      → (scrub_each api (delete_value api k) names failures w).0 ≡ []
      → AllGone (scrub_each api (delete_value api k) names failures w).1 names
  unfolding scrub_each
  scrub_each-AllGone [] failures w h = tt
  scrub_each-AllGone (name ∷ names) failures w h =
      let deleted =
        (noted_nil failures name _ (scrub_each_nil (delete_value api k) names _ _ h)).1 in
      (
        scrub_each-kept names _ name _ (delete_value-Gone name w deleted),
        scrub_each-AllGone names _ _ h,
      )

  scrub_result-ok : (failures : List Text) → scrub_result failures ≡ ok tt → failures ≡ []
  scrub_result-ok [] h = refl
  scrub_result-ok (f ∷ fs) h = cc

  -- If the scrub of a configuration returns, no value that NGSM owns is left under the key.
  pub scrub_managed-AllGone :
      (w : api.World)
      → (scrub_managed api k w).0 ≡ ok tt
      → AllGone (scrub_managed api k w).1 owned_value_names
  unfolding scrub_managed
  scrub_managed-AllGone w h = scrub_each-AllGone owned_value_names _ _ (scrub_result-ok _ h)
