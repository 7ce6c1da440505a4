-- ===== src/Registry/Scrub.antt =====
-- `delete_managed_config` of crates/servicemanager-registry/src/imp.rs with `scrub_managed`.
pub mod Clean
use ngsm.Prelude.{
  ℕ, zero, suc, ◌+◌, ◌-◌, ◌*◌, ◌/◌, ◌%◌, ◌^◌, ◌≤◌, ◌<◌, min, max, String, ◌≡◌, refl, sym, ap, ◌∙◌,
  subst, ◌≢◌, ◌↔◌, ◌⊎◌, inl, inr, Bool, true, false, not, ◌&&◌, ◌||◌, Option, none, some, List, [],
  ◌∷◌, ◌++◌, map, reverse, arith, ltb, leb, ◌==◌, if◌then◌else◌, ==_iff, ==_refl, &&-left, &&-right,
  ||-left, ||-right, Bool-cases, Option-cases, length, length-append, get_elem?, take, drop,
  replicate, any, all, find, retain, span_not, is_some, is_none, get_or, is_some_and,
}
use ngsm.Text.{Text, text}
use ngsm.Result.{Result, ok, err}
use ngsm.Action.{Act, pure, ◌>>=◌, ◌>>◌, from_result}
use ngsm.Core.Error.{Error, registry, to_string}
use ngsm.Core.Validate.{validate_service_name}
use ngsm.Registry.NssmKeys
use ngsm.Registry.Names.{owned_value_names}
use ngsm.Registry.Store.{
  RegistryApi, parameters_rw, ignore_missing, optional, open_subkey, delete_value, delete_subtree,
}
use ngsm.Registry.SingleValue.{parameters_path}

abbrev pub noted : List Text → Text → Result Error (Unit {0}) → List Text
noted failures name (ok done) = failures
noted failures name (err e) = failures ++ (name ++ (text " (" ++ (to_string e ++ text ")"))) ∷ []

-- `join("; ")`
unfoldable pub join_failures : List Text → Text
join_failures [] = []
join_failures (f ∷ []) = f
join_failures (f ∷ g ∷ fs) = f ++ (text "; " ++ join_failures (g ∷ fs))

abbrev pub scrub_result : List Text → Result Error (Unit {0})
scrub_result [] = ok tt
scrub_result (f ∷ fs) =
    err (registry (text "could not remove managed registry data: " ++ join_failures (f ∷ fs)))

module _ (api : RegistryApi) where
  open api use {World, Key, local_machine, lock_service_config}

  -- A loop of `scrub_managed`: a failure is noted, and the loop goes on.
  unfoldable pub scrub_each :
      (Text → Act World Error (Unit {0})) → List Text → List Text → World → List Text × World
  unfolding ignore_missing
  scrub_each delete [] failures w = (failures, w)
  scrub_each delete (name ∷ names) failures w =
      let (r, w') = ignore_missing (delete name) w in
      scrub_each delete names (noted failures name r) w'

  unfoldable pub scrub_managed : Key → Act World Error (Unit {0})
  unfolding scrub_each delete_subtree delete_value owned_value_names
  scrub_managed key w =
      let (subtrees, w') =
        scrub_each (delete_subtree api key) (NssmKeys.app_exit ∷ NssmKeys.app_events ∷ []) [] w in
      let (failures, w'') = scrub_each (delete_value api key) owned_value_names subtrees w' in
      (scrub_result failures, w'')

  unfoldable pub scrub_found : Option Key → Act World Error (Unit {0})
  unfolding scrub_managed
  scrub_found none = pure tt
  scrub_found (some key) = scrub_managed key

  unfoldable pub delete_managed_config : Text → Act World Error (Unit {0})
  unfolding scrub_found open_subkey
  delete_managed_config service = do
    from_result (validate_service_name service)
    lock_service_config service
    key ← optional (open_subkey api local_machine (parameters_path service) parameters_rw)
    scrub_found key
