-- ===== src/Registry/Write/Managed.antt =====
-- A managed service stays managed when its configuration is written.
use ngsm.Prelude.{
  ℕ, ◌≡◌, subst, inl, inr, Bool, true, ◌||◌, Option, none, some, List, [], ◌∷◌, &&-left, &&-right,
  Bool-cases, any, all,
}
use ngsm.Text.{Text, text_eq}
use ngsm.Text.Utf16.{IsUnicode}
use ngsm.Result.{Result}
use ngsm.Action.{◌>>◌, >>=-elim, >>=-after, from_result, Keeps, Keeps-pure, Keeps-bind}
use ngsm.Core.Error.{Error}
use ngsm.Core.Model.{ManagedApplicationConfig, ExitAction}
use ngsm.Registry.Names.{owned_value_names}
use ngsm.Registry.Names.Marker.{differs_from_marker, owned_covered}
use ngsm.Registry.Preflight.{preflight_config}
use ngsm.Registry.Preflight.Accepted.{preflight_config-IsAccepted}
use ngsm.Registry.Store.{RegistryApi}
use ngsm.Registry.Laws.{RegistryLaws}
use ngsm.Registry.SingleValue.Marked.{Marked, Kept, delete_value-Keeps}
use ngsm.Registry.Write.{Written, write_scalars}
use ngsm.Registry.Write.Reconcile.{
  check_existing_names, delete_unwanted, reconcile_exit, reconcile_hooks, write_into_key,
}
use ngsm.Registry.Write.Subkeys.{SubkeyLaws}
use ngsm.Registry.Write.Calm.{check_existing_names-Calm, reconcile_exit-Calm, reconcile_hooks-Calm}
use ngsm.Registry.Write.Scalars.{HasMarker, IsGood, Calm-Marked}
use ngsm.Registry.Write.Phases.{write_scalars-IsGood}

abbrev pub OptionUnicode : Option Text → Type 0
OptionUnicode none = Unit
OptionUnicode (some s) = IsUnicode s

module _ (api : RegistryApi) (laws : RegistryLaws api) (k : api.Key)
    (below : SubkeyLaws api laws k) where
  stale-Keeps :
      (marker : Option (ℕ × List ℕ)) (wanted : Text → Bool) (names : List Text)
      → all (λ n. wanted n || differs_from_marker n) names ≡ true
      → Keeps (Kept api laws k marker) (delete_unwanted api k wanted names)
  unfolding delete_unwanted
  stale-Keeps marker wanted [] h = Keeps-pure tt
  stale-Keeps marker wanted (name ∷ names) h =
      let here =
        &&-left (wanted name || differs_from_marker name)
          (all (λ n. wanted n || differs_from_marker n) names) h in
      let later =
        &&-right (wanted name || differs_from_marker name)
          (all (λ n. wanted n || differs_from_marker n) names) h in
      Keeps-bind _ _
        (elim (Bool-cases (wanted name)) [
          | inl keep ↦ rw keep (Keeps-pure tt)
          | inr stale ↦ rw stale (delete_value-Keeps api laws k marker name (rw stale at here))
        ])
        (λ _. stale-Keeps marker wanted names later)

  -- The phases that delete, after all that is written.
  reconcile-Keeps :
      (cfg : ManagedApplicationConfig) (actions : List (Text × ExitAction)) (written : Written)
      → HasMarker written
      → (marker : Option (ℕ × List ℕ))
      → Keeps (Kept api laws k marker) (do
        reconcile_exit api k actions
        reconcile_hooks api k cfg cfg.hooks
        delete_unwanted api k (λ name. any (text_eq name) written) owned_value_names)
  reconcile-Keeps cfg actions written h marker =
      Keeps-bind _ _ (reconcile_exit-Calm api laws k below marker actions) (λ _.
        Keeps-bind _ _ (reconcile_hooks-Calm api laws k below marker cfg cfg.hooks) (λ _.
          stale-Keeps marker (λ name. any (text_eq name) written) owned_value_names
            (owned_covered (λ name. any (text_eq name) written) h)))

  -- Writing a whole configuration over that of a managed service leaves the service managed: its
  -- Application value is a text and not blank, whether the write succeeds or any step of it fails.
  pub write_into_key-Marked :
      (cfg : ManagedApplicationConfig) (w : api.World)
      → OptionUnicode cfg.application
      → Marked api laws k w
      → Marked api laws k (write_into_key api k cfg w).1
  unfolding write_into_key
  write_into_key-Marked cfg w u m =
      >>=-elim (λ (out : Result Error (Unit {0}) × api.World). Marked api laws k out.1)
        (from_result (preflight_config api.windows_name_key cfg)) _ w
        (λ actions accepted.
          let (app, e, filled) =
            (preflight_config-IsAccepted api.windows_name_key cfg actions accepted).application in
          >>=-after (λ (out : Result Error (Unit {0}) × api.World). Marked api laws k out.1)
            (λ (out : Result Error (Unit {0}) × api.World). Marked api laws k out.1)
            (check_existing_names api k) _ w
            (Calm-Marked api laws k _ w
              (λ marker. check_existing_names-Calm api laws k below marker) m)
            (λ _ t m'.
              >>=-after (IsGood api laws k)
                (λ (out : Result Error (Unit {0}) × api.World). Marked api laws k out.1)
                (write_scalars api k cfg) _ t
                (write_scalars-IsGood api laws k cfg app t e (subst OptionUnicode e u) filled m')
                (λ written t' (m'', h).
                  Calm-Marked api laws k _ t' (reconcile-Keeps cfg actions written h) m'')
                (λ e t' m''. m''))
            (λ e t m'. m'))
        (λ e failed. m)
