-- ===== src/Registry/Write/Calm.antt =====
-- The phases 2a and 2b of a write leave the marker alone, whatever comes of them.
use ngsm.Prelude.{
  ℕ, ◌≡◌, refl, ◌∙◌, inl, inr, Bool, false, Option, none, some, List, [], ◌∷◌, ◌++◌, if◌then◌else◌,
  Bool-cases, any,
}
use ngsm.Text.{Text, text, text_eq, is_empty}
use ngsm.Result.{Result, ok, err, map_err}
use ngsm.Action.{Act, ◌>>=◌, >>=-elim, Keeps, Keeps-pure, Keeps-bind}
use ngsm.Core.Error.{Error}
use ngsm.Core.Model.{ManagedApplicationConfig, HookConfig, ExitAction}
use ngsm.Core.Expansion.Config.{hook_expansion_key}
use ngsm.Registry.NssmKeys
use ngsm.Registry.Bytes.{reg_sz}
use ngsm.Registry.ExitActions.{exit_action_str}
use ngsm.Registry.Store.{
  RegistryApi, Access, key_read, parameters_rw, map_reg_error, found_or_none, is_not_found,
  ignore_missing, optional, open_subkey, write_string, delete_subtree,
}
use ngsm.Registry.Laws.{RegistryLaws}
use ngsm.Registry.Reading.{map_err-ok}
use ngsm.Registry.SingleValue.Marked.{Kept}
use ngsm.Registry.Write.{registry_is_expandable, string_kind}
use ngsm.Registry.Write.Reconcile.{
  Wanted, has_event, has_action, registry_name, check_exit_name, if_found, check_event_names,
  check_existing_names, delete_unwanted, write_exit_values, reconcile_exit, write_hooks,
  prune_actions, prune_event, prune_events, reconcile_hooks, enumerate_value_names,
}
use ngsm.Registry.Write.Subkeys.{
  SubkeyLaws, from_result-Calm, if_Calm, enumerate_value_names-Calm, enumerate_subkey_names-Calm,
  delete_subtree-Calm, delete_below-Calm, write_below-Calm, create_Calm, create_below_Calm,
}

found_or_none-some {ℓ} :
    {A : Type ℓ} (r : Result Error A) {a : A} → found_or_none r ≡ ok (some a) → r ≡ ok a
found_or_none-some (ok a) h = cc h
found_or_none-some (err e) h = elim (Bool-cases (is_not_found e)) [
  | inl missing ↦ cc (rw missing at h)
  | inr other ↦ cc (rw other at h)
]

exit_full : is_empty NssmKeys.app_exit ≡ false
unfolding text
exit_full = refl

events_full : is_empty NssmKeys.app_events ≡ false
unfolding text
events_full = refl

module _ (api : RegistryApi) (laws : RegistryLaws api) (k : api.Key) (below : SubkeyLaws api laws k)
    (marker : Option (ℕ × List ℕ)) where
  open below use {IsBelow}

  open_optional-Calm {ℓ} :
      {B : Type ℓ} (j : api.Key) (n : Text) (sam : Access)
      (f : Option api.Key → Act api.World Error B)
      → ((found : Option api.Key) → Keeps (Kept api laws k marker) (f found))
      → Keeps (Kept api laws k marker) (optional (open_subkey api j n sam) >>= f)
  unfolding optional open_subkey Kept
  open_optional-Calm j n sam f h =
      Keeps-bind _ _
        (record { at = λ w kept. below.open_quiet j n NssmKeys.application sam w ∙ kept }) h

  if_found-Calm :
      (f : api.Key → Act api.World Error (Unit {0})) (found : Option api.Key)
      → ((j : api.Key) → Keeps (Kept api laws k marker) (f j))
      → Keeps (Kept api laws k marker) (if_found api f found)
  if_found-Calm f none h = Keeps-pure tt
  if_found-Calm f (some j) h = h j

  check_event_names-Calm :
      (events : api.Key) (names : List Text)
      → Keeps (Kept api laws k marker) (check_event_names api events names)
  unfolding check_event_names
  check_event_names-Calm events [] = Keeps-pure tt
  check_event_names-Calm events (name ∷ names) = open_optional-Calm events name key_read _ (λ event.
      Keeps-bind _ _
        (if_found-Calm _ event (λ j.
          Keeps-bind _ _ (enumerate_value_names-Calm api laws k below marker j)
            (λ _. Keeps-pure tt)))
        (λ _. check_event_names-Calm events names))

  pub check_existing_names-Calm : Keeps (Kept api laws k marker) (check_existing_names api k)
  unfolding check_existing_names
  check_existing_names-Calm = open_optional-Calm k NssmKeys.app_exit key_read _ (λ exit.
      Keeps-bind _ _
        (if_found-Calm _ exit (λ j.
          Keeps-bind _ _ (enumerate_value_names-Calm api laws k below marker j)
            (λ _. Keeps-pure tt)))
        (λ _. open_optional-Calm k NssmKeys.app_events key_read _ (λ events.
          if_found-Calm _ events (λ j.
            Keeps-bind _ _ (enumerate_subkey_names-Calm api laws k below marker j)
              (λ names. check_event_names-Calm j names)))))

  delete_unwanted_below :
      (j : api.Key) (wanted : Text → Bool) (names : List Text)
      → IsBelow j
      → Keeps (Kept api laws k marker) (delete_unwanted api j wanted names)
  unfolding delete_unwanted
  delete_unwanted_below j wanted [] h = Keeps-pure tt
  delete_unwanted_below j wanted (name ∷ names) h =
      Keeps-bind _ _
        (if_Calm api laws k below marker (wanted name)
          (delete_below-Calm api laws k below marker j name h))
        (λ _. delete_unwanted_below j wanted names h)

  write_exit_values-Calm :
      (j : api.Key) (actions : List (Text × ExitAction))
      → IsBelow j
      → Keeps (Kept api laws k marker) (write_exit_values api j actions)
  unfolding write_exit_values write_string
  write_exit_values-Calm j [] h = Keeps-pure []
  write_exit_values-Calm j ((name, action) ∷ actions) h =
      Keeps-bind _ _ (from_result-Calm api laws k below marker (check_exit_name name)) (λ _.
        Keeps-bind _ _
          (write_below-Calm api laws k below marker j (registry_name name) (exit_action_str action)
            reg_sz h)
          (λ _. Keeps-bind _ _ (write_exit_values-Calm j actions h) (λ wanted. Keeps-pure _)))

  pub reconcile_exit-Calm :
      (actions : List (Text × ExitAction))
      → Keeps (Kept api laws k marker) (reconcile_exit api k actions)
  unfolding reconcile_exit
  reconcile_exit-Calm [] = delete_subtree-Calm api laws k below marker k NssmKeys.app_exit
  reconcile_exit-Calm (entry ∷ actions) =
      create_Calm api laws k below marker _ NssmKeys.app_exit exit_full (λ exit_key h.
        Keeps-bind _ _ (write_exit_values-Calm exit_key (entry ∷ actions) h) (λ wanted.
          Keeps-bind _ _ (enumerate_value_names-Calm api laws k below marker exit_key) (λ existing.
            delete_unwanted_below exit_key (λ name. any (text_eq name) wanted) existing h)))

  write_hooks-Calm :
      (events_key : api.Key) (cfg : ManagedApplicationConfig) (hooks : List HookConfig)
      → IsBelow events_key
      → Keeps (Kept api laws k marker) (write_hooks api events_key cfg hooks)
  unfolding write_hooks
  write_hooks-Calm events_key cfg [] h = Keeps-pure []
  write_hooks-Calm events_key cfg (hook ∷ hooks) h =
      create_below_Calm api laws k below marker _ events_key hook.event h (λ event_key b.
        Keeps-bind _ _
          (from_result-Calm api laws k below marker
            (registry_is_expandable api cfg (hook_expansion_key hook.event hook.action)))
          (λ expandable.
            Keeps-bind _ _
              (write_below-Calm api laws k below marker event_key hook.action hook.command
                (string_kind api expandable) b)
              (λ _.
                Keeps-bind _ _
                  (from_result-Calm api laws k below marker (api.windows_name_key hook.event))
                  (λ event.
                    Keeps-bind _ _
                      (from_result-Calm api laws k below marker (api.windows_name_key hook.action))
                      (λ action.
                        Keeps-bind _ _ (write_hooks-Calm events_key cfg hooks h)
                          (λ wanted. Keeps-pure _))))))

  prune_actions-Calm :
      (j : api.Key) (event : List ℕ) (wanted : Wanted) (names : List Text)
      → IsBelow j
      → Keeps (Kept api laws k marker) (prune_actions api j event wanted names)
  unfolding prune_actions
  prune_actions-Calm j event wanted [] h = Keeps-pure tt
  prune_actions-Calm j event wanted (name ∷ names) h =
      Keeps-bind _ _ (from_result-Calm api laws k below marker (api.windows_name_key name))
        (λ action.
          Keeps-bind _ _
            (if_Calm api laws k below marker (has_action event action wanted)
              (delete_below-Calm api laws k below marker j name h))
            (λ _. prune_actions-Calm j event wanted names h))

  prune_event-Calm :
      (events_key : api.Key) (event : List ℕ) (wanted : Wanted) (name : Text)
      → IsBelow events_key
      → Keeps (Kept api laws k marker) (prune_event api events_key event wanted name)
  unfolding prune_event optional open_subkey
  prune_event-Calm events_key event wanted name h = record {
    at = λ w kept.
        let quiet : Kept api laws k marker (api.open_key events_key name parameters_rw w).1 =
          unfold Kept in
          (below.open_quiet events_key name NssmKeys.application parameters_rw w
            ∙ unfold Kept in kept) in
        >>=-elim (λ (out : Result Error (Unit {0}) × api.World). Kept api laws k marker out.1) _ _ w
          (λ found e. work found w e quiet) (λ e failed. quiet);
  }
    where
      work :
          (found : Option api.Key) (w : api.World)
          → found_or_none (
              map_err
                (map_reg_error (text "RegOpenKeyEx(" ++ (name ++ text ")")))
                (api.open_key events_key name parameters_rw w).0)
            ≡ ok found
          → Kept api laws k marker (api.open_key events_key name parameters_rw w).1
          → Kept api laws k marker
              (if_found api
                (λ j. enumerate_value_names api j >>= prune_actions api j event wanted)
                found
                (api.open_key events_key name parameters_rw w).1).1
      work none w e quiet = quiet
      work (some j) w e quiet =
          let opened = map_err-ok _ _ (found_or_none-some _ e) in
          let b = below.opened_below events_key name parameters_rw w j h opened in
          (Keeps-bind _ _ (enumerate_value_names-Calm api laws k below marker j)
              (λ names. prune_actions-Calm j event wanted names b)).at
            _ quiet

  prune_events-Calm :
      (events_key : api.Key) (wanted : Wanted) (names : List Text)
      → IsBelow events_key
      → Keeps (Kept api laws k marker) (prune_events api events_key wanted names)
  unfolding prune_events
  prune_events-Calm events_key wanted [] h = Keeps-pure tt
  prune_events-Calm events_key wanted (name ∷ names) h =
      Keeps-bind _ _ (from_result-Calm api laws k below marker (api.windows_name_key name))
        (λ event. Keeps-bind _ _ (choice event) (λ _. prune_events-Calm events_key wanted names h))
    where
      choice :
          (event : List ℕ)
          → Keeps (Kept api laws k marker) (
              if has_event event wanted
              then prune_event api events_key event wanted name
              else ignore_missing (delete_subtree api events_key name))
      choice event = elim (Bool-cases (has_event event wanted)) [
        | inl keep ↦ rw keep (prune_event-Calm events_key event wanted name h)
        | inr drop_it ↦ rw drop_it (delete_subtree-Calm api laws k below marker events_key name)
      ]

  pub reconcile_hooks-Calm :
      (cfg : ManagedApplicationConfig) (hooks : List HookConfig)
      → Keeps (Kept api laws k marker) (reconcile_hooks api k cfg hooks)
  unfolding reconcile_hooks
  reconcile_hooks-Calm cfg [] = delete_subtree-Calm api laws k below marker k NssmKeys.app_events
  reconcile_hooks-Calm cfg (hook ∷ hooks) =
      create_Calm api laws k below marker _ NssmKeys.app_events events_full (λ events_key h.
        Keeps-bind _ _ (write_hooks-Calm events_key cfg (hook ∷ hooks) h) (λ wanted.
          Keeps-bind _ _ (enumerate_subkey_names-Calm api laws k below marker events_key)
            (λ existing. prune_events-Calm events_key wanted existing h)))
