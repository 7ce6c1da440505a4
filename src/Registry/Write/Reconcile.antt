-- ===== src/Registry/Write/Reconcile.antt =====
-- `write_into_key` of crates/servicemanager-registry/src/imp.rs with its phases 2a to 2c, and the functions that call it.
-- `wanted` of phase 2b, as the pairs of an event and one of its actions
use ngsm.Prelude.{
  ℕ, Bool, not, ◌&&◌, ◌||◌, Option, none, some, List, [], ◌∷◌, ◌++◌, if◌then◌else◌, any, is_some,
}
use ngsm.Text.{Text, text, text_eq, is_empty}
use ngsm.Text.Integer.{parse_i32}
use ngsm.Result.{Result, ok, err, map_ok, reject_if}
use ngsm.Action.{Act, pure, ◌>>=◌, ◌>>◌, from_result}
use ngsm.Core.Error.{Error, invalid_config}
use ngsm.Core.Model.{ManagedApplicationConfig, HookConfig, ExitAction}
use ngsm.Core.Validate.{validate_service_name}
use ngsm.Core.Expansion.Config.{hook_expansion_key}
use ngsm.Registry.NssmKeys
use ngsm.Registry.Decode.{decode_registry_name}
use ngsm.Registry.Names.{owned_value_names}
use ngsm.Registry.ExitActions.{exit_action_str}
use ngsm.Registry.Preflight.{require_application, preflight_config, validate_managed_config}
use ngsm.Registry.Store.{
  RegistryApi, key_read, key_read_write, parameters_rw, ignore_missing, optional, open_subkey,
  create_subkey_under, write_string, write_string_typed, delete_value, delete_subtree,
}
use ngsm.Registry.SingleValue.{parameters_path, require_managed_marker}
use ngsm.Registry.Write.{registry_is_expandable, string_kind, write_scalars}

abbrev pub Wanted : Type 0
Wanted = List (List ℕ × List ℕ)

abbrev pub has_event : List ℕ → Wanted → Bool
has_event event wanted = any (λ (pair : List ℕ × List ℕ). text_eq pair.0 event) wanted

abbrev pub has_action : List ℕ → List ℕ → Wanted → Bool
has_action event action wanted =
    any (λ (pair : List ℕ × List ℕ). text_eq pair.0 event && text_eq pair.1 action) wanted

unfoldable pub decode_names : List (List ℕ) → Result Error (List Text)
unfolding decode_registry_name
decode_names [] = ok []
decode_names (words ∷ rest) = elim (decode_registry_name words) [
  | err e ↦ err e
  | ok name ↦ map_ok (λ names. name ∷ names) (decode_names rest)
]

-- The unnamed value holds the default action.
abbrev pub registry_name : Text → Text
registry_name name = if text_eq name (text "default") then [] else name

abbrev pub is_exit_name : Text → Bool
is_exit_name name = is_empty name || is_some (parse_i32 name)

unfoldable pub check_exit_name : Text → Result Error (Unit {0})
check_exit_name name = reject_if (not (is_exit_name (registry_name name))) (
    invalid_config (
      text "AppExit key '"
      ++ (name
          ++ text
              "' is not a valid i32 exit code — the supervisor would never match it at runtime")))

module _ (api : RegistryApi) where
  open api use {World, Key, windows_name_key, local_machine, lock_service_config}

  unfoldable pub enumerate_value_names : Key → Act World Error (List Text)
  unfolding decode_names
  enumerate_value_names key = do words ← api.enum_value_names key; from_result (decode_names words)

  unfoldable pub enumerate_subkey_names : Key → Act World Error (List Text)
  unfolding decode_names
  enumerate_subkey_names key = do words ← api.enum_subkeys key; from_result (decode_names words)

  abbrev pub if_found {ℓ} :
      {A : Type ℓ} → (A → Act World Error (Unit {0})) → Option A → Act World Error (Unit {0})
  if_found act none = pure tt
  if_found act (some a) = act a

  unfoldable pub check_event_names : Key → List Text → Act World Error (Unit {0})
  unfolding enumerate_value_names open_subkey
  check_event_names events [] = pure tt
  check_event_names events (name ∷ names) = do
    event ← optional (open_subkey api events name key_read)
    if_found (λ k. enumerate_value_names k >>= λ _. pure tt) event
    check_event_names events names

  unfoldable pub check_existing_names : Key → Act World Error (Unit {0})
  unfolding enumerate_value_names enumerate_subkey_names check_event_names open_subkey
  check_existing_names key = do
    exit ← optional (open_subkey api key NssmKeys.app_exit key_read)
    if_found (λ k. enumerate_value_names k >>= λ _. pure tt) exit
    events ← optional (open_subkey api key NssmKeys.app_events key_read)
    if_found (λ k. enumerate_subkey_names k >>= check_event_names k) events

  -- Delete the values with a name that the test does not want.
  unfoldable pub delete_unwanted : Key → (Text → Bool) → List Text → Act World Error (Unit {0})
  unfolding ignore_missing delete_value
  delete_unwanted key wanted [] = pure tt
  delete_unwanted key wanted (name ∷ names) = do
    if wanted name then pure tt else ignore_missing (delete_value api key name)
    delete_unwanted key wanted names

  unfoldable pub write_exit_values : Key → List (Text × ExitAction) → Act World Error (List Text)
  unfolding write_string exit_action_str check_exit_name
  write_exit_values exit_key [] = pure []
  write_exit_values exit_key ((name, action) ∷ actions) = do
    from_result (check_exit_name name)
    write_string api exit_key (registry_name name) (exit_action_str action)
    wanted ← write_exit_values exit_key actions
    pure (registry_name name ∷ wanted)

  unfoldable pub reconcile_exit : Key → List (Text × ExitAction) → Act World Error (Unit {0})
  unfolding write_exit_values enumerate_value_names delete_unwanted delete_subtree
      create_subkey_under
  reconcile_exit key [] = ignore_missing (delete_subtree api key NssmKeys.app_exit)
  reconcile_exit key (entry ∷ actions) = do
    exit_key ← create_subkey_under api key NssmKeys.app_exit
    wanted ← write_exit_values exit_key (entry ∷ actions)
    existing ← enumerate_value_names exit_key
    delete_unwanted exit_key (λ name. any (text_eq name) wanted) existing

  unfoldable pub write_hooks :
      Key → ManagedApplicationConfig → List HookConfig → Act World Error Wanted
  unfolding registry_is_expandable write_string_typed create_subkey_under hook_expansion_key
  write_hooks events_key cfg [] = pure []
  write_hooks events_key cfg (hook ∷ hooks) = do
    event_key ← create_subkey_under api events_key hook.event
    expandable ←
        from_result (registry_is_expandable api cfg (hook_expansion_key hook.event hook.action))
    write_string_typed api event_key hook.action hook.command (string_kind api expandable)
    event ← from_result (windows_name_key hook.event)
    action ← from_result (windows_name_key hook.action)
    wanted ← write_hooks events_key cfg hooks
    pure ((event, action) ∷ wanted)

  unfoldable pub prune_actions : Key → List ℕ → Wanted → List Text → Act World Error (Unit {0})
  unfolding ignore_missing delete_value
  prune_actions event_key event wanted [] = pure tt
  prune_actions event_key event wanted (name ∷ names) = do
    action ← from_result (windows_name_key name)
    if has_action event action wanted
        then pure tt
        else ignore_missing (delete_value api event_key name)
    prune_actions event_key event wanted names

  unfoldable pub prune_event : Key → List ℕ → Wanted → Text → Act World Error (Unit {0})
  unfolding prune_actions enumerate_value_names open_subkey
  prune_event events_key event wanted name = do
    event_key ← optional (open_subkey api events_key name parameters_rw)
    if_found (λ k. enumerate_value_names k >>= prune_actions k event wanted) event_key

  unfoldable pub prune_events : Key → Wanted → List Text → Act World Error (Unit {0})
  unfolding prune_event ignore_missing delete_subtree
  prune_events events_key wanted [] = pure tt
  prune_events events_key wanted (name ∷ names) = do
    event ← from_result (windows_name_key name)
    if has_event event wanted
        then prune_event events_key event wanted name
        else ignore_missing (delete_subtree api events_key name)
    prune_events events_key wanted names

  unfoldable pub reconcile_hooks :
      Key → ManagedApplicationConfig → List HookConfig → Act World Error (Unit {0})
  unfolding write_hooks prune_events enumerate_subkey_names create_subkey_under delete_subtree
  reconcile_hooks key cfg [] = ignore_missing (delete_subtree api key NssmKeys.app_events)
  reconcile_hooks key cfg (hook ∷ hooks) = do
    events_key ← create_subkey_under api key NssmKeys.app_events
    wanted ← write_hooks events_key cfg (hook ∷ hooks)
    existing ← enumerate_subkey_names events_key
    prune_events events_key wanted existing

  unfoldable pub write_into_key : Key → ManagedApplicationConfig → Act World Error (Unit {0})
  unfolding preflight_config check_existing_names write_scalars reconcile_exit reconcile_hooks
      delete_unwanted owned_value_names
  write_into_key key cfg = do
    exit_actions ← from_result (preflight_config windows_name_key cfg)
    check_existing_names key
    written ← write_scalars api key cfg
    reconcile_exit key exit_actions
    reconcile_hooks key cfg cfg.hooks
    delete_unwanted key (λ name. any (text_eq name) written) owned_value_names

  unfoldable pub create_managed_under_service :
      Key → ManagedApplicationConfig → Act World Error (Unit {0})
  unfolding validate_managed_config create_subkey_under write_into_key
  create_managed_under_service service_key cfg = do
    from_result (validate_managed_config windows_name_key cfg)
    key ← create_subkey_under api service_key (text "Parameters")
    write_into_key key cfg

  unfoldable pub create_managed_config :
      Text → ManagedApplicationConfig → Act World Error (Unit {0})
  unfolding validate_managed_config open_subkey create_managed_under_service
  create_managed_config service cfg = do
    from_result (validate_service_name service)
    from_result (validate_managed_config windows_name_key cfg)
    lock_service_config service
    service_key ←
        open_subkey api local_machine (text "SYSTEM\\CurrentControlSet\\Services\\" ++ service)
          key_read_write
    create_managed_under_service service_key cfg

  unfoldable pub write_managed_config : Text → ManagedApplicationConfig → Act World Error (Unit {0})
  unfolding validate_managed_config require_application open_subkey require_managed_marker
      write_into_key
  write_managed_config service cfg = do
    from_result (validate_service_name service)
    from_result (validate_managed_config windows_name_key cfg)
    lock_service_config service
    from_result (require_application cfg)
    key ← open_subkey api local_machine (parameters_path service) parameters_rw
    require_managed_marker api key
    write_into_key key cfg
