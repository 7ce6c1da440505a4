-- ===== src/Registry/Read.antt =====
-- `read_managed_config` of crates/servicemanager-registry/src/imp.rs. The set of expandable values is handed on from read to
-- read.
-- A value with the expandable values that are known after it was read
pub mod Config
use ngsm.Prelude.{
  ℕ, ◌+◌, ◌*◌, ◌^◌, Bool, not, ◌&&◌, Option, none, some, List, [], ◌∷◌, ◌++◌, map, ◌==◌,
  if◌then◌else◌, any,
}
use ngsm.Text.{Text, text, text_eq}
use ngsm.Text.Decimal.{show}
use ngsm.Result.{Result, ok, err, map_ok}
use ngsm.Action.{Act, pure, ◌>>=◌, ◌>>◌, from_result}
use ngsm.Core.Error.{Error, invalid_config, registry}
use ngsm.Core.Model.{IoStream, HookConfig, ExitAction}
use ngsm.Core.Validate.{validate_hook_component}
use ngsm.Core.Expansion.Config.{hook_expansion_key}
use ngsm.Registry.NssmKeys
use ngsm.Registry.Bytes.{reg_sz, reg_expand_sz}
use ngsm.Registry.Decode.{bytes_to_wide_string, decode_registry_name}
use ngsm.Registry.ExitActions.{collect_exit_actions}
use ngsm.Registry.Preflight.{is_blank}
use ngsm.Registry.Store.{RegistryApi, key_read, optional, open_subkey, read_typed_string, opt_u32}
use ngsm.Registry.Write.Reconcile.{enumerate_subkey_names}

abbrev pub Marks : Type 0
Marks = List Text

abbrev pub insert_mark : Text → Marks → Marks
insert_mark name marks = if any (text_eq name) marks then marks else name ∷ marks

abbrev pub marked_value : Text → Marks → Option (Text × ℕ) → Option Text × Marks
marked_value name marks none = (none, marks)
marked_value name marks (some (value, kind)) =
    (some value, if kind == reg_expand_sz then insert_mark name marks else marks)

abbrev pub nonzero : Option ℕ → Option Bool
nonzero none = none
nonzero (some v) = some (not (v == 0))

-- `(hi << 32) | lo`
abbrev pub rotate_bytes : Option ℕ → Option ℕ → Option ℕ
rotate_bytes none none = none
rotate_bytes none (some high) = some (high * 2 ^ 32)
rotate_bytes (some low) none = some low
rotate_bytes (some low) (some high) = some (high * 2 ^ 32 + low)

-- The marker: none for a native service.
unfoldable pub classify : Text → Option Text → Result Error (Option Text)
classify service none = ok none
classify service (some v) =
    if is_blank v
    then err (
        invalid_config (
          text "service '"
          ++ (service
              ++ text "' has an empty `Application` value — its managed configuration is corrupt")))
    else ok (some v)

unfoldable pub decode_value : List ℕ × ℕ × List ℕ → Result Error (Text × Text × ℕ)
unfolding decode_registry_name bytes_to_wide_string
decode_value (words, ty, bytes) = elim (decode_registry_name words) [
  | err e ↦ err e
  | ok name ↦
      if not (ty == reg_sz) && not (ty == reg_expand_sz)
      then err (
          registry (
            text "registry value '"
            ++ (name ++ (text "' is not a string (REG type " ++ (show ty ++ text ")")))))
      else map_ok (λ value. (name, value, ty)) (bytes_to_wide_string bytes)
]

unfoldable pub decode_values : List (List ℕ × ℕ × List ℕ) → Result Error (List (Text × Text × ℕ))
unfolding decode_value
decode_values [] = ok []
decode_values (entry ∷ entries) = elim (decode_value entry) [
  | err e ↦ err e
  | ok value ↦ map_ok (λ values. value ∷ values) (decode_values entries)
]

-- The loop of `read_hooks` over the values of one event.
unfoldable pub event_hooks :
    Text → List (Text × Text × ℕ) → Marks → List HookConfig → Result Error (List HookConfig × Marks)
unfolding validate_hook_component hook_expansion_key
event_hooks event [] marks out = ok (out, marks)
event_hooks event ((action, command, kind) ∷ values) marks out =
    let marks' =
      if kind == reg_expand_sz
      then insert_mark (hook_expansion_key event action) marks
      else marks in
    let hook : HookConfig = record { event = event; action = action; command = command } in
    let rest = event_hooks event values marks' (out ++ hook ∷ []) in
    elim (validate_hook_component action (text "action")) [ err e ↦ err e | ok done ↦ rest ]

module _ (api : RegistryApi) where
  open api use {World, Key, local_machine}

  unfoldable pub opt_config_string : Key → Text → Marks → Act World Error (Option Text × Marks)
  unfolding read_typed_string optional
  opt_config_string key name marks = do
    found ← optional (read_typed_string api key name)
    pure (marked_value name marks found)

  unfoldable pub enumerate_typed_string_values : Key → Act World Error (List (Text × Text × ℕ))
  unfolding decode_values
  enumerate_typed_string_values key = do
    entries ← api.enum_values key
    from_result (decode_values entries)

  unfoldable pub enumerate_string_values : Key → Act World Error (List (Text × Text))
  unfolding enumerate_typed_string_values
  enumerate_string_values key = do
    values ← enumerate_typed_string_values key
    pure (map (λ (v : Text × Text × ℕ). (v.0, v.1)) values)

  unfoldable pub stream_at :
      Key → Text → Option Text × Marks → Act World Error (Option IoStream × Marks)
  unfolding opt_u32
  stream_at parent value_name (none, marks) = pure (none, marks)
  stream_at parent value_name (some [], marks) = pure (none, marks)
  stream_at parent value_name (some (c ∷ path), marks) = do
    share_mode ← opt_u32 api parent (value_name ++ NssmKeys.app_stdio_sharing)
    creation_disposition ← opt_u32 api parent (value_name ++ NssmKeys.app_stdio_disposition)
    flags_and_attributes ← opt_u32 api parent (value_name ++ NssmKeys.app_stdio_flags)
    copy_and_truncate ← opt_u32 api parent (value_name ++ NssmKeys.app_stdio_copy_and_truncate)
    pure (
      some (record {
        path = c ∷ path;
        share_mode = share_mode;
        creation_disposition = creation_disposition;
        flags_and_attributes = flags_and_attributes;
        copy_and_truncate = nonzero copy_and_truncate;
      }),
      marks,
    )

  unfoldable pub read_io_stream : Key → Text → Marks → Act World Error (Option IoStream × Marks)
  unfolding opt_config_string stream_at
  read_io_stream parent value_name marks = do
    found ← opt_config_string parent value_name marks
    stream_at parent value_name found

  unfoldable pub exit_actions_at : Option Key → Act World Error (List (Text × ExitAction))
  unfolding enumerate_string_values collect_exit_actions
  exit_actions_at none = pure []
  exit_actions_at (some exit_key) = do
    values ← enumerate_string_values exit_key
    from_result (collect_exit_actions values [])

  unfoldable pub read_exit_actions : Key → Act World Error (List (Text × ExitAction))
  unfolding exit_actions_at open_subkey
  read_exit_actions parent = do
    exit_key ← optional (open_subkey api parent NssmKeys.app_exit key_read)
    exit_actions_at exit_key

  unfoldable pub event_at :
      Text → Marks → List HookConfig → Option Key → Act World Error (List HookConfig × Marks)
  unfolding enumerate_typed_string_values event_hooks
  event_at event marks out none = pure (out, marks)
  event_at event marks out (some event_key) = do
    values ← enumerate_typed_string_values event_key
    from_result (event_hooks event values marks out)

  unfoldable pub read_events :
      Key → List Text → Marks → List HookConfig → Act World Error (List HookConfig × Marks)
  unfolding validate_hook_component event_at open_subkey
  read_events events_key [] marks out = pure (out, marks)
  read_events events_key (event ∷ events) marks out = do
    from_result (validate_hook_component event (text "event"))
    event_key ← optional (open_subkey api events_key event key_read)
    (out', marks') ← event_at event marks out event_key
    read_events events_key events marks' out'

  unfoldable pub hooks_at : Marks → Option Key → Act World Error (List HookConfig × Marks)
  unfolding read_events enumerate_subkey_names
  hooks_at marks none = pure ([], marks)
  hooks_at marks (some events_key) = do
    events ← enumerate_subkey_names api events_key
    read_events events_key events marks []

  unfoldable pub read_hooks : Key → Marks → Act World Error (List HookConfig × Marks)
  unfolding hooks_at open_subkey
  read_hooks parent marks = do
    events_key ← optional (open_subkey api parent NssmKeys.app_events key_read)
    hooks_at marks events_key
