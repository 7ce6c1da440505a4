-- ===== src/Registry/SingleValue.antt =====
-- `set_value`, `get_value` and `unset_value` of crates/servicemanager-registry/src/imp.rs: one value of a managed service
-- by its name.
pub mod Marked
pub mod Guarded
use ngsm.Prelude.{ℕ, Bool, false, not, ◌&&◌, Option, none, some, List, [], ◌∷◌, ◌++◌, if◌then◌else◌}
use ngsm.Text.{Text, text, text_eq}
use ngsm.Text.Decimal.{show}
use ngsm.Text.Integer.{parse_u32}
use ngsm.Result.{Result, ok, err, reject_if}
use ngsm.Action.{Act, pure, fail, ◌>>=◌, ◌>>◌, from_result}
use ngsm.Core.Error.{Error, invalid_config}
use ngsm.Core.Validate.{validate_service_name, validate_absolute_path}
use ngsm.Registry.NssmKeys
use ngsm.Registry.Names.{
  ManagedValueKind, string, multi_string, number, stdio_attribute_names, is_path_value,
  is_stdio_path_value, lookup_kind,
}
use ngsm.Registry.MultiValue.{join_multi_value, split_multi_value}
use ngsm.Registry.Preflight.{is_blank}
use ngsm.Registry.Store.{
  RegistryApi, key_read, key_read_write, ignore_missing, optional, open_subkey, opt_string,
  opt_multi_string, opt_u32, write_string, write_multi_string, write_u32, delete_value,
}

pub record ValueRecord : Type 0 where
  pub kind : ManagedValueKind
  pub value : Text

abbrev pub parameters_path : Text → Text
parameters_path service =
    text "SYSTEM\\CurrentControlSet\\Services\\" ++ (service ++ text "\\Parameters")

unfoldable pub marker_missing : Error
marker_missing =
    invalid_config
      (text "a valid nonempty Application marker is required; native services cannot be modified")

abbrev pub is_marker : Option Text → Bool
is_marker none = false
is_marker (some value) = not (is_blank value)

-- The guard of `set_value_in_key` on the marker and on paths, before anything is read.
unfoldable pub check_new_value : Text → Text → Result Error (Unit {0})
check_new_value canonical value =
    if text_eq canonical NssmKeys.application && is_blank value
    then err (
        invalid_config
          (text "Application must not be set to an empty value — it is the managed-service marker"))
    else if is_path_value canonical && not (is_blank value)
    then validate_absolute_path canonical value
    else ok tt

abbrev pub clears : Text → Text → Bool
clears canonical value =
    is_path_value canonical && (not (text_eq canonical NssmKeys.application) && is_blank value)

unfoldable pub parse_number : Text → Text → Result Error ℕ
parse_number canonical value = elim (parse_u32 value) [
  | none ↦ err (
      invalid_config (canonical ++ (text " expects a numeric value, got '" ++ (value ++ text "'"))))
  | some n ↦ ok n
]

-- The guard of `unset_value_in_key`.
unfoldable pub check_unset : Text → Result Error (Unit {0})
check_unset canonical = reject_if (text_eq canonical NssmKeys.application) (
    invalid_config (
      text
        "refusing to unset Application — it is the managed-service marker; remove the whole managed config instead"))

abbrev pub record_of : ManagedValueKind → Option Text → Option ValueRecord
record_of kind none = none
record_of kind (some v) = some (record { kind = kind; value = v })

abbrev map_some {ℓ} : {A : Type ℓ} → (A → Text) → Option A → Option Text
map_some f none = none
map_some f (some a) = some (f a)

module _ (api : RegistryApi) where
  open api use {World, Key, local_machine, lock_service_config}

  unfoldable pub require_managed_marker : Key → Act World Error (Unit {0})
  unfolding opt_string
  require_managed_marker key = do
    marker ← opt_string api key NssmKeys.application
    if is_marker marker then pure tt else fail marker_missing

  unfoldable pub delete_all : Key → List Text → Act World Error (Unit {0})
  unfolding ignore_missing delete_value
  delete_all key [] = pure tt
  delete_all key (name ∷ names) = do
    ignore_missing (delete_value api key name)
    delete_all key names

  unfoldable pub clear_path_value : Key → Text → Act World Error (Unit {0})
  unfolding delete_all is_stdio_path_value stdio_attribute_names
  clear_path_value key canonical = do
    ignore_missing (delete_value api key canonical)
    if is_stdio_path_value canonical
        then delete_all key (stdio_attribute_names canonical)
        else pure tt

  unfoldable pub write_of_kind : Key → Text → Text → ManagedValueKind → Act World Error (Unit {0})
  unfolding clear_path_value parse_number
  write_of_kind key canonical value string =
      if clears canonical value
      then clear_path_value key canonical
      else write_string api key canonical value
  write_of_kind key canonical value multi_string =
      write_multi_string api key canonical (split_multi_value value)
  write_of_kind key canonical value number = do
    parsed ← from_result (parse_number canonical value)
    write_u32 api key canonical parsed

  unfoldable pub set_value_in_key : Key → Text → Text → Act World Error (Unit {0})
  unfolding write_of_kind require_managed_marker check_new_value lookup_kind
  set_value_in_key key name value = do
    (canonical, kind) ← from_result (lookup_kind name)
    from_result (check_new_value canonical value)
    require_managed_marker key
    write_of_kind key canonical value kind

  unfoldable pub set_value : Text → Text → Text → Act World Error (Unit {0})
  unfolding set_value_in_key open_subkey
  set_value service name value = do
    from_result (validate_service_name service)
    lock_service_config service
    key ← open_subkey api local_machine (parameters_path service) key_read_write
    set_value_in_key key name value

  unfoldable pub unset_value_in_key : Key → Text → Act World Error (Unit {0})
  unfolding clear_path_value require_managed_marker check_unset lookup_kind
  unset_value_in_key key name = do
    (canonical, kind) ← from_result (lookup_kind name)
    from_result (check_unset canonical)
    require_managed_marker key
    if is_stdio_path_value canonical
        then clear_path_value key canonical
        else ignore_missing (delete_value api key canonical)

  unfoldable pub unset_value : Text → Text → Act World Error (Unit {0})
  unfolding unset_value_in_key open_subkey
  unset_value service name = do
    from_result (validate_service_name service)
    lock_service_config service
    key ← open_subkey api local_machine (parameters_path service) key_read_write
    unset_value_in_key key name

  unfoldable pub get_of_kind : Key → Text → ManagedValueKind → Act World Error (Option ValueRecord)
  get_of_kind key canonical string = do v ← opt_string api key canonical; pure (record_of string v)
  get_of_kind key canonical multi_string = do
    v ← opt_multi_string api key canonical
    pure (record_of multi_string (map_some join_multi_value v))
  get_of_kind key canonical number = do
    v ← opt_u32 api key canonical
    pure (record_of number (map_some show v))

  unfoldable pub get_found :
      Text → ManagedValueKind → Option Key → Act World Error (Option ValueRecord)
  unfolding get_of_kind
  get_found canonical kind none = pure none
  get_found canonical kind (some key) = get_of_kind key canonical kind

  unfoldable pub get_value : Text → Text → Act World Error (Option ValueRecord)
  unfolding get_found open_subkey lookup_kind
  get_value service name = do
    from_result (validate_service_name service)
    (canonical, kind) ← from_result (lookup_kind name)
    key ← optional (open_subkey api local_machine (parameters_path service) key_read)
    get_found canonical kind key
