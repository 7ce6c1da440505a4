-- ===== src/Registry/Store.antt =====
-- The registry calls behind crates/servicemanager-registry/src/imp.rs, and the helpers of that file that turn one call into
-- the reading or the writing of one value.
-- The code of an error of Windows, and its text.
use ngsm.Prelude.{
  ℕ, Bool, true, false, not, ◌&&◌, Option, none, some, List, ◌++◌, ◌==◌, if◌then◌else◌, take,
}
use ngsm.Text.{Text, text}
use ngsm.Result.{Result, ok, err, reject_if, map_err}
use ngsm.Action.{Act, pure, ◌>>=◌, ◌>>◌, from_result}
use ngsm.Core.Error.{Error, not_found, registry}
use ngsm.Registry.Bytes.{
  reg_sz, reg_expand_sz, reg_dword, reg_multi_sz, string_bytes, multi_bytes, u32_bytes,
}
use ngsm.Registry.Decode.{bytes_to_wide_string, bytes_to_wide_multi, decode_u32}

pub record WinError : Type 0 where
  pub code : ℕ
  pub message : Text

-- The rights that a key is opened with: KEY_READ, KEY_READ | KEY_WRITE, or `parameters_rw_sam`.
pub data Access : Type 0 where
  key_read key_read_write parameters_rw : Access

-- The functions of Windows. A query gives the type, the buffer and the bytes that were written to it. The three
-- enumerations are loops over RegEnumValueW and RegEnumKeyExW until there are no more items, and give names as
-- they stand in the registry, before they are decoded. `windows_name_key` and `lock_service_config` are those of
-- config_lock.rs. A handle is closed when it is dropped, which has no outcome.
pub record RegistryApi : Type 1 where
  pub World : Type 0
  pub Key : Type 0
  pub local_machine : Key
  pub open_key : Key → Text → Access → Act World WinError Key
  pub create_key : Key → Text → Access → Act World WinError Key
  pub query_size : Key → Text → Act World WinError ℕ
  pub query_value : Key → Text → ℕ → Act World WinError (ℕ × List ℕ × ℕ)
  pub reg_set_value : Key → Text → ℕ → List ℕ → Act World WinError (Unit {0})
  pub reg_delete_value : Key → Text → Act World WinError (Unit {0})
  pub reg_delete_tree : Key → Text → Act World WinError (Unit {0})
  pub enum_value_names : Key → Act World Error (List (List ℕ))
  pub enum_values : Key → Act World Error (List (List ℕ × ℕ × List ℕ))
  pub enum_subkeys : Key → Act World Error (List (List ℕ))
  pub windows_name_key : Text → Result Error (List ℕ)
  pub lock_service_config : Text → Act World Error (Unit {0})

unfoldable pub map_reg_error : Text → WinError → Error
map_reg_error context e =
    if e.code == 2 then not_found context else registry (context ++ (text ": " ++ e.message))

abbrev pub is_not_found : Error → Bool
is_not_found (not_found m) = true
is_not_found _ = false

-- The outcome of a call of Windows, in its context.
abbrev pub named {ℓ} : {S : Type 0} {A : Type ℓ} → Text → Act S WinError A → Act S Error A
named context m w = let (r, w') = m w in (map_err (map_reg_error context) r, w')

abbrev pub ignored : Result Error (Unit {0}) → Result Error (Unit {0})
ignored (ok v) = ok v
ignored (err e) = if is_not_found e then ok tt else err e

unfoldable pub ignore_missing : {S : Type 0} → Act S Error (Unit {0}) → Act S Error (Unit {0})
ignore_missing m w = let (r, w') = m w in (ignored r, w')

-- `Err(Error::NotFound(_)) => Ok(None)`
abbrev pub found_or_none {ℓ} : {A : Type ℓ} → Result Error A → Result Error (Option A)
found_or_none (ok v) = ok (some v)
found_or_none (err e) = if is_not_found e then ok none else err e

unfoldable pub optional {ℓ} : {S : Type 0} {A : Type ℓ} → Act S Error A → Act S Error (Option A)
optional m w = let (r, w') = m w in (found_or_none r, w')

module _ (api : RegistryApi) where
  open api use {World, Key}

  unfoldable pub open_subkey : Key → Text → Access → Act World Error Key
  unfolding map_reg_error
  open_subkey parent path sam =
      named (text "RegOpenKeyEx(" ++ (path ++ text ")")) (api.open_key parent path sam)

  unfoldable pub create_subkey_under : Key → Text → Act World Error Key
  unfolding map_reg_error
  create_subkey_under parent name =
      named (text "RegCreateKeyEx(" ++ (name ++ text ")"))
        (api.create_key parent name parameters_rw)

  unfoldable pub query_value_raw : Key → Text → Act World Error (ℕ × List ℕ)
  unfolding map_reg_error
  query_value_raw key name = do
    bytes_needed ←
        named (text "RegQueryValueEx(" ++ (name ++ text ") size")) (api.query_size key name)
    (value_type, buffer, written) ←
        named (text "RegQueryValueEx(" ++ (name ++ text ")"))
          (api.query_value key name bytes_needed)
    pure (value_type, take written buffer)

  unfoldable pub read_typed_string : Key → Text → Act World Error (Text × ℕ)
  unfolding query_value_raw bytes_to_wide_string
  read_typed_string key name = do
    (ty, bytes) ← query_value_raw key name
    from_result (
        reject_if (not (ty == reg_sz) && not (ty == reg_expand_sz))
          (registry (text "value " ++ (name ++ text " is not REG_SZ"))))
    value ← from_result (bytes_to_wide_string bytes)
    pure (value, ty)

  unfoldable pub read_string : Key → Text → Act World Error Text
  unfolding read_typed_string
  read_string key name = do (value, ty) ← read_typed_string key name; pure value

  unfoldable pub read_multi_string : Key → Text → Act World Error (List Text)
  unfolding query_value_raw bytes_to_wide_multi
  read_multi_string key name = do
    (ty, bytes) ← query_value_raw key name
    from_result (
        reject_if (not (ty == reg_multi_sz))
          (registry (text "value " ++ (name ++ text " is not REG_MULTI_SZ"))))
    from_result (bytes_to_wide_multi bytes)

  unfoldable pub read_u32 : Key → Text → Act World Error ℕ
  unfolding query_value_raw decode_u32
  read_u32 key name = do
    (ty, bytes) ← query_value_raw key name
    from_result (decode_u32 name ty bytes)

  unfoldable pub opt_string : Key → Text → Act World Error (Option Text)
  unfolding read_string optional
  opt_string key name = optional (read_string key name)

  unfoldable pub opt_multi_string : Key → Text → Act World Error (Option (List Text))
  unfolding read_multi_string optional
  opt_multi_string key name = optional (read_multi_string key name)

  unfoldable pub opt_u32 : Key → Text → Act World Error (Option ℕ)
  unfolding read_u32 optional
  opt_u32 key name = optional (read_u32 key name)

  unfoldable pub set_bytes : Key → Text → ℕ → List ℕ → Act World Error (Unit {0})
  unfolding map_reg_error
  set_bytes key name kind bytes =
      named (text "RegSetValueEx(" ++ (name ++ text ")")) (api.reg_set_value key name kind bytes)

  unfoldable pub write_string_typed : Key → Text → Text → ℕ → Act World Error (Unit {0})
  unfolding string_bytes set_bytes
  write_string_typed key name value kind = do
    bytes ← from_result (string_bytes name value)
    set_bytes key name kind bytes

  unfoldable pub write_string : Key → Text → Text → Act World Error (Unit {0})
  unfolding write_string_typed
  write_string key name value = write_string_typed key name value reg_sz

  unfoldable pub write_multi_string : Key → Text → List Text → Act World Error (Unit {0})
  unfolding multi_bytes set_bytes
  write_multi_string key name values = do
    bytes ← from_result (multi_bytes name values)
    set_bytes key name reg_multi_sz bytes

  unfoldable pub write_u32 : Key → Text → ℕ → Act World Error (Unit {0})
  unfolding set_bytes u32_bytes
  write_u32 key name value = set_bytes key name reg_dword (u32_bytes value)

  unfoldable pub delete_value : Key → Text → Act World Error (Unit {0})
  unfolding map_reg_error
  delete_value key name =
      named (text "RegDeleteValue(" ++ (name ++ text ")")) (api.reg_delete_value key name)

  unfoldable pub delete_subtree : Key → Text → Act World Error (Unit {0})
  unfolding map_reg_error
  delete_subtree key subkey =
      named (text "RegDeleteTree(" ++ (subkey ++ text ")")) (api.reg_delete_tree key subkey)
