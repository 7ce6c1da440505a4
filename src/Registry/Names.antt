-- ===== src/Registry/Names.antt =====
-- The value names of crates/servicemanager-registry/src/imp.rs: `nssm_keys`, the tables over them, and
-- the resolution of a name that a user typed.
pub mod Canonical
pub mod Marker
use ngsm.Prelude.{
  ℕ, zero, suc, ◌+◌, ◌-◌, ◌*◌, ◌/◌, ◌%◌, ◌^◌, ◌≤◌, ◌<◌, min, max, String, ◌≡◌, refl, sym, ap, ◌∙◌,
  subst, ◌≢◌, ◌↔◌, ◌⊎◌, inl, inr, Bool, true, false, not, ◌&&◌, ◌||◌, Option, none, some, List, [],
  ◌∷◌, ◌++◌, map, reverse, arith, ltb, leb, ◌==◌, if◌then◌else◌, ==_iff, ==_refl, &&-left, &&-right,
  ||-left, ||-right, Bool-cases, Option-cases, length, length-append, get_elem?, take, drop,
  replicate, any, all, find, retain, span_not, is_some, is_none, get_or, is_some_and,
}
use ngsm.Text.{Text, text, text_eq, trim, eq_ignore_case}
use ngsm.Registry.NssmKeys
use ngsm.Result.{Result, ok, err}
use ngsm.Core.Error.{Error, invalid_config}

pub data ManagedValueKind : Type 0 where
  string multi_string number : ManagedValueKind

abbrev pub managed_value_kinds : List (Text × ManagedValueKind)
managed_value_kinds =
    (NssmKeys.application, string)
    ∷ (NssmKeys.app_parameters, string)
    ∷ (NssmKeys.app_directory, string)
    ∷ (NssmKeys.app_environment, multi_string)
    ∷ (NssmKeys.app_environment_extra, multi_string)
    ∷ (NssmKeys.app_priority, number)
    ∷ (NssmKeys.app_affinity, string)
    ∷ (NssmKeys.app_restart_delay, number)
    ∷ (NssmKeys.app_throttle, number)
    ∷ (NssmKeys.app_stop_method_skip, number)
    ∷ (NssmKeys.app_kill_console_grace, number)
    ∷ (NssmKeys.app_kill_window_grace, number)
    ∷ (NssmKeys.app_kill_threads_grace, number)
    ∷ (NssmKeys.app_kill_process_tree, number)
    ∷ (NssmKeys.app_stdin, string)
    ∷ (NssmKeys.app_stdout, string)
    ∷ (NssmKeys.app_stderr, string)
    ∷ (NssmKeys.app_rotate, number)
    ∷ (NssmKeys.app_rotate_online, number)
    ∷ (NssmKeys.app_rotate_seconds, number)
    ∷ (NssmKeys.app_rotate_bytes_low, number)
    ∷ (NssmKeys.app_rotate_bytes_high, number)
    ∷ (NssmKeys.app_rotate_delay, number)
    ∷ (NssmKeys.app_timestamp_log, number)
    ∷ []

abbrev pub managed_value_names : List Text
managed_value_names =
    NssmKeys.application ∷ NssmKeys.app_parameters ∷ NssmKeys.app_directory
    ∷ NssmKeys.app_environment ∷ NssmKeys.app_environment_extra ∷ NssmKeys.app_priority
    ∷ NssmKeys.app_affinity ∷ NssmKeys.app_restart_delay ∷ NssmKeys.app_throttle
    ∷ NssmKeys.app_stop_method_skip ∷ NssmKeys.app_kill_console_grace
    ∷ NssmKeys.app_kill_window_grace ∷ NssmKeys.app_kill_threads_grace
    ∷ NssmKeys.app_kill_process_tree ∷ NssmKeys.app_stdin ∷ NssmKeys.app_stdout
    ∷ NssmKeys.app_stderr ∷ NssmKeys.app_rotate ∷ NssmKeys.app_rotate_online
    ∷ NssmKeys.app_rotate_seconds ∷ NssmKeys.app_rotate_bytes_low ∷ NssmKeys.app_rotate_bytes_high
    ∷ NssmKeys.app_rotate_delay ∷ NssmKeys.app_timestamp_log ∷ []

-- `stdio_attribute_names`; `lookup_kind` and `owned_value_names` write the same loop out.
unfoldable pub stdio_attribute_names : Text → List Text
stdio_attribute_names base =
    (base ++ NssmKeys.app_stdio_sharing)
    ∷ (base ++ NssmKeys.app_stdio_disposition)
    ∷ (base ++ NssmKeys.app_stdio_flags)
    ∷ (base ++ NssmKeys.app_stdio_copy_and_truncate)
    ∷ []

unfoldable pub stdio_value_names : List Text
unfolding stdio_attribute_names
stdio_value_names =
    stdio_attribute_names NssmKeys.app_stdin
    ++ (stdio_attribute_names NssmKeys.app_stdout ++ stdio_attribute_names NssmKeys.app_stderr)

unfoldable pub owned_value_names : List Text
owned_value_names = managed_value_names ++ stdio_value_names

unfoldable pub is_path_value : Text → Bool
is_path_value canonical = any (text_eq canonical) (
    NssmKeys.application ∷ NssmKeys.app_directory ∷ NssmKeys.app_stdin ∷ NssmKeys.app_stdout
    ∷ NssmKeys.app_stderr ∷ [])

unfoldable pub is_stdio_path_value : Text → Bool
is_stdio_path_value canonical =
    any (text_eq canonical) (NssmKeys.app_stdin ∷ NssmKeys.app_stdout ∷ NssmKeys.app_stderr ∷ [])

-- The second loop of `lookup_kind`, where the first finds nothing.
unfoldable pub lookup_attribute : Text → Text → Result Error (Text × ManagedValueKind)
lookup_attribute name normalized =
    elim (find (λ canonical. eq_ignore_case normalized canonical) stdio_value_names) [
      | some canonical ↦ ok (canonical, number)
      | none ↦ err (invalid_config (text "unknown managed value '" ++ (name ++ text "'")))
    ]

unfoldable pub lookup_kind : Text → Result Error (Text × ManagedValueKind)
unfolding lookup_attribute
lookup_kind name =
    elim (find (λ (entry : Text × ManagedValueKind). eq_ignore_case (trim name) entry.0)
      managed_value_kinds) [ some entry ↦ ok entry | none ↦ lookup_attribute name (trim name) ]
