-- ===== src/Registry/Write.antt =====
-- `write_into_key` of crates/servicemanager-registry/src/imp.rs, phase 1: every value that a configuration has is written
-- before anything is deleted. Each step hands on the names that are written so far.
pub mod Reconcile
pub mod Subkeys
pub mod Calm
pub mod Scalars
pub mod Phases
pub mod Managed
-- The names that were written. The source keeps them in a hash set.
use ngsm.Prelude.{
  ℕ, zero, suc, ◌+◌, ◌-◌, ◌*◌, ◌/◌, ◌%◌, ◌^◌, ◌≤◌, ◌<◌, min, max, String, ◌≡◌, refl, sym, ap, ◌∙◌,
  subst, ◌≢◌, ◌↔◌, ◌⊎◌, inl, inr, Bool, true, false, not, ◌&&◌, ◌||◌, Option, none, some, List, [],
  ◌∷◌, ◌++◌, map, reverse, arith, ltb, leb, ◌==◌, if◌then◌else◌, ==_iff, ==_refl, &&-left, &&-right,
  ||-left, ||-right, Bool-cases, Option-cases, length, length-append, get_elem?, take, drop,
  replicate, any, all, find, retain, span_not, is_some, is_none, get_or, is_some_and,
}
use ngsm.Text.{Text, text, text_eq}
use ngsm.Result.{Result, ok, err}
use ngsm.Action.{Act, pure, fail, ◌>>=◌, ◌>>◌, from_result}
use ngsm.Core.Error.{Error}
use ngsm.Core.Model.{ManagedApplicationConfig, IoStream}
use ngsm.Registry.NssmKeys
use ngsm.Registry.Bytes.{reg_sz, reg_expand_sz}
use ngsm.Registry.Store.{RegistryApi, write_string_typed, write_multi_string, write_u32}

abbrev pub Written : Type 0
Written = List Text

-- `v as u32` of a Boolean
abbrev pub flag : Bool → ℕ
flag false = 0
flag true = 1

module _ (api : RegistryApi) where
  open api use {World, Key, windows_name_key}

  unfoldable pub marked_as : List ℕ → List Text → Result Error Bool
  marked_as identity [] = ok false
  marked_as identity (marked ∷ rest) = elim (windows_name_key marked) [
    | err e ↦ err e
    | ok other ↦
        let later = marked_as identity rest in if text_eq other identity then ok true else later
  ]

  unfoldable pub registry_is_expandable : ManagedApplicationConfig → Text → Result Error Bool
  unfolding marked_as
  registry_is_expandable cfg name = elim (windows_name_key name) [
    | err e ↦ err e
    | ok identity ↦ marked_as identity cfg.expandable_strings
  ]

  abbrev pub string_kind : Bool → ℕ
  string_kind expandable = if expandable then reg_expand_sz else reg_sz

  unfoldable pub write_config_string :
      Key → ManagedApplicationConfig → Text → Text → Act World Error (Unit {0})
  unfolding registry_is_expandable write_string_typed
  write_config_string key cfg name value = do
    expandable ← from_result (registry_is_expandable cfg name)
    write_string_typed api key name value (string_kind expandable)

  -- The macro `put!`
  unfoldable pub put : Text → Act World Error (Unit {0}) → Written → Act World Error Written
  put name write written = do write; pure (name ∷ written)

  unfoldable pub put_string :
      Key → ManagedApplicationConfig → Text → Option Text → Written → Act World Error Written
  unfolding put write_config_string
  put_string key cfg name none written = pure written
  put_string key cfg name (some v) written = put name (write_config_string key cfg name v) written

  unfoldable pub put_u32 : Key → Text → Option ℕ → Written → Act World Error Written
  unfolding put write_u32
  put_u32 key name none written = pure written
  put_u32 key name (some v) written = put name (write_u32 api key name v) written

  unfoldable pub put_flag : Key → Text → Option Bool → Written → Act World Error Written
  unfolding put write_u32
  put_flag key name none written = pure written
  put_flag key name (some v) written = put name (write_u32 api key name (flag v)) written

  unfoldable pub put_multi : Key → Text → List Text → Written → Act World Error Written
  unfolding put write_multi_string
  put_multi key name [] written = pure written
  put_multi key name (v ∷ values) written =
      put name (write_multi_string api key name (v ∷ values)) written

  -- The two halves of a number of 64 bits.
  unfoldable pub put_bytes : Key → Option ℕ → Written → Act World Error Written
  unfolding put write_u32
  put_bytes key none written = pure written
  put_bytes key (some v) written = do
    low ←
        put NssmKeys.app_rotate_bytes_low
          (write_u32 api key NssmKeys.app_rotate_bytes_low (v % 2 ^ 32)) written
    put NssmKeys.app_rotate_bytes_high
        (write_u32 api key NssmKeys.app_rotate_bytes_high (v / 2 ^ 32)) low

  unfoldable pub write_io_stream :
      Key → ManagedApplicationConfig → Text → Option IoStream → Written → Act World Error Written
  unfolding put_u32 put_flag write_config_string
  write_io_stream key cfg base none names = pure names
  write_io_stream key cfg base (some stream) names = do
    write_config_string key cfg base stream.path
    n1 ← put_u32 key (base ++ NssmKeys.app_stdio_sharing) stream.share_mode (base ∷ names)
    n2 ← put_u32 key (base ++ NssmKeys.app_stdio_disposition) stream.creation_disposition n1
    n3 ← put_u32 key (base ++ NssmKeys.app_stdio_flags) stream.flags_and_attributes n2
    put_flag key (base ++ NssmKeys.app_stdio_copy_and_truncate) stream.copy_and_truncate n3

  unfoldable pub write_policies : Key → ManagedApplicationConfig → Written → Act World Error Written
  unfolding put_u32 put_flag
  write_policies key cfg written = do
    w1 ← put_u32 key NssmKeys.app_restart_delay cfg.restart_policy.restart_delay_ms written
    w2 ← put_u32 key NssmKeys.app_throttle cfg.restart_policy.throttle_delay_ms w1
    w3 ← put_u32 key NssmKeys.app_stop_method_skip cfg.shutdown.stop_method_skip w2
    w4 ← put_u32 key NssmKeys.app_kill_console_grace cfg.shutdown.kill_console_grace_ms w3
    w5 ← put_u32 key NssmKeys.app_kill_window_grace cfg.shutdown.kill_window_grace_ms w4
    w6 ← put_u32 key NssmKeys.app_kill_threads_grace cfg.shutdown.kill_threads_grace_ms w5
    put_flag key NssmKeys.app_kill_process_tree cfg.shutdown.kill_process_tree w6

  unfoldable pub write_rotation : Key → ManagedApplicationConfig → Written → Act World Error Written
  unfolding put_u32 put_flag put_bytes
  write_rotation key cfg written = do
    w1 ← put_flag key NssmKeys.app_rotate cfg.rotation.enabled written
    w2 ← put_u32 key NssmKeys.app_rotate_online cfg.rotation.online w1
    w3 ← put_u32 key NssmKeys.app_rotate_seconds cfg.rotation.seconds w2
    w4 ← put_bytes key cfg.rotation.bytes w3
    put_u32 key NssmKeys.app_rotate_delay cfg.rotation.delay_ms w4

  unfoldable pub write_streams : Key → ManagedApplicationConfig → Written → Act World Error Written
  unfolding put_flag write_io_stream
  write_streams key cfg written = do
    w1 ← put_flag key NssmKeys.app_timestamp_log cfg.io.timestamp_log written
    w2 ← write_io_stream key cfg NssmKeys.app_stdin cfg.io.stdin w1
    w3 ← write_io_stream key cfg NssmKeys.app_stdout cfg.io.stdout w2
    write_io_stream key cfg NssmKeys.app_stderr cfg.io.stderr w3

  unfoldable pub write_scalars : Key → ManagedApplicationConfig → Act World Error Written
  unfolding put_string put_u32 put_multi write_policies write_rotation write_streams
  write_scalars key cfg = do
    w1 ← put_string key cfg NssmKeys.application cfg.application []
    w2 ← put_string key cfg NssmKeys.app_parameters cfg.app_parameters w1
    w3 ← put_string key cfg NssmKeys.app_directory cfg.app_directory w2
    w4 ← put_u32 key NssmKeys.app_priority cfg.priority w3
    w5 ← put_string key cfg NssmKeys.app_affinity cfg.affinity w4
    w6 ← put_multi key NssmKeys.app_environment cfg.environment w5
    w7 ← put_multi key NssmKeys.app_environment_extra cfg.environment_extra w6
    w8 ← write_policies key cfg w7
    w9 ← write_rotation key cfg w8
    write_streams key cfg w9
