-- ===== src/Examples/RegistryValues.antt =====
-- The theorems on crates/servicemanager-registry at concrete values.
use ngsm.Prelude.{
  ◌^◌, ◌<◌, ◌≡◌, refl, ◌⊎◌, true, not, ◌&&◌, none, some, List, [], ◌∷◌, arith, if◌then◌else◌,
  retain,
}
use ngsm.Examples.TwoKeys.{Store, two_keys, two_keys_laws, two_keys_below}
use ngsm.Text.{Text, text, is_empty, eq_ignore_case, contains_char}
use ngsm.Text.Utf16.{encode_utf16, from_utf16}
use ngsm.Result.{ok}
use ngsm.Core.Model.{ManagedApplicationConfig, default_config, restart}
use ngsm.Registry.NssmKeys
use ngsm.Registry.Bytes.{reg_dword, reg_qword, from_le, multi_bytes, multi_words, wide_to_bytes}
use ngsm.Registry.Decode.{bytes_to_wide_string, bytes_to_wide_multi, decode_u32}
use ngsm.Registry.Decode.RoundTrip.{bytes_to_wide_multi-multi_bytes}
use ngsm.Registry.Decode.Numbers.{decode_u32_bounds}
use ngsm.Registry.MultiValue.{
  split_multi_value, join_multi_value, split_multi_value-join_multi_value,
}
use ngsm.Registry.Names.{lookup_kind, owned_value_names}
use ngsm.Registry.Names.Canonical.{Resolved, lookup_kind-Resolved}
use ngsm.Registry.Preflight.{preflight_config}
use ngsm.Registry.Preflight.Accepted.{IsAccepted, preflight_config-IsAccepted}
use ngsm.Registry.Store.{delete_value}
use ngsm.Registry.SingleValue.{set_value_in_key, unset_value_in_key}
use ngsm.Registry.SingleValue.Marked.{Marked, Guarded}
use ngsm.Registry.SingleValue.Guarded.{single_value-Guarded}
use ngsm.Registry.Scrub.{scrub_managed}
use ngsm.Registry.Scrub.Clean.{AllGone, scrub_managed-AllGone}
use ngsm.Registry.Write.Reconcile.{write_into_key}
use ngsm.Registry.Write.Managed.{write_into_key-Marked}

bytes_to_wide_multi-multi_bytes_example :
    bytes_to_wide_multi (65 ∷ 0 ∷ 61 ∷ 0 ∷ 0 ∷ 0 ∷ 66 ∷ 0 ∷ 0 ∷ 0 ∷ 0 ∷ 0 ∷ [])
    ≡ ok ((b'A' ∷ b'=' ∷ []) ∷ (b'B' ∷ []) ∷ [])
unfolding multi_bytes encode_utf16 wide_to_bytes multi_words contains_char
bytes_to_wide_multi-multi_bytes_example =
    bytes_to_wide_multi-multi_bytes (b'E' ∷ []) ((b'A' ∷ b'=' ∷ []) ∷ (b'B' ∷ []) ∷ [])
      (65 ∷ 0 ∷ 61 ∷ 0 ∷ 0 ∷ 0 ∷ 66 ∷ 0 ∷ 0 ∷ 0 ∷ 0 ∷ 0 ∷ [])
      (((refl, (refl, tt))), ((refl, tt), tt)) refl

decode_u32_bounds_example :
    (513 < 2 ^ 32)
    × (513 ≡ from_le (1 ∷ 2 ∷ 0 ∷ 0 ∷ []))
    × ((reg_dword ≡ reg_dword) ⊎ (reg_dword ≡ reg_qword))
unfolding decode_u32 from_le
decode_u32_bounds_example =
    decode_u32_bounds (b'P' ∷ []) reg_dword (1 ∷ 2 ∷ 0 ∷ 0 ∷ []) 513 (omega arith) refl

abbrev entries : List Text
entries = (b'a' ∷ b',' ∷ b'\\' ∷ []) ∷ [] ∷ (b'b' ∷ []) ∷ []

split_multi_value-join_multi_value_example :
    split_multi_value (join_multi_value entries) ≡ retain (λ s. not (is_empty s)) entries
split_multi_value-join_multi_value_example = split_multi_value-join_multi_value entries

abbrev typed : Text
typed = b' ' ∷ b'a' ∷ b'p' ∷ b'p' ∷ b'e' ∷ b'x' ∷ b'i' ∷ b't' ∷ []

lookup_kind-Resolved_example : Resolved typed (lookup_kind typed)
lookup_kind-Resolved_example = lookup_kind-Resolved typed

abbrev empty_store : Store
empty_store = λ k n. none

single_value-Guarded_example :
    Guarded two_keys two_keys_laws true empty_store
      (set_value_in_key two_keys true typed (b'1' ∷ []) empty_store)
    × Guarded two_keys two_keys_laws true empty_store
        (unset_value_in_key two_keys true typed empty_store)
single_value-Guarded_example =
    single_value-Guarded two_keys two_keys_laws true typed (b'1' ∷ []) empty_store (refl, tt)

scrubbed : (scrub_managed two_keys true empty_store).0 ≡ ok tt
unfolding scrub_managed delete_value ngsm.Registry.Names.stdio_value_names
scrubbed = refl

scrub_managed-AllGone_example :
    AllGone two_keys two_keys_laws true
      (scrub_managed two_keys true empty_store).1
      owned_value_names
scrub_managed-AllGone_example =
    scrub_managed-AllGone two_keys two_keys_laws true empty_store scrubbed

abbrev configuration : ManagedApplicationConfig
configuration = record default_config {
  application = some (b'C' ∷ b':' ∷ b'\\' ∷ b'a' ∷ []);
  environment = (b'A' ∷ b'=' ∷ b'1' ∷ []) ∷ [];
  exit_actions = ((b'-' ∷ b'1' ∷ []), restart) ∷ [];
}

accepted : preflight_config (λ s. ok s) configuration ≡ ok (((b'-' ∷ b'1' ∷ []), restart) ∷ [])
unfolding preflight_config ngsm.Text.trim contains_char
    ngsm.Core.Expansion.Config.is_expandable_string ngsm.Core.Validate.validate_absolute_path
    ngsm.Text.is_control ngsm.Text.is_ascii_alphabetic ngsm.Registry.ExitActions.insert_exit_actions
    eq_ignore_case text ngsm.Text.Integer.parse_i32 ngsm.Text.Integer.show_int
accepted = refl

preflight_config-IsAccepted_example : IsAccepted configuration (((b'-' ∷ b'1' ∷ []), restart) ∷ [])
preflight_config-IsAccepted_example =
    preflight_config-IsAccepted (λ s. ok s) configuration (((b'-' ∷ b'1' ∷ []), restart) ∷ [])
      accepted

-- A store whose Application is the letter a, with the NUL at its end.
abbrev managed_store : Store
managed_store k n =
    if k && eq_ignore_case n NssmKeys.application then some (1, 97 ∷ 0 ∷ 0 ∷ 0 ∷ []) else none

managed_store-Marked : Marked two_keys two_keys_laws true managed_store
unfolding text eq_ignore_case bytes_to_wide_string ngsm.Text.trim ngsm.Registry.Bytes.words_of
    from_utf16
managed_store-Marked = (b'a' ∷ [], 1, (97 ∷ 0 ∷ 0 ∷ 0 ∷ [], refl, refl, refl), refl)

write_into_key-Marked_example :
    Marked two_keys two_keys_laws true (write_into_key two_keys true configuration managed_store).1
write_into_key-Marked_example =
    write_into_key-Marked two_keys two_keys_laws true two_keys_below configuration managed_store
      (refl, (refl, (refl, (refl, tt)))) managed_store-Marked
