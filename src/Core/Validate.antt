-- ===== src/Core/Validate.antt =====
-- The checks of crates/servicemanager-core/src/validate.rs on names and paths. The source tests the
-- bytes of a path; each of its tests is for an ASCII character at a position that only ASCII
-- characters precede, or for emptiness, so code points decide the same.
pub mod Names
pub mod Paths
use ngsm.Prelude.{
  ℕ, ◌+◌, ◌-◌, ◌/◌, Bool, false, not, ◌&&◌, ◌||◌, [], ◌∷◌, ◌++◌, ltb, ◌==◌, if◌then◌else◌, any,
  span_not,
}
use ngsm.Text.{Text, text, is_empty, is_control, is_ascii_alphabetic, utf16_units}
use ngsm.Text.Decimal.{show}
use ngsm.Result.{Result, ok, err, ◌>>=◌, ◌>>◌, reject_if}
use ngsm.Core.Error.{Error, invalid_config}

abbrev pub max_service_name_len : ℕ
max_service_name_len = 256

-- `\` or `/`
abbrev pub is_separator : ℕ → Bool
is_separator c = c == 92 || c == 47

-- The loop over the characters: the first bad one decides the message.
unfoldable pub check_chars : Text → Text → Text → Result Error (Unit {0})
check_chars separator_message control_message [] = ok tt
check_chars separator_message control_message (c ∷ s) =
    if is_separator c
    then err (invalid_config separator_message)
    else if is_control c
    then err (invalid_config control_message)
    else check_chars separator_message control_message s

unfoldable pub validate_service_name : Text → Result Error (Unit {0})
unfolding check_chars
validate_service_name name = do
  reject_if (is_empty name) (invalid_config (text "service name must not be empty"))
  let len = utf16_units name
  reject_if (ltb max_service_name_len len) (
      invalid_config (
        text "service name is "
        ++ (show len ++ (text " UTF-16 code units; the limit is " ++ show max_service_name_len))))
  check_chars (text "service name '" ++ (name ++ text "' must not contain '\\' or '/'"))
      (text "service name '" ++ (name ++ text "' must not contain control characters")) name

abbrev pub max_hook_component_len : ℕ
max_hook_component_len = 255

unfoldable pub validate_hook_component : Text → Text → Result Error (Unit {0})
unfolding check_chars
validate_hook_component name kind = do
  reject_if (is_empty name)
      (invalid_config (text "hook " ++ (kind ++ text " name must not be empty")))
  let len = utf16_units name
  let start = text "hook " ++ (kind ++ (text " name '" ++ name))
  reject_if (ltb max_hook_component_len len) (
      invalid_config
        (start ++ (text "' is " ++ (show len ++ text " UTF-16 code units; the limit is 255"))))
  check_chars (start ++ text "' must not contain '\\' or '/'")
      (start ++ text "' must not contain control characters") name

-- What follows the two separators of a UNC path: a server, a separator and a share.
abbrev pub after_server : Text × Text → Bool
after_server (server, []) = false
after_server ([], separator ∷ after) = false
after_server (c ∷ server, separator ∷ after) = not (is_empty (span_not is_separator after).0)

unfoldable pub is_unc_tail : Text → Bool
is_unc_tail rest = after_server (span_not is_separator rest)

abbrev pub is_drive : Text → Bool
is_drive (letter ∷ colon ∷ separator ∷ s) =
    is_ascii_alphabetic letter && (colon == b':' && is_separator separator)
is_drive _ = false

unfoldable pub is_unambiguously_absolute : Text → Bool
unfolding is_unc_tail
is_unambiguously_absolute [] = false
is_unambiguously_absolute (a ∷ []) = false
is_unambiguously_absolute (a ∷ b ∷ s) =
    if is_separator a && is_separator b then is_unc_tail s else is_drive (a ∷ b ∷ s)

unfoldable pub validate_absolute_path : Text → Text → Result Error (Unit {0})
unfolding is_unambiguously_absolute
validate_absolute_path field value = do
  reject_if (any is_control value) (
      invalid_config (
        field
        ++ text
            " contains a control character (e.g. NUL, tab, newline); these characters can truncate or corrupt the path as it crosses the registry / Win32 / process-spawn boundaries"))
  reject_if (not (is_unambiguously_absolute value)) (
      invalid_config (
        field
        ++ (text " must be an absolute path (e.g. C:\\path or \\\\server\\share\\path), got '"
            ++ (value ++ text "'"))))
