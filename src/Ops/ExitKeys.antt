-- ===== src/Ops/ExitKeys.antt =====
-- The exit-action keys of crates/servicemanager-ops/src/recovery.rs.
pub mod Canonical
pub mod Found
use ngsm.Prelude.{◌+◌, ◌-◌, not, ◌||◌, Option, none, some, List, [], ◌∷◌, ◌++◌, any}
use ngsm.Text.{
  Text, text, text_eq, is_empty, trim, eq_ignore_case, is_whitespace, is_control, contains_char,
}
use ngsm.Text.Integer.{ℤ, show_int, parse_i32}
use ngsm.Result.{Result, ok, err, reject_if, ◌>>=◌, ◌>>◌, map_err}
use ngsm.Core.Error.{Error, other, to_string}
use ngsm.Core.Model.{ExitAction}

abbrev pub from_option : Option ℤ → Error → Result Error ℤ
from_option none e = err e
from_option (some z) e = ok z

unfoldable pub validate_exit_action_key : Text → Result Error (Unit {0})
validate_exit_action_key s = do
  let trimmed = trim s
  reject_if (is_empty trimmed) (other (text "exit-action key must not be empty"))
  reject_if (eq_ignore_case trimmed (text "default"))
      (other (text "'default' is not a per-exit-code key; set the default action separately"))
  reject_if (any (λ c. is_whitespace c || is_control c) s)
      (other (text "exit-action key must not contain whitespace or control characters"))
  reject_if (contains_char b'=' s) (other (text "exit-action key must not contain '='"))
  reject_if (contains_char 0 s) (other (text "exit-action key must not contain NUL"))
  code ←
      from_option (parse_i32 s)
        (other (text "exit-action key must be an i32 exit code (e.g. -1, 0, 1, 2147483647)"))
  reject_if (not (text_eq s (show_int code))) (
      other (
        text "exit-action key must use canonical signed decimal spelling; use '"
        ++ (show_int code ++ text "'")))

unfoldable pub validate_keys : List (Text × ExitAction) → Result Error (Unit {0})
unfolding validate_exit_action_key to_string
validate_keys [] = ok tt
validate_keys ((code, action) ∷ rest) = do
  map_err (λ e. other (text "exit-action code '" ++ (code ++ (text "': " ++ to_string e))))
      (validate_exit_action_key code)
  validate_keys rest
