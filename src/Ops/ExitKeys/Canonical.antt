-- ===== src/Ops/ExitKeys/Canonical.antt =====
-- Which keys crates/servicemanager-ops/src/recovery.rs accepts.
use ngsm.Prelude.{◌≡◌, refl, Bool, true, false, not, ◌||◌, Option, none, some, any}
use ngsm.Text.{
  Text, text, text_eq, is_empty, trim, eq_ignore_case, is_whitespace, is_control, contains_char,
}
use ngsm.Text.Laws.{eq_of_text_eq}
use ngsm.Text.Integer.{ℤ, InI32, show_int, parse_i32, parse_i32-InI32}
use ngsm.Result.{ok, reject_if, >>=-eq-ok}
use ngsm.Core.Error.{Error}
use ngsm.Ops.ExitKeys.{from_option, validate_exit_action_key}

-- A key that is accepted is the printed form of a 32-bit exit code, the one that it is parsed as.
pub validate_exit_action_key_canonical :
    (s : Text)
    → validate_exit_action_key s ≡ ok tt
    → (code : ℤ) × InI32 code × (parse_i32 s ≡ some code) × (s ≡ show_int code)
unfolding validate_exit_action_key
validate_exit_action_key_canonical s h =
    let s1 = >>=-eq-ok (reject_if (is_empty (trim s)) _) _ h in
    let s2 = >>=-eq-ok (reject_if (eq_ignore_case (trim s) (text "default")) _) _ s1.2 in
    let s3 = >>=-eq-ok (reject_if (any (λ c. is_whitespace c || is_control c) s) _) _ s2.2 in
    let s4 = >>=-eq-ok (reject_if (contains_char b'=' s) _) _ s3.2 in
    let s5 = >>=-eq-ok (reject_if (contains_char 0 s) _) _ s4.2 in
    let s6 = >>=-eq-ok (from_option (parse_i32 s) _) _ s5.2 in
    let parsed = parsed_of (parse_i32 s) s6.0 _ s6.1 in
    (
      s6.0,
      parse_i32-InI32 s s6.0 parsed,
      parsed,
      spelled s6.0 _ (text_eq s (show_int s6.0)) refl s6.2,
    )
  where
    parsed_of : (m : Option ℤ) (z : ℤ) (e : Error) → from_option m e ≡ ok z → m ≡ some z
    parsed_of none z e q = cc
    parsed_of (some y) z e q = cc

    spelled :
        (z : ℤ) (e : Error) (c : Bool)
        → text_eq s (show_int z) ≡ c
        → reject_if (not c) e ≡ ok tt
        → s ≡ show_int z
    spelled z e true q r = eq_of_text_eq s (show_int z) q
    spelled z e false q r = cc
