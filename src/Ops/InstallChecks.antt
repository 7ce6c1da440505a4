-- ===== src/Ops/InstallChecks.antt =====
-- The checks of crates/servicemanager-ops/src/validate.rs before an install.
pub mod HookPoints
use ngsm.Prelude.{
  ℕ, ◌+◌, ◌-◌, ◌/◌, Bool, false, not, ◌&&◌, ◌||◌, Option, none, some, List, [], ◌∷◌, ◌++◌, ltb, any,
  is_some, is_none, get_or,
}
use ngsm.Text.{Text, text, is_empty, trim, eq_ignore_case}
use ngsm.Text.Decimal.{show}
use ngsm.Result.{Result, ok, err, reject_if, ◌>>=◌, ◌>>◌}
use ngsm.Core.Error.{Error, other}
use ngsm.Core.Model.{ManagedApplicationConfig, LogRotationConfig, HookConfig, is_true, is_nonzero}

unfoldable pub install_rotation_requested : LogRotationConfig → Bool
install_rotation_requested r =
    is_true r.enabled
    || (is_some r.seconds || (is_some r.bytes || (is_some r.delay_ms || is_nonzero r.online)))

abbrev pub supported_hook_points : List (Text × Text)
supported_hook_points =
    (text "Start", text "Pre")
    ∷ (text "Start", text "Post")
    ∷ (text "Stop", text "Pre")
    ∷ (text "Exit", text "Post")
    ∷ (text "Rotate", text "Pre")
    ∷ (text "Rotate", text "Post")
    ∷ (text "Power", text "Change")
    ∷ (text "Power", text "Resume")
    ∷ []

unfoldable pub is_supported_hook_point : Text → Text → Bool
is_supported_hook_point event action =
    any (λ p. eq_ignore_case event p.0 && eq_ignore_case action p.1) supported_hook_points

abbrev pub join_points : List (Text × Text) → Text
join_points [] = []
join_points ((e, a) ∷ []) = e ++ (text "/" ++ a)
join_points ((e, a) ∷ p ∷ ps) = e ++ (text "/" ++ (a ++ (text ", " ++ join_points (p ∷ ps))))

unfoldable pub check_hooks : List HookConfig → Result Error (Unit {0})
unfolding is_supported_hook_point
check_hooks [] = ok tt
check_hooks (h ∷ hooks) = do
  let point = h.event ++ (text "/" ++ h.action)
  reject_if (not (is_supported_hook_point h.event h.action)) (
      other (
        text "hook uses unsupported event/action '"
        ++ (point ++ (text "'; supported points are: " ++ join_points supported_hook_points))))
  reject_if (is_empty (trim h.command))
      (other (text "hook " ++ (point ++ text " has an empty command — provide a command to run")))
  check_hooks hooks

abbrev pub beyond_two : Option ℕ → Bool
beyond_two none = false
beyond_two (some online) = ltb 2 online

unfoldable pub validate_install_config : ManagedApplicationConfig → Result Error (Unit {0})
unfolding install_rotation_requested check_hooks
validate_install_config cfg = do
  reject_if
      (install_rotation_requested cfg.rotation && (is_none cfg.io.stdout && is_none cfg.io.stderr))
      (other (
        text
          "rotation flags (--rotate-bytes, --rotate-seconds, --rotate-online) require --stdout and/or --stderr; rotation cannot operate without a redirected log stream"))
  reject_if (beyond_two cfg.rotation.online) (
      other (
        text "rotation online mode must be 0 (offline), 1 (online), or 2 (online-asap); got "
        ++ show (get_or cfg.rotation.online 0)))
  check_hooks cfg.hooks
