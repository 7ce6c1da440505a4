-- ===== src/Registry/Preflight.antt =====
-- `validate_managed_config` of crates/servicemanager-registry/src/imp.rs with `preflight_config`: the checks on a
-- whole configuration before the first value is written.
pub mod NulFree
pub mod Checks
pub mod Accepted
use ngsm.Prelude.{
  ℕ, zero, suc, ◌+◌, ◌-◌, ◌*◌, ◌/◌, ◌%◌, ◌^◌, ◌≤◌, ◌<◌, min, max, String, ◌≡◌, refl, sym, ap, ◌∙◌,
  subst, ◌≢◌, ◌↔◌, ◌⊎◌, inl, inr, Bool, true, false, not, ◌&&◌, ◌||◌, Option, none, some, List, [],
  ◌∷◌, ◌++◌, map, reverse, arith, ltb, leb, ◌==◌, if◌then◌else◌, ==_iff, ==_refl, &&-left, &&-right,
  ||-left, ||-right, Bool-cases, Option-cases, length, length-append, get_elem?, take, drop,
  replicate, any, all, find, retain, span_not, is_some, is_none, get_or, is_some_and,
}
use ngsm.Text.{Text, text, text_eq, is_empty, trim, is_control, eq_ignore_case, contains_char}
use ngsm.Text.Decimal.{show}
use ngsm.Result.{Result, ok, err, ◌>>=◌, ◌>>◌, reject_if, map_ok}
use ngsm.Core.Error.{Error, invalid_config}
use ngsm.Core.Model.{ManagedApplicationConfig, IoStream, HookConfig, ExitAction}
use ngsm.Core.Validate.{validate_hook_component, validate_absolute_path}
use ngsm.Core.Expansion.Config.{is_expandable_string}
use ngsm.Registry.NssmKeys
use ngsm.Registry.ExitActions.{insert_exit_action, insert_exit_actions}

abbrev pub is_blank : Text → Bool
is_blank s = is_empty (trim s)

unfoldable pub require_application : ManagedApplicationConfig → Result Error (Unit {0})
require_application cfg = elim cfg.application [
  | some app ↦
      reject_if (is_blank app)
        (invalid_config (text "managed config requires a non-empty Application value"))
  | none ↦ err (invalid_config (text "managed config requires a non-empty Application value"))
]

-- `check` of `precheck_no_embedded_nuls`
unfoldable pub check_nul : Text → Text → Result Error (Unit {0})
check_nul field value = reject_if (contains_char 0 value) (
    invalid_config (
      field
      ++ text
          " contains an embedded NUL — registry strings cannot carry NULs (the value would be silently truncated or split)"))

unfoldable pub check_option : Text → Option Text → Result Error (Unit {0})
unfolding check_nul
check_option field none = ok tt
check_option field (some v) = check_nul field v

unfoldable pub check_entries : Text → ℕ → List Text → Result Error (Unit {0})
unfolding check_nul
check_entries field i [] = ok tt
check_entries field i (v ∷ values) = do
  check_nul (field ++ (text "[" ++ (show i ++ text "]"))) v
  check_entries field (i + 1) values

abbrev pub stream_path : Option IoStream → Option Text
stream_path none = none
stream_path (some s) = some s.path

unfoldable pub check_exit_names : List (Text × ExitAction) → Result Error (Unit {0})
unfolding check_nul
check_exit_names [] = ok tt
check_exit_names ((name, action) ∷ entries) = do
  check_nul (text "AppExit\\" ++ name) name
  check_exit_names entries

unfoldable pub check_hook_texts : List HookConfig → Result Error (Unit {0})
unfolding check_nul
check_hook_texts [] = ok tt
check_hook_texts (hook ∷ hooks) = do
  let event_field = text "AppEvents\\" ++ hook.event
  let action_field = event_field ++ (text "\\" ++ hook.action)
  check_nul event_field hook.event
  check_nul action_field hook.action
  check_nul (action_field ++ text " (command)") hook.command
  check_hook_texts hooks

unfoldable pub precheck_no_embedded_nuls : ManagedApplicationConfig → Result Error (Unit {0})
unfolding check_option check_entries check_exit_names check_hook_texts
precheck_no_embedded_nuls cfg = do
  check_option (text "Application") cfg.application
  check_option (text "AppParameters") cfg.app_parameters
  check_option (text "AppDirectory") cfg.app_directory
  check_option (text "AppAffinity") cfg.affinity
  check_entries (text "AppEnvironment") 0 cfg.environment
  check_entries (text "AppEnvironmentExtra") 0 cfg.environment_extra
  check_option (text "AppStdin") (stream_path cfg.io.stdin)
  check_option (text "AppStdout") (stream_path cfg.io.stdout)
  check_option (text "AppStderr") (stream_path cfg.io.stderr)
  check_exit_names cfg.exit_actions
  check_hook_texts cfg.hooks

-- `str::split` by a character: there is one part more than there are separators.
unfoldable pub split_by : ℕ → Text → Text × List Text
split_by k [] = ([], [])
split_by k (c ∷ s) =
    let (part, parts) = split_by k s in if c == k then ([], part ∷ parts) else (c ∷ part, parts)

abbrev pub scalar_names : List Text
scalar_names =
    text "Application"
    ∷ text "AppParameters"
    ∷ text "AppDirectory"
    ∷ text "AppAffinity"
    ∷ text "AppStdin"
    ∷ text "AppStdout"
    ∷ text "AppStderr"
    ∷ []

unfoldable pub check_hook_mark : Text × List Text → Result Error (Unit {0})
check_hook_mark (root, event ∷ action ∷ []) = do
  reject_if (not (eq_ignore_case root (text "AppEvents")))
      (invalid_config (text "unknown expandable string metadata key"))
  validate_hook_component event (text "event")
  validate_hook_component action (text "action")
check_hook_mark _ = err (invalid_config (text "unknown expandable string metadata key"))

unfoldable pub check_marks : List Text → Result Error (Unit {0})
unfolding check_hook_mark split_by
check_marks [] = ok tt
check_marks (marked ∷ rest) = do
  if any (eq_ignore_case marked) scalar_names
      then ok tt
      else check_hook_mark (split_by b'\\' marked)
  check_marks rest

unfoldable pub check_no_empty : Text → List Text → Result Error (Unit {0})
check_no_empty name values =
    reject_if (any is_empty values)
      (invalid_config (name ++ text " cannot contain an empty REG_MULTI_SZ entry"))

-- The parts at odd places.
unfoldable pub has_variable : Bool → List Text → Bool
has_variable odd [] = false
has_variable odd (part ∷ parts) = (odd && not (is_empty part)) || has_variable (not odd) parts

-- An expandable value with a variable in it, by the signs of percent. `matches('%')` counts one less than the
-- parts.
unfoldable pub is_deferred : Text → Bool
unfolding has_variable split_by
is_deferred value =
    let (part, parts) = split_by b'%' value in
    has_variable false (part ∷ parts) && leb 2 (length parts)

unfoldable pub validate_raw_path : ManagedApplicationConfig → Text → Text → Result Error (Unit {0})
unfolding is_deferred
validate_raw_path cfg name value =
    if is_expandable_string cfg name
    then (do
      reject_if (any is_control value)
          (invalid_config (name ++ text " contains a control character"))
      if is_deferred value then ok tt else validate_absolute_path name value)
    else validate_absolute_path name value

unfoldable pub check_path : ManagedApplicationConfig → Text → Option Text → Result Error (Unit {0})
unfolding validate_raw_path
check_path cfg name none = ok tt
check_path cfg name (some value) = validate_raw_path cfg name value

-- `filter(|d| !d.is_empty())`
abbrev pub nonempty : Option Text → Option Text
nonempty none = none
nonempty (some []) = none
nonempty (some (c ∷ s)) = some (c ∷ s)

-- A table of the commands by the identities of their hooks: the names of the event and the action as Windows
-- compares them.
abbrev pub HookTable : Type 0
HookTable = List (List ℕ × List ℕ × Text)

unfoldable pub find_command : List ℕ → List ℕ → HookTable → Option Text
find_command event action [] = none
find_command event action ((e, a, command) ∷ table) =
    if text_eq e event && text_eq a action then some command else find_command event action table

abbrev pub conflicts : Option Text → Text → Bool
conflicts none command = false
conflicts (some previous) command = not (text_eq previous command)

-- The exit actions, with the default action of the restart policy after those of the map.
abbrev pub insert_default :
    List (Text × ExitAction) → Option ExitAction → Result Error (List (Text × ExitAction))
insert_default out none = ok out
insert_default out (some action) = insert_exit_action out (text "default") action

unfoldable pub preflight_actions :
    ManagedApplicationConfig → Result Error (List (Text × ExitAction))
preflight_actions cfg = do
  out ← insert_exit_actions [] cfg.exit_actions
  insert_default out cfg.restart_policy.default_action

-- `windows_name_key` is the upper case mapping of Windows.
module _ (windows_name_key : Text → Result Error (List ℕ)) where
  unfoldable pub check_hook_names : HookTable → List HookConfig → Result Error (Unit {0})
  unfolding find_command
  check_hook_names table [] = ok tt
  check_hook_names table (hook ∷ hooks) = do
    validate_hook_component hook.event (text "event")
    validate_hook_component hook.action (text "action")
    event ← windows_name_key hook.event
    action ← windows_name_key hook.action
    reject_if (conflicts (find_command event action table) hook.command)
        (invalid_config (text "conflicting case-insensitive hook definitions"))
    check_hook_names ((event, action, hook.command) ∷ table) hooks

  unfoldable pub preflight_config :
      ManagedApplicationConfig → Result Error (List (Text × ExitAction))
  unfolding require_application check_marks precheck_no_embedded_nuls check_no_empty
      check_hook_names check_path preflight_actions
  preflight_config cfg = do
    require_application cfg
    check_marks cfg.expandable_strings
    precheck_no_embedded_nuls cfg
    check_no_empty NssmKeys.app_environment cfg.environment
    check_no_empty NssmKeys.app_environment_extra cfg.environment_extra
    check_hook_names [] cfg.hooks
    check_path cfg (text "Application") cfg.application
    check_path cfg (text "AppDirectory") (nonempty cfg.app_directory)
    check_path cfg (text "AppStdin") (stream_path cfg.io.stdin)
    check_path cfg (text "AppStdout") (stream_path cfg.io.stdout)
    check_path cfg (text "AppStderr") (stream_path cfg.io.stderr)
    preflight_actions cfg

  unfoldable pub validate_managed_config : ManagedApplicationConfig → Result Error (Unit {0})
  unfolding preflight_config
  validate_managed_config cfg = map_ok (λ _. tt) (preflight_config cfg)
