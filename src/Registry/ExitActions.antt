-- ===== src/Registry/ExitActions.antt =====
-- The exit actions of crates/servicemanager-registry/src/imp.rs. A BTreeMap is the list of its entries in the
-- order of its keys.
pub mod Inserted
use ngsm.Prelude.{
  ℕ, ◌-◌, ◌^◌, Bool, true, false, not, ◌||◌, Option, none, some, List, [], ◌∷◌, ◌++◌, ltb, ◌==◌,
  if◌then◌else◌,
}
use ngsm.Text.{Text, text, text_eq, is_empty, trim, eq_ignore_case, ascii_lower}
use ngsm.Text.Integer.{ℤ, pos, negsuc, show_int, parse_i32, parse_u32}
use ngsm.Result.{Result, ok, err, ◌>>=◌, ◌>>◌, reject_if}
use ngsm.Core.Error.{Error, invalid_config, registry}
use ngsm.Core.Model.{ExitAction, restart, ignore, exit, suicide}

-- `code as i32`
abbrev pub as_i32 : ℕ → ℤ
as_i32 code = if ltb code (2 ^ 31) then pos code else negsuc (2 ^ 32 - code - 1)

-- `parse::<i32>` or else `parse::<u32>` with a cast
unfoldable pub exit_code : Text → Option ℤ
exit_code name = elim (parse_i32 name) [
  | some code ↦ some code
  | none ↦ elim (parse_u32 name) [ some code ↦ some (as_i32 code) | none ↦ none ]
]

unfoldable pub normalize_exit_action_name : Text → Result Error Text
unfolding exit_code
normalize_exit_action_name name =
    if is_empty name || eq_ignore_case name (text "default")
    then ok (text "default")
    else elim (exit_code name) [
      | some code ↦ ok (show_int code)
      | none ↦
          err
            (invalid_config (text "AppExit key '" ++ (name ++ text "' is not a 32-bit exit code")))
    ]

-- `==` of two actions, which the derive makes the equality of their discriminants
abbrev pub discriminant : ExitAction → ℕ
discriminant restart = 0
discriminant ignore = 1
discriminant exit = 2
discriminant suicide = 3

abbrev pub action_eq : ExitAction → ExitAction → Bool
action_eq a b = discriminant a == discriminant b

-- `<` of two texts. The order of their bytes is that of their code points.
unfoldable pub text_lt : Text → Text → Bool
text_lt [] [] = false
text_lt [] (y ∷ ys) = true
text_lt (x ∷ xs) [] = false
text_lt (x ∷ xs) (y ∷ ys) = if x == y then text_lt xs ys else ltb x y

-- `BTreeMap::get` and `BTreeMap::insert` of a key that is absent
unfoldable pub get_action : Text → List (Text × ExitAction) → Option ExitAction
get_action name [] = none
get_action name ((key, action) ∷ out) =
    if text_eq key name then some action else get_action name out

unfoldable pub insert_action :
    Text → ExitAction → List (Text × ExitAction) → List (Text × ExitAction)
unfolding text_lt
insert_action name action [] = (name, action) ∷ []
insert_action name action ((key, other) ∷ out) =
    let later = (key, other) ∷ insert_action name action out in
    if text_lt key name then later else (name, action) ∷ (key, other) ∷ out

abbrev pub keep_previous :
    Text
    → ExitAction
    → List (Text × ExitAction)
    → Option ExitAction
    → Result Error (List (Text × ExitAction))
keep_previous canonical action out none = ok (insert_action canonical action out)
keep_previous canonical action out (some previous) = do
  reject_if (not (action_eq previous action))
      (invalid_config (text "conflicting AppExit aliases for '" ++ (canonical ++ text "'")))
  ok out

unfoldable pub insert_exit_action :
    List (Text × ExitAction) → Text → ExitAction → Result Error (List (Text × ExitAction))
unfolding normalize_exit_action_name get_action insert_action
insert_exit_action out name action = do
  canonical ← normalize_exit_action_name name
  keep_previous canonical action out (get_action canonical out)

unfoldable pub parse_exit_action : Text → Option ExitAction
parse_exit_action value =
    let word = ascii_lower (trim value) in
    if text_eq word (text "restart")
    then some restart
    else if text_eq word (text "ignore")
    then some ignore
    else if text_eq word (text "exit")
    then some exit
    else if text_eq word (text "suicide")
    then some suicide
    else none

unfoldable pub exit_action_str : ExitAction → Text
exit_action_str restart = text "Restart"
exit_action_str ignore = text "Ignore"
exit_action_str exit = text "Exit"
exit_action_str suicide = text "Suicide"

-- The loop of `preflight_config` over the exit actions of a configuration.
unfoldable pub insert_exit_actions :
    List (Text × ExitAction) → List (Text × ExitAction) → Result Error (List (Text × ExitAction))
unfolding insert_exit_action
insert_exit_actions out [] = ok out
insert_exit_actions out ((name, action) ∷ entries) = do
  out' ← insert_exit_action out name action
  insert_exit_actions out' entries

-- The loop of `read_exit_actions` over the values of the key.
unfoldable pub collect_exit_actions :
    List (Text × Text) → List (Text × ExitAction) → Result Error (List (Text × ExitAction))
unfolding insert_exit_action parse_exit_action
collect_exit_actions [] out = ok out
collect_exit_actions ((name, value) ∷ values) out = do
  action_name ← normalize_exit_action_name name
  out' ← elim (parse_exit_action value) [
    | some action ↦ insert_exit_action out action_name action
    | none ↦ err (
        registry (
          text "AppExit entry '"
          ++ (action_name ++ (text "' has an unrecognized action '" ++ (value ++ text "'")))))
  ]
  collect_exit_actions values out'
