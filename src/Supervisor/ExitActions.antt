-- ===== src/Supervisor/ExitActions.antt =====
-- The choice of an action after an exit, in `run_generations` of crates/servicemanager-supervisor/src/lib.rs.
use ngsm.Prelude.{Option, none, some, List, [], ◌∷◌, if◌then◌else◌, get_or}
use ngsm.Text.{Text, text_eq}
use ngsm.Text.Integer.{ℤ, show_int}
use ngsm.Core.Model.{ExitAction}

-- `BTreeMap::get`
unfoldable pub find_policy : Text → List (Text × ExitAction) → Option ExitAction
find_policy key [] = none
find_policy key ((code, action) ∷ rest) =
    if text_eq code key then some action else find_policy key rest

unfoldable pub action_after_exit : List (Text × ExitAction) → ℤ → ExitAction → ExitAction
unfolding find_policy
action_after_exit exit_actions code default_action =
    get_or (find_policy (show_int code) exit_actions) default_action
