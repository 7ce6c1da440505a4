-- ===== src/Supervisor/Hooks.antt =====
-- The choice of a hook in crates/servicemanager-supervisor/src/hooks.rs.
use ngsm.Prelude.{ℕ, Bool, ◌&&◌, ◌||◌, Option, List, ◌==◌, if◌then◌else◌, find}
use ngsm.Text.{Text, text, eq_ignore_case}
use ngsm.Core.Model.{HookConfig}

pub data HookPoint : Type 0 where
  start_pre start_post stop_pre exit_post rotate_pre rotate_post power_change power_resume :
      HookPoint

unfoldable pub event_name : HookPoint → Text
event_name start_pre = text "Start"
event_name start_post = text "Start"
event_name stop_pre = text "Stop"
event_name exit_post = text "Exit"
event_name rotate_pre = text "Rotate"
event_name rotate_post = text "Rotate"
event_name power_change = text "Power"
event_name power_resume = text "Power"

unfoldable pub action_name : HookPoint → Text
action_name start_pre = text "Pre"
action_name rotate_pre = text "Pre"
action_name stop_pre = text "Pre"
action_name start_post = text "Post"
action_name rotate_post = text "Post"
action_name exit_post = text "Post"
action_name power_change = text "Change"
action_name power_resume = text "Resume"

unfoldable pub is_resume_event : ℕ → Bool
is_resume_event event_type =
    event_type == 18 || (event_type == 6 || (event_type == 8 || event_type == 7))

-- What `handle_control` fires for a power event.
unfoldable pub power_point : ℕ → HookPoint
unfolding is_resume_event
power_point event = if is_resume_event event then power_resume else power_change

abbrev pub is_hook_for : HookPoint → HookConfig → Bool
is_hook_for point h =
    eq_ignore_case h.event (event_name point) && eq_ignore_case h.action (action_name point)

unfoldable pub find_hook : List HookConfig → HookPoint → Option HookConfig
unfolding event_name action_name
find_hook hooks point = find (is_hook_for point) hooks
