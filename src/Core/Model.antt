-- ===== src/Core/Model.antt =====
-- crates/servicemanager-core/src/model.rs: the configuration of a managed service. Unsigned fields
-- are numbers; a BTreeMap is the list of its entries in the order of its keys, a BTreeSet the list of
-- its elements.
use ngsm.Prelude.{
  ℕ, Bool, true, false, not, ◌&&◌, ◌||◌, Option, none, some, List, [], ◌==◌, is_some,
}
use ngsm.Text.{Text}

pub data StartupType : Type 0 where
  boot system automatic automatic_delayed manual disabled unknown_startup : StartupType

pub data ServiceType : Type 0 where
  kernel_driver file_system_driver win32_own_process win32_shared_process : ServiceType
  interactive_process unknown_type : ServiceType

pub record NativeServiceConfig : Type 0 where
  pub name : Text
  pub display_name : Text
  pub description : Option Text
  pub startup : StartupType
  pub service_type : ServiceType
  pub image_path : Text
  pub account : Option Text
  pub depend_on_services : List Text
  pub depend_on_groups : List Text

pub data ExitAction : Type 0 where
  restart ignore exit suicide : ExitAction

pub record RestartPolicy : Type 0 where
  pub restart_delay_ms : Option ℕ
  pub throttle_delay_ms : Option ℕ
  pub default_action : Option ExitAction

pub record ShutdownPolicy : Type 0 where
  pub stop_method_skip : Option ℕ
  pub kill_console_grace_ms : Option ℕ
  pub kill_window_grace_ms : Option ℕ
  pub kill_threads_grace_ms : Option ℕ
  pub kill_process_tree : Option Bool

pub record IoStream : Type 0 where
  pub path : Text
  pub share_mode : Option ℕ
  pub creation_disposition : Option ℕ
  pub flags_and_attributes : Option ℕ
  pub copy_and_truncate : Option Bool

pub record IoRedirectionConfig : Type 0 where
  pub stdin : Option IoStream
  pub stdout : Option IoStream
  pub stderr : Option IoStream
  pub timestamp_log : Option Bool

pub record LogRotationConfig : Type 0 where
  pub enabled : Option Bool
  pub online : Option ℕ
  pub seconds : Option ℕ
  pub bytes : Option ℕ
  pub delay_ms : Option ℕ

pub record HookConfig : Type 0 where
  pub event : Text
  pub action : Text
  pub command : Text

pub record ManagedApplicationConfig : Type 0 where
  pub application : Option Text
  pub app_parameters : Option Text
  pub app_directory : Option Text
  pub environment : List Text
  pub environment_extra : List Text
  pub priority : Option ℕ
  pub affinity : Option Text
  pub restart_policy : RestartPolicy
  pub shutdown : ShutdownPolicy
  pub io : IoRedirectionConfig
  pub rotation : LogRotationConfig
  pub exit_actions : List (Text × ExitAction)
  pub hooks : List HookConfig
  pub expandable_strings : List Text

pub data ServiceState : Type 0 where
  stopped start_pending stop_pending running : ServiceState
  continue_pending pause_pending paused unknown_state : ServiceState

pub record ServiceRuntimeState : Type 0 where
  pub state : ServiceState
  pub pid : Option ℕ
  pub exit_code : Option ℕ
  pub checkpoint : Option ℕ
  pub wait_hint_ms : Option ℕ

pub record ServiceDefinition : Type 0 where
  pub native : NativeServiceConfig
  pub managed : Option ManagedApplicationConfig
  pub runtime : Option ServiceRuntimeState

-- `Default` of the configuration and its parts.
abbrev pub default_config : ManagedApplicationConfig
default_config = record {
  application = none;
  app_parameters = none;
  app_directory = none;
  environment = [];
  environment_extra = [];
  priority = none;
  affinity = none;
  restart_policy = record {
    restart_delay_ms = none;
    throttle_delay_ms = none;
    default_action = none;
  };
  shutdown = record {
    stop_method_skip = none;
    kill_console_grace_ms = none;
    kill_window_grace_ms = none;
    kill_threads_grace_ms = none;
    kill_process_tree = none;
  };
  io = record { stdin = none; stdout = none; stderr = none; timestamp_log = none };
  rotation = record {
    enabled = none;
    online = none;
    seconds = none;
    bytes = none;
    delay_ms = none;
  };
  exit_actions = [];
  hooks = [];
  expandable_strings = [];
}

abbrev pub is_true : Option Bool → Bool
is_true (some true) = true
is_true (some false) = false
is_true none = false

abbrev pub is_nonzero : Option ℕ → Bool
is_nonzero none = false
is_nonzero (some n) = not (n == 0)

-- On-demand rotation works only for redirected streams in an online mode.
unfoldable pub has_online_rotation : ManagedApplicationConfig → Bool
has_online_rotation c =
    is_true c.rotation.enabled
    && is_nonzero c.rotation.online
    && (is_some c.io.stdout || is_some c.io.stderr)

abbrev pub is_disabled : StartupType → Bool
is_disabled disabled = true
is_disabled _ = false

-- `matches!(state, Some(Stopped) | None)`
abbrev pub counts_as_stopped : Option ServiceState → Bool
counts_as_stopped (some stopped) = true
counts_as_stopped none = true
counts_as_stopped _ = false
