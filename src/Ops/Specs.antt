-- ===== src/Ops/Specs.antt =====
-- crates/servicemanager-ops/src/specs.rs, and the types of crates/servicemanager-win32/src/control.rs
-- that it uses.
use ngsm.Prelude.{ℕ, Bool, ◌||◌, Option, List, is_some}
use ngsm.Text.{Text}
use ngsm.Core.Model.{ExitAction, HookConfig, LogRotationConfig}

pub data InstallStartType : Type 0 where
  manual_start automatic_start disabled_start : InstallStartType

pub record ServiceDependencies : Type 0 where
  pub services : List Text
  pub groups : List Text

pub record InstallSpec : Type 0 where
  pub name : Text
  pub display_name : Option Text
  pub description : Option Text
  pub application : Text
  pub app_parameters : Option Text
  pub app_directory : Option Text
  pub stdout : Option Text
  pub stderr : Option Text
  pub rotation : LogRotationConfig
  pub hooks : List HookConfig
  pub start_type : InstallStartType
  pub dependencies : ServiceDependencies
  pub account : Option Text
  pub password : Option Text

pub record EditSpec : Type 0 where
  pub name : Text
  pub display_name : Option Text
  pub description : Option Text
  pub application : Option Text
  pub app_parameters : Option Text
  pub app_directory : Option Text
  pub stdout : Option Text
  pub stderr : Option Text
  pub start_type : Option InstallStartType
  pub dependencies : Option ServiceDependencies
  pub account : Option Text
  pub password : Option Text

unfoldable pub has_changes : EditSpec → Bool
has_changes s =
    is_some s.display_name
    || (is_some s.description
        || (is_some s.application
            || (is_some s.app_parameters
                || (is_some s.app_directory
                    || (is_some s.stdout
                        || (is_some s.stderr
                            || (is_some s.start_type
                                || (is_some s.dependencies
                                    || (is_some s.account || is_some s.password)))))))))

pub record RecoverySpec : Type 0 where
  pub name : Text
  pub restart_delay_ms : Option ℕ
  pub throttle_delay_ms : Option ℕ
  pub default_action : ExitAction
  pub exit_actions : List (Text × ExitAction)
