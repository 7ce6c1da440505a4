-- ===== src/Registry/Read/Config.antt =====
-- `read_managed_from_key` and `read_managed_config` of crates/servicemanager-registry/src/imp.rs.
use ngsm.Prelude.{ℕ, Option, none, some, [], get_or}
use ngsm.Text.{Text, text}
use ngsm.Action.{Act, pure, ◌>>=◌, ◌>>◌, from_result}
use ngsm.Core.Error.{Error}
use ngsm.Core.Model.{
  ManagedApplicationConfig, RestartPolicy, ShutdownPolicy, IoRedirectionConfig, LogRotationConfig,
  ExitAction,
}
use ngsm.Core.Validate.{validate_service_name}
use ngsm.Registry.NssmKeys
use ngsm.Registry.ExitActions.{get_action}
use ngsm.Registry.Store.{RegistryApi, key_read, optional, open_subkey, opt_u32, opt_multi_string}
use ngsm.Registry.SingleValue.{parameters_path}
use ngsm.Registry.Read.{
  Marks, nonzero, rotate_bytes, classify, opt_config_string, read_io_stream, read_exit_actions,
  read_hooks,
}

module _ (api : RegistryApi) where
  open api use {World, Key, local_machine}

  unfoldable pub read_restart : Key → Option ExitAction → Act World Error RestartPolicy
  unfolding opt_u32
  read_restart key default_action = do
    restart_delay_ms ← opt_u32 api key NssmKeys.app_restart_delay
    throttle_delay_ms ← opt_u32 api key NssmKeys.app_throttle
    pure (record {
      restart_delay_ms = restart_delay_ms;
      throttle_delay_ms = throttle_delay_ms;
      default_action = default_action;
    })

  unfoldable pub read_shutdown : Key → Act World Error ShutdownPolicy
  unfolding opt_u32
  read_shutdown key = do
    stop_method_skip ← opt_u32 api key NssmKeys.app_stop_method_skip
    kill_console_grace_ms ← opt_u32 api key NssmKeys.app_kill_console_grace
    kill_window_grace_ms ← opt_u32 api key NssmKeys.app_kill_window_grace
    kill_threads_grace_ms ← opt_u32 api key NssmKeys.app_kill_threads_grace
    kill_process_tree ← opt_u32 api key NssmKeys.app_kill_process_tree
    pure (record {
      stop_method_skip = stop_method_skip;
      kill_console_grace_ms = kill_console_grace_ms;
      kill_window_grace_ms = kill_window_grace_ms;
      kill_threads_grace_ms = kill_threads_grace_ms;
      kill_process_tree = nonzero kill_process_tree;
    })

  unfoldable pub read_io : Key → Marks → Act World Error (IoRedirectionConfig × Marks)
  unfolding read_io_stream opt_u32
  read_io key marks = do
    (stdin, m1) ← read_io_stream api key NssmKeys.app_stdin marks
    (stdout, m2) ← read_io_stream api key NssmKeys.app_stdout m1
    (stderr, m3) ← read_io_stream api key NssmKeys.app_stderr m2
    timestamp_log ← opt_u32 api key NssmKeys.app_timestamp_log
    pure (
      record {
        stdin = stdin;
        stdout = stdout;
        stderr = stderr;
        timestamp_log = nonzero timestamp_log;
      },
      m3,
    )

  unfoldable pub read_rotation : Key → Option ℕ → Act World Error LogRotationConfig
  unfolding opt_u32
  read_rotation key bytes = do
    enabled ← opt_u32 api key NssmKeys.app_rotate
    online ← opt_u32 api key NssmKeys.app_rotate_online
    seconds ← opt_u32 api key NssmKeys.app_rotate_seconds
    delay_ms ← opt_u32 api key NssmKeys.app_rotate_delay
    pure (record {
      enabled = nonzero enabled;
      online = online;
      seconds = seconds;
      bytes = bytes;
      delay_ms = delay_ms;
    })

  -- The rest of a configuration, once its marker is read.
  unfoldable pub read_rest : Key → Text → Marks → Act World Error ManagedApplicationConfig
  unfolding opt_config_string opt_multi_string opt_u32 read_restart read_shutdown read_io
      read_rotation read_exit_actions read_hooks
  read_rest key application marks = do
    rotate_low ← opt_u32 api key NssmKeys.app_rotate_bytes_low
    rotate_high ← opt_u32 api key NssmKeys.app_rotate_bytes_high
    exit_actions ← read_exit_actions api key
    (app_parameters, m1) ← opt_config_string api key NssmKeys.app_parameters marks
    (app_directory, m2) ← opt_config_string api key NssmKeys.app_directory m1
    environment ← opt_multi_string api key NssmKeys.app_environment
    environment_extra ← opt_multi_string api key NssmKeys.app_environment_extra
    priority ← opt_u32 api key NssmKeys.app_priority
    (affinity, m3) ← opt_config_string api key NssmKeys.app_affinity m2
    restart_policy ← read_restart key (get_action (text "default") exit_actions)
    shutdown ← read_shutdown key
    (io, m4) ← read_io key m3
    rotation ← read_rotation key (rotate_bytes rotate_low rotate_high)
    (hooks, m5) ← read_hooks api key m4
    pure (record {
      application = some application;
      app_parameters = app_parameters;
      app_directory = app_directory;
      environment = get_or environment [];
      environment_extra = get_or environment_extra [];
      priority = priority;
      affinity = affinity;
      restart_policy = restart_policy;
      shutdown = shutdown;
      io = io;
      rotation = rotation;
      exit_actions = exit_actions;
      hooks = hooks;
      expandable_strings = m5;
    })

  unfoldable pub read_classified :
      Key → Marks → Option Text → Act World Error (Option ManagedApplicationConfig)
  unfolding read_rest
  read_classified key marks none = pure none
  read_classified key marks (some application) = do
    cfg ← read_rest key application marks
    pure (some cfg)

  unfoldable pub read_managed_from_key :
      Key → Text → Act World Error (Option ManagedApplicationConfig)
  unfolding opt_config_string classify read_classified
  read_managed_from_key key service = do
    (found, marks) ← opt_config_string api key NssmKeys.application []
    application ← from_result (classify service found)
    read_classified key marks application

  unfoldable pub read_found : Text → Option Key → Act World Error (Option ManagedApplicationConfig)
  unfolding read_managed_from_key
  read_found service none = pure none
  read_found service (some key) = read_managed_from_key key service

  unfoldable pub read_managed_config : Text → Act World Error (Option ManagedApplicationConfig)
  unfolding read_found open_subkey
  read_managed_config service = do
    from_result (validate_service_name service)
    key ← optional (open_subkey api local_machine (parameters_path service) key_read)
    read_found service key
