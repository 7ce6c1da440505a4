-- ===== src/Registry/NssmKeys.antt =====
-- `nssm_keys` of crates/servicemanager-registry/src/imp.rs.
use ngsm.Text.{Text, text}

abbrev pub application : Text
unfolding text
application = text "Application"

abbrev pub app_parameters : Text
unfolding text
app_parameters = text "AppParameters"

abbrev pub app_directory : Text
unfolding text
app_directory = text "AppDirectory"

abbrev pub app_environment : Text
unfolding text
app_environment = text "AppEnvironment"

abbrev pub app_environment_extra : Text
unfolding text
app_environment_extra = text "AppEnvironmentExtra"

abbrev pub app_exit : Text
unfolding text
app_exit = text "AppExit"

abbrev pub app_restart_delay : Text
unfolding text
app_restart_delay = text "AppRestartDelay"

abbrev pub app_throttle : Text
unfolding text
app_throttle = text "AppThrottle"

abbrev pub app_stop_method_skip : Text
unfolding text
app_stop_method_skip = text "AppStopMethodSkip"

abbrev pub app_kill_console_grace : Text
unfolding text
app_kill_console_grace = text "AppStopMethodConsole"

abbrev pub app_kill_window_grace : Text
unfolding text
app_kill_window_grace = text "AppStopMethodWindow"

abbrev pub app_kill_threads_grace : Text
unfolding text
app_kill_threads_grace = text "AppStopMethodThreads"

abbrev pub app_kill_process_tree : Text
unfolding text
app_kill_process_tree = text "AppKillProcessTree"

abbrev pub app_stdin : Text
unfolding text
app_stdin = text "AppStdin"

abbrev pub app_stdout : Text
unfolding text
app_stdout = text "AppStdout"

abbrev pub app_stderr : Text
unfolding text
app_stderr = text "AppStderr"

abbrev pub app_stdio_sharing : Text
unfolding text
app_stdio_sharing = text "ShareMode"

abbrev pub app_stdio_disposition : Text
unfolding text
app_stdio_disposition = text "CreationDisposition"

abbrev pub app_stdio_flags : Text
unfolding text
app_stdio_flags = text "FlagsAndAttributes"

abbrev pub app_stdio_copy_and_truncate : Text
unfolding text
app_stdio_copy_and_truncate = text "CopyAndTruncate"

abbrev pub app_rotate : Text
unfolding text
app_rotate = text "AppRotateFiles"

abbrev pub app_rotate_online : Text
unfolding text
app_rotate_online = text "AppRotateOnline"

abbrev pub app_rotate_seconds : Text
unfolding text
app_rotate_seconds = text "AppRotateSeconds"

abbrev pub app_rotate_bytes_low : Text
unfolding text
app_rotate_bytes_low = text "AppRotateBytes"

abbrev pub app_rotate_bytes_high : Text
unfolding text
app_rotate_bytes_high = text "AppRotateBytesHigh"

abbrev pub app_rotate_delay : Text
unfolding text
app_rotate_delay = text "AppRotateDelay"

abbrev pub app_timestamp_log : Text
unfolding text
app_timestamp_log = text "AppTimestampLog"

abbrev pub app_priority : Text
unfolding text
app_priority = text "AppPriority"

abbrev pub app_affinity : Text
unfolding text
app_affinity = text "AppAffinity"

abbrev pub app_events : Text
unfolding text
app_events = text "AppEvents"
