-- ===== src/Registry/Preflight/Accepted.antt =====
-- What an accepted configuration is like.
-- A configuration that passed the checks: all that `write_into_key` stores of it can be stored.
use ngsm.Prelude.{ℕ, ◌≡◌, false, List, [], any}
use ngsm.Text.{Text, text}
use ngsm.Result.{Result, ok}
use ngsm.Core.Error.{Error}
use ngsm.Core.Model.{ManagedApplicationConfig, ExitAction}
use ngsm.Registry.NssmKeys
use ngsm.Registry.Bytes.{is_unstorable}
use ngsm.Registry.Preflight.{
  stream_path, require_application, check_marks, precheck_no_embedded_nuls, check_no_empty,
  check_hook_names, check_path, nonempty, preflight_config,
}
use ngsm.Registry.Preflight.NulFree.{both_ok, IsNulFree, precheck_no_embedded_nuls-IsNulFree}
use ngsm.Registry.Preflight.Checks.{
  HasApplication, PathAccepted, ActionsInserted, require_application-ok, check_no_empty-ok,
  storable, check_path-ok, preflight_actions-ok,
}

pub record IsAccepted (cfg : ManagedApplicationConfig) (table : List (Text × ExitAction))
    : Type 0 where
  pub application : HasApplication cfg
  pub nul_free : IsNulFree cfg
  pub environment : any is_unstorable cfg.environment ≡ false
  pub environment_extra : any is_unstorable cfg.environment_extra ≡ false
  pub application_path : PathAccepted cfg (text "Application") cfg.application
  pub directory_path : PathAccepted cfg (text "AppDirectory") (nonempty cfg.app_directory)
  pub stdin_path : PathAccepted cfg (text "AppStdin") (stream_path cfg.io.stdin)
  pub stdout_path : PathAccepted cfg (text "AppStdout") (stream_path cfg.io.stdout)
  pub stderr_path : PathAccepted cfg (text "AppStderr") (stream_path cfg.io.stderr)
  pub actions : ActionsInserted cfg table

-- A configuration that the preflight accepts has an application that is not blank; no text of it that
-- becomes a registry value has a NUL in it, and no entry of its environments is empty; each of its paths
-- is absolute, or marked expandable with a variable in it, and has no control character; and the table of
-- exit actions that is returned has each of its actions under its key, the default action too.
pub preflight_config-IsAccepted :
    (windows_name_key : Text → Result Error (List ℕ)) (cfg : ManagedApplicationConfig)
    (out : List (Text × ExitAction))
    → preflight_config windows_name_key cfg ≡ ok out
    → IsAccepted cfg out
unfolding preflight_config
preflight_config-IsAccepted windows_name_key cfg out h =
    let (application, h1) = both_ok (require_application cfg) h in
    let (marks, h2) = both_ok (check_marks cfg.expandable_strings) h1 in
    let (nuls, h3) = both_ok (precheck_no_embedded_nuls cfg) h2 in
    let (environment, h4) = both_ok (check_no_empty _ cfg.environment) h3 in
    let (extra, h5) = both_ok (check_no_empty _ cfg.environment_extra) h4 in
    let (hooks, h6) = both_ok (check_hook_names windows_name_key [] cfg.hooks) h5 in
    let (path, h7) = both_ok (check_path cfg _ cfg.application) h6 in
    let (directory, h8) = both_ok (check_path cfg _ (nonempty cfg.app_directory)) h7 in
    let (stdin, h9) = both_ok (check_path cfg _ (stream_path cfg.io.stdin)) h8 in
    let (stdout, h10) = both_ok (check_path cfg _ (stream_path cfg.io.stdout)) h9 in
    let (stderr, h11) = both_ok (check_path cfg _ (stream_path cfg.io.stderr)) h10 in
    let nul_free = precheck_no_embedded_nuls-IsNulFree cfg nuls in
    record {
      application = require_application-ok cfg application;
      nul_free = nul_free;
      environment =
          storable cfg.environment nul_free.environment
            (check_no_empty-ok NssmKeys.app_environment cfg.environment environment);
      environment_extra =
          storable cfg.environment_extra nul_free.environment_extra
            (check_no_empty-ok NssmKeys.app_environment_extra cfg.environment_extra extra);
      application_path = check_path-ok cfg _ _ path;
      directory_path = check_path-ok cfg _ _ directory;
      stdin_path = check_path-ok cfg _ _ stdin;
      stdout_path = check_path-ok cfg _ _ stdout;
      stderr_path = check_path-ok cfg _ _ stderr;
      actions = preflight_actions-ok cfg out h11;
    }
