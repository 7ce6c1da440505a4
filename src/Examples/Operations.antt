-- ===== src/Examples/Operations.antt =====
-- The operations on a registry that holds one configuration, on which every call succeeds.
use ngsm.Prelude.{
  ℕ, ◌+◌, ◌≤◌, ◌≡◌, refl, ◌≢◌, true, false, ◌||◌, Option, none, some, List, [], ◌∷◌, arith, ltb,
  if◌then◌else◌, is_some, get_or,
}
use ngsm.Text.{
  Text, text, text_eq, eq_ignore_case, trim, trim_start, is_whitespace, is_control, contains_char,
}
use ngsm.Text.Decimal.{show, digits_from}
use ngsm.Text.Integer.{ℤ, InI32, show_int, parse_i32, parse_magnitude}
use ngsm.Result.{Result, ok, is_ok}
use ngsm.Core.Error.{Error}
use ngsm.Core.Model.{
  ManagedApplicationConfig, automatic, stopped, running, default_config, ExitAction, exit, ignore,
  restart,
}
use ngsm.Ops.Specs.{EditSpec, RecoverySpec}
use ngsm.Ops.Backend.{ConfigBackend, BackendLaws}
use ngsm.Ops.Edit.{edit_with_backend}
use ngsm.Ops.Edit.Outcome.{Outcome, edit_with_backend-Outcome}
use ngsm.Ops.Recovery.{save_recovery_with_backend}
use ngsm.Ops.Recovery.Saved.{Saved, save_recovery_with_backend-Saved}
use ngsm.Ops.ExitKeys.{validate_exit_action_key, validate_keys}
use ngsm.Ops.ExitKeys.Found.{NoneHas, accepted_key-found}
use ngsm.Supervisor.ExitActions.{action_after_exit}
use ngsm.Ops.InstallChecks.{
  validate_install_config, check_hooks, is_supported_hook_point, install_rotation_requested,
}
use ngsm.Ops.InstallChecks.HookPoints.{AllFound, validate_install_config-AllFound}
use ngsm.Ops.Lifecycle.{RestartBackend, restart_using}
use ngsm.Ops.Lifecycle.Polling.{ClockLaws, restart_using_ends}
use ngsm.Ops.Lifecycle.Started.{Restarted, restart_using-Restarted}

-- The default action is mirrored among the exit actions, as a read of the registry gives it.
abbrev mirrored : ManagedApplicationConfig → ManagedApplicationConfig
mirrored c = elim c.restart_policy.default_action [
  | none ↦ c
  | some action ↦ record c { exit_actions = (text "default", action) ∷ c.exit_actions }
]

abbrev registry : ConfigBackend
registry = record {
  World = Option ManagedApplicationConfig;
  lock_service_config = λ n w. (ok tt, w);
  read_managed = λ n w. (ok w, w);
  write_managed = λ n c w. (ok tt, some (mirrored c));
  update_native = λ s w. (ok tt, w);
  validate_native_update = λ s. ok tt;
  validate_managed_config = λ c. ok tt;
}

ok_same :
    {a b : Option ManagedApplicationConfig}
    → (let r : Result Error (Option ManagedApplicationConfig) = ok a in r) ≡ ok b
    → a ≡ b
ok_same h = cc h

abbrev registry_laws : BackendLaws registry
registry_laws = record {
  stored = λ w n. w;
  as_stored = mirrored;
  lock_quiet = λ n m w. refl;
  read_quiet = λ n m w. refl;
  read_answers = λ n w found h. ok_same h;
  write_stores = λ n c w h. refl;
  native_quiet = λ s m w. refl;
}

-- A new directory, and the standard output is no longer redirected.
abbrev request : EditSpec
request = record {
  name = 115 ∷ [];
  display_name = none;
  description = none;
  application = none;
  app_parameters = none;
  app_directory = some (67 ∷ 58 ∷ 92 ∷ []);
  stdout = some [];
  stderr = none;
  start_type = none;
  dependencies = none;
  account = none;
  password = none;
}

edit_with_backend-Outcome_example :
    Outcome registry registry_laws request
      (some default_config)
      (edit_with_backend registry request (some default_config))
edit_with_backend-Outcome_example =
    edit_with_backend-Outcome registry registry_laws request (some default_config)

abbrev policy : RecoverySpec
policy = record {
  name = 115 ∷ [];
  restart_delay_ms = some 500;
  throttle_delay_ms = none;
  default_action = exit;
  exit_actions = (48 ∷ [], exit) ∷ [];
}

save_recovery_with_backend-Saved_example :
    Saved registry registry_laws policy
      (some default_config)
      (save_recovery_with_backend registry policy (some default_config))
save_recovery_with_backend-Saved_example =
    save_recovery_with_backend-Saved registry registry_laws policy (some default_config)

program : Unit {0}
unfolding text text_eq eq_ignore_case trim trim_start is_whitespace is_control contains_char show
    digits_from show_int parse_i32 parse_magnitude validate_exit_action_key validate_install_config
    check_hooks is_supported_hook_point install_rotation_requested
program = tt

-- `-7`
key_accepted : validate_exit_action_key (45 ∷ 55 ∷ []) ≡ ok tt
unfolding program
key_accepted = refl

-- `-0` and `07` are other spellings.
keys_refused :
    (is_ok (validate_exit_action_key (45 ∷ 48 ∷ [])) ≡ false)
    × (is_ok (validate_exit_action_key (48 ∷ 55 ∷ [])) ≡ false)
unfolding program
keys_refused = (refl, refl)

abbrev exits : List (Text × ExitAction)
exits = (48 ∷ [], exit) ∷ (45 ∷ 55 ∷ [], ignore) ∷ []

exits_accepted : validate_keys exits ≡ ok tt
unfolding program validate_keys
exits_accepted = refl

other_key : NoneHas (45 ∷ 55 ∷ []) ((48 ∷ [], exit) ∷ [])
unfolding program
other_key = refl

accepted_key-found_example :
    (code : ℤ) × InI32 code
    × (parse_i32 (45 ∷ 55 ∷ []) ≡ some code)
    × ((45 ∷ 55 ∷ []) ≡ show_int code)
    × (action_after_exit exits code restart ≡ ignore)
accepted_key-found_example =
    accepted_key-found ((48 ∷ [], exit) ∷ []) [] (45 ∷ 55 ∷ []) ignore restart exits_accepted
      other_key

abbrev hooked : ManagedApplicationConfig
hooked = record default_config {
  hooks = record { event = text "start"; action = text "pre"; command = text "warmup.cmd" } ∷ [];
}

install_accepted : validate_install_config hooked ≡ ok tt
unfolding program
install_accepted = refl

validate_install_config-AllFound_example :
    AllFound hooked.hooks
    × (install_rotation_requested hooked.rotation ≡ true
        → (is_some hooked.io.stdout || is_some hooked.io.stderr) ≡ true)
    × (get_or hooked.rotation.online 0 ≤ 2)
validate_install_config-AllFound_example = validate_install_config-AllFound hooked install_accepted

-- A service that takes a second to stop, on a clock that only sleeping advances.
abbrev manager : RestartBackend
manager = record {
  World = ℕ;
  ensure_managed = λ w. (ok tt, w);
  query = λ w. (
    ok (record { startup = automatic; state = if ltb w 1000 then some running else some stopped }),
    w,
  );
  stop = λ w. (ok tt, w);
  start = λ w. (ok tt, w);
  now = λ w. (w, w);
  sleep = λ d w. w + d;
}

manager_clock : ClockLaws manager
manager_clock = record {
  clock = λ w. w;
  query_forward = λ w. omega arith;
  now_reads = λ w. (omega arith, omega arith);
  sleep_lasts = λ d w. omega arith;
}

restart_using_ends_example : (restart_using manager (text "demo") 5000 false 0).0 ≢ none
restart_using_ends_example = restart_using_ends manager manager_clock (text "demo") 5000 false 0

restart_using-Restarted_example :
    Restarted manager (text "demo") 5000 (restart_using manager (text "demo") 5000 false 0)
restart_using-Restarted_example = restart_using-Restarted manager (text "demo") 5000 false 0
