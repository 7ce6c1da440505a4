-- ===== src/Examples/Services.antt =====
-- A service control manager with one service of NGSM that is stopped; its world counts the calls that change
-- something.
use ngsm.Prelude.{ℕ, ◌+◌, none, some, [], ◌∷◌}
use ngsm.Result.{ok}
use ngsm.Core.Model.{automatic, win32_own_process, stopped, default_config}
use ngsm.Ops.Services.{ServiceBackend, NativeService, start}
use ngsm.Ops.Services.Guarded.{Started, start-Started}
use ngsm.Ops.Services.Removed.{Removed}

abbrev snapshot : NativeService
snapshot = record {
  config = record {
    name = 115 ∷ [];
    display_name = 115 ∷ [];
    description = none;
    startup = automatic;
    service_type = win32_own_process;
    image_path = [];
    account = none;
    depend_on_services = [];
    depend_on_groups = [];
  };
  runtime = some (record {
    state = stopped;
    pid = none;
    exit_code = none;
    checkpoint = none;
    wait_hint_ms = none;
  });
  query_error = none;
}

abbrev services : ServiceBackend
services = record {
  World = ℕ;
  lock_service_config = λ n w. (ok tt, w);
  query_service = λ n w. (ok snapshot, w);
  read_managed_config = λ n w. (ok (some default_config), w);
  delete_managed_config = λ n w. (ok tt, w + 1);
  control_service = λ n c w. (ok tt, w + 1);
  start_service = λ n w. (ok tt, w + 1);
  remove_service = λ n w. (ok tt, w + 1);
}

start-Started_example : Started services (115 ∷ []) 0 (start services (115 ∷ []) 0)
start-Started_example = start-Started services (115 ∷ []) 0
