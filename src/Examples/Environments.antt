-- ===== src/Examples/Environments.antt =====
-- An environment whose strings are texts, compared without regard to ASCII case; and two timelines.
use ngsm.Prelude.{ℕ, ◌≡◌, refl, subst, true, false, none, some, List, [], ◌∷◌, ◌++◌, arith}
use ngsm.Text.{Text, text_eq, contains_char}
use ngsm.Text.Laws.{eq_of_text_eq, text_eq_refl}
use ngsm.Result.{ok}
use ngsm.Text.Integer.{pos}
use ngsm.Core.Model.{
  ManagedApplicationConfig, ServiceDefinition, running, stopped, manual, win32_own_process,
  default_config,
}
use ngsm.Core.Events.{EventKind, EventRecord, started_event, child_exited, restarted}
use ngsm.Supervisor.Environment.{
  Platform, Environment, parse_env_entry, set_environment, set_entries, lookup_environment,
  effective_environment,
}
use ngsm.Supervisor.Environment.Lookup.{
  PlatformLaws, Parse, last_setting, effective_environment-lookup,
}
use ngsm.Gui.Uptime.{Interval, build_up_intervals}
use ngsm.Gui.Uptime.Timeline.{Between, build_up_intervals-Between}

abbrev texts : Platform
texts = record { OsString = Text; os = λ t. t; to_str = λ t. some t; env_name_eq = text_eq }

texts_laws : PlatformLaws texts
texts_laws = record {
  refl_eq = text_eq_refl;
  sym_eq = λ a b h. subst (λ t. text_eq t a ≡ true) (eq_of_text_eq a b h) (text_eq_refl a);
  trans_eq = λ a b c h k. subst (λ t. text_eq a t ≡ true) (eq_of_text_eq b c k) h;
  to_str_os = λ t. refl;
}

-- `A=x`, and `A=y` in the extra entries
abbrev config : ManagedApplicationConfig
config = record default_config {
  environment = (65 ∷ 61 ∷ 120 ∷ []) ∷ [];
  environment_extra = (65 ∷ 61 ∷ 121 ∷ []) ∷ [];
}

abbrev built : Environment texts
built = (65 ∷ [], 121 ∷ []) ∷ []

config-built : effective_environment texts ((66 ∷ [], 98 ∷ []) ∷ []) config ≡ ok built
unfolding effective_environment set_entries set_environment parse_env_entry text_eq contains_char
config-built = refl

effective_environment-lookup_example :
    (settings : List (Text × Text)) × Parse texts texts_laws
      (config.environment ++ config.environment_extra)
      settings
    × ((m : Text)
        → lookup_environment texts built m
          ≡ last_setting texts texts_laws settings m (lookup_environment texts [] m))
effective_environment-lookup_example =
    effective_environment-lookup texts texts_laws ((66 ∷ [], 98 ∷ []) ∷ []) built config
      config-built

abbrev events : List (ℕ × EventKind)
events = (3, started_event) ∷ (12, child_exited) ∷ (15, restarted) ∷ []

build_up_intervals-Between_example :
    Between 10 (build_up_intervals events 10 20 (some running)).0 20
build_up_intervals-Between_example =
    build_up_intervals-Between events 10 20 (some running) (omega arith)
      (omega arith, (omega arith, (omega arith, omega arith)))

intervals : build_up_intervals events 10 20 (some running) ≡ ((10, 12) ∷ (15, 20) ∷ [], false)
unfolding build_up_intervals ngsm.Gui.Uptime.replay ngsm.Gui.Uptime.finish
    ngsm.Gui.Uptime.record_event ngsm.Gui.Uptime.opened ngsm.Gui.Uptime.closed
intervals = refl

-- A stopped service of NGSM, whose process failed.
abbrev failed_service : ServiceDefinition
failed_service = record {
  native = record {
    name = 115 ∷ [];
    display_name = 115 ∷ [];
    description = none;
    startup = manual;
    service_type = win32_own_process;
    image_path = [];
    account = none;
    depend_on_services = [];
    depend_on_groups = [];
  };
  managed = some default_config;
  runtime = some (record {
    state = stopped;
    pid = none;
    exit_code = none;
    checkpoint = none;
    wait_hint_ms = none;
  });
}

abbrev exit_record : EventRecord
exit_record = record {
  ts = [];
  service = 115 ∷ [];
  event = child_exited;
  pid = none;
  exit_code = some (pos 3);
  lived_ms = none;
  delay_ms = none;
  reason = none;
}
