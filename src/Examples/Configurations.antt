-- ===== src/Examples/Configurations.antt =====
-- The configuration checks, the quoting and the expansion on the strings of one service.
use ngsm.Prelude.{
  ◌<◌, ◌≡◌, refl, ◌↔◌, false, ◌||◌, Option, none, some, [], ◌∷◌, ◌++◌, any, if◌then◌else◌,
}
use ngsm.Text.{
  Text, text, text_eq, eq_ignore_case, is_control, is_whitespace, utf16_units, contains_char,
}
use ngsm.Result.{Result, ok}
use ngsm.Core.Error.{Error}
use ngsm.Core.Model.{
  NativeServiceConfig, ServiceDefinition, ManagedApplicationConfig, automatic, win32_own_process,
  default_config,
}
use ngsm.Core.Quote.{quote_windows_arg}
use ngsm.Core.Quote.Parsing.{parse_arg}
use ngsm.Core.Quote.RoundTrip.{parse_arg-quote}
use ngsm.Core.Validate.{validate_service_name, validate_hook_component, validate_absolute_path}
use ngsm.Core.Validate.Names.{IsName, validate_service_name_iff, validate_hook_component_iff}
use ngsm.Core.Validate.Paths.{IsAbsolute, validate_absolute_path_iff}
use ngsm.Core.ImagePath.{is_managed}
use ngsm.Core.ImagePath.Ownership.{is_managed-quoted}
use ngsm.Core.Expansion.{expand, expand_loop, round, after_percent, append_expanded, substitute}
use ngsm.Core.Expansion.Meaning.{Expands, NoNul}
use ngsm.Core.Expansion.Sound.{expand_sound}
use ngsm.Core.Expansion.Total.{expand_total}
use ngsm.Core.Expansion.Config.{
  resolve_expandable_strings, expanded, resolve_text, resolve_option, resolve_stream, resolve_hooks,
  is_expandable_string,
}
use ngsm.Core.Expansion.Config.Resolved.{Resolves, resolve_expandable_strings_sound}

program : Unit {0}
unfolding text text_eq eq_ignore_case utf16_units contains_char expand expand_loop round
    after_percent append_expanded substitute expanded resolve_text resolve_option resolve_stream
    resolve_hooks is_expandable_string resolve_expandable_strings
program = tt

-- `a b\` needs quotes, and its backslash is doubled before the closing one.
abbrev blank_arg : Text
blank_arg = 97 ∷ 32 ∷ 98 ∷ 92 ∷ []

parse_arg-quote_example :
    parse_arg false 0 (quote_windows_arg blank_arg ++ (32 ∷ 99 ∷ [])) ≡ (blank_arg, 32 ∷ 99 ∷ [])
parse_arg-quote_example = parse_arg-quote blank_arg (32 ∷ 99 ∷ []) refl

validate_service_name_iff_example :
    (validate_service_name (text "my service") ≡ ok tt) ↔ IsName 256 (text "my service")
validate_service_name_iff_example = validate_service_name_iff (text "my service")

validate_hook_component_iff_example :
    (validate_hook_component (text "Pre") (text "action") ≡ ok tt) ↔ IsName 255 (text "Pre")
validate_hook_component_iff_example = validate_hook_component_iff (text "Pre") (text "action")

validate_absolute_path_iff_example :
    (validate_absolute_path (text "AppStdout") (text "C:\\logs\\out.log") ≡ ok tt)
    ↔ ((any is_control (text "C:\\logs\\out.log") ≡ false) × IsAbsolute (text "C:\\logs\\out.log"))
validate_absolute_path_iff_example =
    validate_absolute_path_iff (text "AppStdout") (text "C:\\logs\\out.log")

-- ` "D:\ngsm.exe" run-service`
abbrev directory : Text
directory = 68 ∷ 58 ∷ 92 ∷ []

abbrev runner : Text
runner = 110 ∷ 103 ∷ 115 ∷ 109 ∷ 46 ∷ 101 ∷ 120 ∷ 101 ∷ []

abbrev native_config : NativeServiceConfig
native_config = record {
  name = text "demo";
  display_name = text "Demo";
  description = none;
  startup = automatic;
  service_type = win32_own_process;
  image_path = (32 ∷ []) ++ (34 ∷ ((directory ++ runner) ++ (34 ∷ text " run-service")));
  account = none;
  depend_on_services = [];
  depend_on_groups = [];
}

abbrev service : ServiceDefinition
service = record { native = native_config; managed = none; runtime = none }

is_managed-quoted_example :
    is_managed service
    ≡ (eq_ignore_case runner (text "ngsm.exe") || eq_ignore_case runner (text "nssm.exe"))
unfolding is_whitespace
is_managed-quoted_example =
    is_managed-quoted native_config (32 ∷ []) directory runner (text " run-service") refl refl refl
      refl refl refl

-- `X` is the variable of the value `yz`.
abbrev lookup : Text → Option Text
lookup name = if text_eq name (88 ∷ []) then some (121 ∷ 122 ∷ []) else none

-- `a%X%`
abbrev pattern_text : Text
pattern_text = 97 ∷ 37 ∷ 88 ∷ 37 ∷ []

expands : expand lookup (text "Application") pattern_text ≡ some (ok (97 ∷ 121 ∷ 122 ∷ []))
unfolding program
expands = refl

expand_sound_example :
    Expands lookup (text "Application") pattern_text (97 ∷ 121 ∷ 122 ∷ [])
    × (utf16_units (97 ∷ 121 ∷ 122 ∷ []) < 32767)
    × NoNul lookup (text "Application") (97 ∷ 121 ∷ 122 ∷ [])
expand_sound_example =
    expand_sound lookup (text "Application") pattern_text (97 ∷ 121 ∷ 122 ∷ []) expands

expand_total_example :
    (r : Result Error Text) × (expand lookup (text "AppDirectory") pattern_text ≡ some r)
expand_total_example = expand_total lookup (text "AppDirectory") pattern_text

abbrev raw_config : ManagedApplicationConfig
raw_config = record default_config {
  application = some pattern_text;
  app_directory = some pattern_text;
  expandable_strings = text "application" ∷ [];
}

abbrev effective_config : ManagedApplicationConfig
effective_config = record default_config {
  application = some (97 ∷ 121 ∷ 122 ∷ []);
  app_directory = some pattern_text;
}

resolves : resolve_expandable_strings lookup raw_config ≡ ok effective_config
unfolding program
resolves = refl

resolve_expandable_strings_sound_example : Resolves lookup raw_config effective_config
resolve_expandable_strings_sound_example =
    resolve_expandable_strings_sound lookup raw_config effective_config resolves
