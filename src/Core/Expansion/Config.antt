-- ===== src/Core/Expansion/Config.antt =====
-- `resolve_expandable_strings` of crates/servicemanager-core/src/expansion.rs: the effective copy of a
-- configuration.
pub mod Resolved
use ngsm.Prelude.{◌+◌, ◌-◌, Bool, true, false, Option, none, some, List, [], ◌∷◌, ◌++◌, any}
use ngsm.Text.{Text, text, eq_ignore_case}
use ngsm.Result.{Result, ok, err, ◌>>=◌, >>=-eq-ok}
use ngsm.Core.Error.{Error, invalid_config}
use ngsm.Core.Model.{ManagedApplicationConfig, IoStream, HookConfig}
use ngsm.Core.Expansion.{expand}
use ngsm.Core.Expansion.Meaning.{Expands}
use ngsm.Core.Expansion.Sound.{expand_sound}
use ngsm.Core.Expansion.Total.{expand_total}

unfoldable pub is_expandable_string : ManagedApplicationConfig → Text → Bool
is_expandable_string c name = any (λ marked. eq_ignore_case marked name) c.expandable_strings

unfoldable pub hook_expansion_key : Text → Text → Text
hook_expansion_key event action = text "AppEvents\\" ++ (event ++ (text "\\" ++ action))

module _ (lookup : Text → Option Text) where
  -- `expand`. The loop never runs out of fuel, so the second answer is never given.
  unfoldable pub expanded : Text → Text → Result Error Text
  unfolding expand
  expanded field s = elim (expand lookup field s) [ some r ↦ r | none ↦ err (invalid_config field) ]

  unfoldable pub resolve_text : Bool → Text → Text → Result Error Text
  unfolding expanded
  resolve_text true field s = expanded field s
  resolve_text false field s = ok s

  unfoldable pub resolve_option : Bool → Text → Option Text → Result Error (Option Text)
  unfolding resolve_text
  resolve_option marked field none = ok none
  resolve_option marked field (some s) = do s' ← resolve_text marked field s; ok (some s')

  unfoldable pub resolve_stream : Bool → Text → Option IoStream → Result Error (Option IoStream)
  unfolding resolve_text
  resolve_stream marked field none = ok none
  resolve_stream marked field (some s) = do
    path ← resolve_text marked field s.path
    ok (some (record s { path = path }))

  unfoldable pub resolve_hooks :
      ManagedApplicationConfig → List HookConfig → Result Error (List HookConfig)
  unfolding resolve_text is_expandable_string hook_expansion_key
  resolve_hooks c [] = ok []
  resolve_hooks c (h ∷ hs) = do
    let key = hook_expansion_key h.event h.action
    command ← resolve_text (is_expandable_string c key) key h.command
    hs' ← resolve_hooks c hs
    ok (record h { command = command } ∷ hs')

  unfoldable pub resolve_expandable_strings :
      ManagedApplicationConfig → Result Error ManagedApplicationConfig
  unfolding resolve_option resolve_stream resolve_hooks is_expandable_string
  resolve_expandable_strings c = do
    let marked = is_expandable_string c
    application ← resolve_option (marked (text "Application")) (text "Application") c.application
    app_parameters ←
        resolve_option (marked (text "AppParameters")) (text "AppParameters") c.app_parameters
    app_directory ←
        resolve_option (marked (text "AppDirectory")) (text "AppDirectory") c.app_directory
    affinity ← resolve_option (marked (text "AppAffinity")) (text "AppAffinity") c.affinity
    stdin ← resolve_stream (marked (text "AppStdin")) (text "AppStdin") c.io.stdin
    stdout ← resolve_stream (marked (text "AppStdout")) (text "AppStdout") c.io.stdout
    stderr ← resolve_stream (marked (text "AppStderr")) (text "AppStderr") c.io.stderr
    hooks ← resolve_hooks c c.hooks
    ok (record c {
      application = application;
      app_parameters = app_parameters;
      app_directory = app_directory;
      affinity = affinity;
      io = record {
        stdin = stdin;
        stdout = stdout;
        stderr = stderr;
        timestamp_log = c.io.timestamp_log;
      };
      hooks = hooks;
      expandable_strings = [];
    })
