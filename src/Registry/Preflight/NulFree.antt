-- ===== src/Registry/Preflight/NulFree.antt =====
-- What the search for embedded NULs lets pass.
use ngsm.Prelude.{
  ℕ, ◌+◌, ◌≡◌, refl, inl, inr, false, Option, none, some, List, [], ◌∷◌, ◌++◌, Bool-cases, any,
}
use ngsm.Text.{Text, text, contains_char}
use ngsm.Result.{Result, ok, err, ◌>>◌}
use ngsm.Core.Model.{ManagedApplicationConfig, HookConfig, ExitAction}
use ngsm.Registry.Preflight.{
  check_nul, check_option, check_entries, stream_path, check_exit_names, check_hook_texts,
  precheck_no_embedded_nuls,
}

module _ {ℓ κ} {E : Type ℓ} {B : Type κ} where
  pub both_ok :
      (first : Result E (Unit {0})) {rest : Result E B} {b : B}
      → (first >> rest) ≡ ok b
      → (first ≡ ok tt) × (rest ≡ ok b)
  both_ok (ok tt) h = (refl, h)
  both_ok (err e) h = cc

abbrev pub NulFree : Option Text → Type 0
NulFree none = Unit
NulFree (some v) = contains_char 0 v ≡ false

check_nul-ok : (field value : Text) → check_nul field value ≡ ok tt → contains_char 0 value ≡ false
unfolding check_nul
check_nul-ok field value h = elim (Bool-cases (contains_char 0 value)) [
  | inl bad ↦ cc (rw bad at h)
  | inr fine ↦ fine
]

check_option-ok : (field : Text) (o : Option Text) → check_option field o ≡ ok tt → NulFree o
unfolding check_option
check_option-ok field none h = tt
check_option-ok field (some v) h = check_nul-ok field v h

check_entries-ok :
    (field : Text) (i : ℕ) (values : List Text)
    → check_entries field i values ≡ ok tt
    → any (contains_char 0) values ≡ false
unfolding check_entries
check_entries-ok field i [] h = refl
check_entries-ok field i (v ∷ values) h =
    let (first, rest) = both_ok (check_nul _ v) h in
    rw (check_nul-ok _ v first) (check_entries-ok field (i + 1) values rest)

check_exit_names-ok :
    (entries : List (Text × ExitAction))
    → check_exit_names entries ≡ ok tt
    → any (λ (entry : Text × ExitAction). contains_char 0 entry.0) entries ≡ false
unfolding check_exit_names
check_exit_names-ok [] h = refl
check_exit_names-ok ((name, action) ∷ entries) h =
    let (first, rest) = both_ok (check_nul (text "AppExit\\" ++ name) name) h in
    rw (check_nul-ok _ name first) (check_exit_names-ok entries rest)

check_hook_texts-ok :
    (hooks : List HookConfig)
    → check_hook_texts hooks ≡ ok tt
    → any (λ (hook : HookConfig). contains_char 0 hook.command) hooks ≡ false
unfolding check_hook_texts
check_hook_texts-ok [] h = refl
check_hook_texts-ok (hook ∷ hooks) h =
    let (event, h1) = both_ok (check_nul _ hook.event) h in
    let (action, h2) = both_ok (check_nul _ hook.action) h1 in
    let (command, h3) = both_ok (check_nul _ hook.command) h2 in
    rw (check_nul-ok _ hook.command command) (check_hook_texts-ok hooks h3)

-- No text of the configuration that becomes the value of a registry entry has a NUL in it.
pub record IsNulFree (cfg : ManagedApplicationConfig) : Type 0 where
  pub application : NulFree cfg.application
  pub app_parameters : NulFree cfg.app_parameters
  pub app_directory : NulFree cfg.app_directory
  pub affinity : NulFree cfg.affinity
  pub environment : any (contains_char 0) cfg.environment ≡ false
  pub environment_extra : any (contains_char 0) cfg.environment_extra ≡ false
  pub stdin : NulFree (stream_path cfg.io.stdin)
  pub stdout : NulFree (stream_path cfg.io.stdout)
  pub stderr : NulFree (stream_path cfg.io.stderr)
  pub commands : any (λ (hook : HookConfig). contains_char 0 hook.command) cfg.hooks ≡ false

pub precheck_no_embedded_nuls-IsNulFree :
    (cfg : ManagedApplicationConfig) → precheck_no_embedded_nuls cfg ≡ ok tt → IsNulFree cfg
unfolding precheck_no_embedded_nuls
precheck_no_embedded_nuls-IsNulFree cfg h =
    let (application, h1) = both_ok (check_option _ cfg.application) h in
    let (parameters, h2) = both_ok (check_option _ cfg.app_parameters) h1 in
    let (directory, h3) = both_ok (check_option _ cfg.app_directory) h2 in
    let (affinity, h4) = both_ok (check_option _ cfg.affinity) h3 in
    let (environment, h5) = both_ok (check_entries _ _ cfg.environment) h4 in
    let (extra, h6) = both_ok (check_entries _ _ cfg.environment_extra) h5 in
    let (stdin, h7) = both_ok (check_option _ (stream_path cfg.io.stdin)) h6 in
    let (stdout, h8) = both_ok (check_option _ (stream_path cfg.io.stdout)) h7 in
    let (stderr, h9) = both_ok (check_option _ (stream_path cfg.io.stderr)) h8 in
    let (names, hooks) = both_ok (check_exit_names cfg.exit_actions) h9 in
    record {
      application = check_option-ok _ _ application;
      app_parameters = check_option-ok _ _ parameters;
      app_directory = check_option-ok _ _ directory;
      affinity = check_option-ok _ _ affinity;
      environment = check_entries-ok _ _ _ environment;
      environment_extra = check_entries-ok _ _ _ extra;
      stdin = check_option-ok _ _ stdin;
      stdout = check_option-ok _ _ stdout;
      stderr = check_option-ok _ _ stderr;
      commands = check_hook_texts-ok cfg.hooks hooks;
    }
