-- ===== src/Supervisor/Environment.antt =====
-- The environment of a service in crates/servicemanager-supervisor/src/lib.rs.
pub mod Lookup
use ngsm.Prelude.{
  ◌+◌, Bool, true, false, not, ◌||◌, Option, none, some, List, [], ◌∷◌, ◌++◌, ◌==◌, if◌then◌else◌,
  find, retain, span_not,
}
use ngsm.Text.{Text, text, is_empty, contains_char}
use ngsm.Result.{Result, ok, err, reject_if, ◌>>=◌, ◌>>◌}
use ngsm.Core.Error.{Error, invalid_config}
use ngsm.Core.Model.{ManagedApplicationConfig}

-- `split_once('=')`
abbrev split_found : Text × Text → Result Error (Text × Text)
split_found (name, []) = err (invalid_config (text "environment entry must be NAME=VALUE"))
split_found (name, equals ∷ value) = ok (name, value)

unfoldable pub parse_env_entry : Text → Result Error (Text × Text)
parse_env_entry entry = do
  pair ← split_found (span_not (λ c. c == b'=') entry)
  reject_if (is_empty pair.0 || (contains_char 0 pair.0 || contains_char 0 pair.1))
      (invalid_config (text "environment entry has an empty name or embedded NUL"))
  ok pair

-- What the platform has: its own strings, and their comparison without regard to case.
pub record Platform : Type 1 where
  pub OsString : Type 0
  pub os : Text → OsString
  pub to_str : OsString → Option Text
  pub env_name_eq : OsString → OsString → Bool

module _ (p : Platform) where
  abbrev pub Environment : Type 0
  Environment = List (p.OsString × p.OsString)

  unfoldable pub set_environment : Environment → Text → Text → Environment
  set_environment environment name value =
      retain (λ entry. not (p.env_name_eq entry.0 (p.os name))) environment
      ++ ((p.os name, p.os value) ∷ [])

  abbrev pub value_of : Option (p.OsString × p.OsString) → Option Text
  value_of none = none
  value_of (some entry) = p.to_str entry.1

  unfoldable pub lookup_environment : Environment → Text → Option Text
  lookup_environment environment name =
      value_of (find (λ entry. p.env_name_eq entry.0 (p.os name)) environment)

  unfoldable pub set_entries : Environment → List Text → Result Error Environment
  unfolding parse_env_entry set_environment
  set_entries environment [] = ok environment
  set_entries environment (entry ∷ entries) = do
    pair ← parse_env_entry entry
    set_entries (set_environment environment pair.0 pair.1) entries

  abbrev pub is_empty_list : List Text → Bool
  is_empty_list [] = true
  is_empty_list (x ∷ xs) = false

  -- `inherited` is the environment of the process of the supervisor.
  unfoldable pub effective_environment :
      Environment → ManagedApplicationConfig → Result Error Environment
  unfolding set_entries
  effective_environment inherited config =
      set_entries (if is_empty_list config.environment then inherited else [])
        (config.environment ++ config.environment_extra)
