-- ===== src/Registry/Preflight/Checks.antt =====
-- What each check of `preflight_config` lets pass.
use ngsm.Prelude.{
  ◌≡◌, refl, subst, ◌⊎◌, inl, inr, true, false, Option, none, some, List, [], ◌∷◌, ||-left,
  ||-right, Bool-cases, any, all,
}
use ngsm.Text.{Text, text, is_empty, is_control, eq_ignore_case, contains_char}
use ngsm.Result.{ok, err, reject_if, >>=-eq-ok}
use ngsm.Core.Error.{invalid_config}
use ngsm.Core.Model.{ManagedApplicationConfig, ExitAction}
use ngsm.Core.Validate.Paths.{IsAbsolute, validate_absolute_path_iff}
use ngsm.Core.Expansion.Config.{is_expandable_string}
use ngsm.Registry.Bytes.{is_unstorable}
use ngsm.Registry.ExitActions.{normalize_exit_action_name, get_action, insert_exit_actions}
use ngsm.Registry.ExitActions.Inserted.{
  AllInserted, insert_exit_action-Inserted, insert_exit_actions-AllInserted,
}
use ngsm.Registry.Preflight.{
  is_blank, require_application, check_no_empty, is_deferred, validate_raw_path, check_path,
  insert_default, preflight_actions,
}

-- A path that is written: an absolute one, or an expandable one without a control character.
abbrev pub PathAccepted : ManagedApplicationConfig → Text → Option Text → Type 0
PathAccepted cfg name none = Unit
PathAccepted cfg name (some value) =
    (any is_control value ≡ false)
    × (IsAbsolute value ⊎ ((is_expandable_string cfg name ≡ true) × (is_deferred value ≡ true)))

validate_raw_path-ok :
    (cfg : ManagedApplicationConfig) (name value : Text)
    → validate_raw_path cfg name value ≡ ok tt
    → PathAccepted cfg name (some value)
unfolding validate_raw_path
validate_raw_path-ok cfg name value h = elim (Bool-cases (is_expandable_string cfg name)) [
  | inr plain ↦ let a = (validate_absolute_path_iff name value).0 (rw plain at h) in (a.0, inl a.1)
  | inl marked ↦ elim (Bool-cases (any is_control value)) [
    | inl bad ↦ cc (rw (marked, bad) at h)
    | inr fine ↦ elim (Bool-cases (is_deferred value)) [
      | inl later ↦ (fine, inr (marked, later))
      | inr now ↦
          let a = (validate_absolute_path_iff name value).0 (rw (marked, fine, now) at h) in
          (fine, inl a.1)
    ]
  ]
]

pub check_path-ok :
    (cfg : ManagedApplicationConfig) (name : Text) (value : Option Text)
    → check_path cfg name value ≡ ok tt
    → PathAccepted cfg name value
unfolding check_path
check_path-ok cfg name none h = tt
check_path-ok cfg name (some value) h = validate_raw_path-ok cfg name value h

-- The texts of a list can all be stored as entries of one value.
pub storable :
    (values : List Text)
    → any (contains_char 0) values ≡ false
    → any is_empty values ≡ false
    → any is_unstorable values ≡ false
storable [] nul full = refl
storable (v ∷ values) nul full =
    let nul_v = ||-left (contains_char 0 v) (any (contains_char 0) values) nul in
    let full_v = ||-left (is_empty v) (any is_empty values) full in
    rw (nul_v, full_v)
      (storable values (||-right (contains_char 0 v) (any (contains_char 0) values) nul)
        (||-right (is_empty v) (any is_empty values) full))

pub check_no_empty-ok :
    (name : Text) (values : List Text)
    → check_no_empty name values ≡ ok tt
    → any is_empty values ≡ false
unfolding check_no_empty
check_no_empty-ok name values h = elim (Bool-cases (any is_empty values)) [
  | inl bad ↦ cc (rw bad at h)
  | inr fine ↦ fine
]

abbrev pub HasApplication : ManagedApplicationConfig → Type 0
HasApplication cfg = (app : Text) × (cfg.application ≡ some app) × (is_blank app ≡ false)

pub require_application-ok :
    (cfg : ManagedApplicationConfig) → require_application cfg ≡ ok tt → HasApplication cfg
unfolding require_application
require_application-ok cfg h = go cfg.application refl h
  where
    go :
        (o : Option Text)
        → cfg.application ≡ o
        → (elim o [
          | some app ↦
              reject_if
                (is_blank app)
                (invalid_config (text "managed config requires a non-empty Application value"))
          | none ↦
              err (invalid_config (text "managed config requires a non-empty Application value"))
        ])
          ≡ ok tt
        → HasApplication cfg
    go none e q = cc
    go (some app) e q = elim (Bool-cases (is_blank app)) [
      | inl blank ↦ cc (rw blank at q)
      | inr filled ↦ (app, e, filled)
    ]

abbrev pub DefaultInserted : Option ExitAction → List (Text × ExitAction) → Type 0
DefaultInserted none out = Unit
DefaultInserted (some action) out = get_action (text "default") out ≡ some action

abbrev pub ActionsInserted : ManagedApplicationConfig → List (Text × ExitAction) → Type 0
ActionsInserted cfg out =
    AllInserted cfg.exit_actions out × DefaultInserted cfg.restart_policy.default_action out

AllInserted-kept :
    (entries out out' : List (Text × ExitAction))
    → ((k : Text) (a : ExitAction) → get_action k out ≡ some a → get_action k out' ≡ some a)
    → AllInserted entries out
    → AllInserted entries out'
AllInserted-kept [] out out' kept all = tt
AllInserted-kept ((name, action) ∷ entries) out out' kept all =
    ((all.0.0, all.0.1, kept all.0.0 action all.0.2), AllInserted-kept entries out out' kept all.1)

default_key : normalize_exit_action_name (text "default") ≡ ok (text "default")
unfolding normalize_exit_action_name eq_ignore_case text
default_key = refl

pub preflight_actions-ok :
    (cfg : ManagedApplicationConfig) (out : List (Text × ExitAction))
    → preflight_actions cfg ≡ ok out
    → ActionsInserted cfg out
unfolding preflight_actions
preflight_actions-ok cfg out h =
    let (middle, first, rest) =
      >>=-eq-ok (insert_exit_actions [] cfg.exit_actions)
        (λ m. insert_default m cfg.restart_policy.default_action) h in
    go cfg.restart_policy.default_action middle
      (insert_exit_actions-AllInserted cfg.exit_actions [] middle first).0 rest
  where
    go :
        (default : Option ExitAction) (middle : List (Text × ExitAction))
        → AllInserted cfg.exit_actions middle
        → insert_default middle default ≡ ok out
        → AllInserted cfg.exit_actions out × DefaultInserted default out
    go none middle all q =
        let e : middle ≡ out = cc q in (subst (AllInserted cfg.exit_actions) e all, tt)
    go (some action) middle all q =
        let i = insert_exit_action-Inserted middle out (text "default") action q in
        let same : i.key ≡ text "default" = cc (i.normalized, default_key) in
        (
          AllInserted-kept cfg.exit_actions middle out i.kept all,
          subst (λ k. get_action k out ≡ some action) same i.placed,
        )
