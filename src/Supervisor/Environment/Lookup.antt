-- ===== src/Supervisor/Environment/Lookup.antt =====
-- What a variable means in the environment that crates/servicemanager-supervisor/src/lib.rs builds.
use ngsm.Prelude.{
  ◌≡◌, refl, ap, ◌∙◌, inl, inr, Bool, true, false, Option, some, List, [], ◌∷◌, ◌++◌, if◌then◌else◌,
  Bool-cases,
}
use ngsm.Text.{Text}
use ngsm.Result.{ok, >>=-eq-ok}
use ngsm.Core.Model.{ManagedApplicationConfig}
use ngsm.Supervisor.Environment.{
  Platform, Environment, parse_env_entry, set_environment, lookup_environment, set_entries,
  effective_environment, is_empty_list,
}

-- What Windows documents: the ordinal comparison without regard to case is an equivalence, and a
-- string that was made from Unicode text reads back as that text.
pub record PlatformLaws (p : Platform) : Type 0 where
  pub refl_eq : (a : p.OsString) → p.env_name_eq a a ≡ true
  pub sym_eq : (a b : p.OsString) → p.env_name_eq a b ≡ true → p.env_name_eq b a ≡ true
  pub trans_eq :
      (a b c : p.OsString)
      → p.env_name_eq a b ≡ true
      → p.env_name_eq b c ≡ true
      → p.env_name_eq a c ≡ true
  pub to_str_os : (t : Text) → p.to_str (p.os t) ≡ some t

module _ (p : Platform) (laws : PlatformLaws p) where
  abbrev same_name : Text → Text → Bool
  same_name n m = p.env_name_eq (p.os n) (p.os m)

  lookup_set_same :
      (env : Environment p) (n v m : Text)
      → same_name n m ≡ true
      → lookup_environment p (set_environment p env n v) m ≡ some v
  unfolding lookup_environment set_environment
  lookup_set_same [] n v m same = rw same (laws.to_str_os v)
  lookup_set_same ((k, x) ∷ env) n v m same = elim (Bool-cases (p.env_name_eq k (p.os n))) [
    | inl old ↦ rw old (lookup_set_same env n v m same)
    | inr kept ↦ elim (Bool-cases (p.env_name_eq k (p.os m))) [
      | inl hit ↦
          let clash = laws.trans_eq k (p.os m) (p.os n) hit (laws.sym_eq (p.os n) (p.os m) same) in
          cc (kept, clash)
      | inr miss ↦ rw (kept, miss) (lookup_set_same env n v m same)
    ]
  ]

  lookup_set_other :
      (env : Environment p) (n v m : Text)
      → same_name n m ≡ false
      → lookup_environment p (set_environment p env n v) m ≡ lookup_environment p env m
  unfolding lookup_environment set_environment
  lookup_set_other [] n v m other = rw other refl
  lookup_set_other ((k, x) ∷ env) n v m other = elim (Bool-cases (p.env_name_eq k (p.os n))) [
    | inl old ↦ elim (Bool-cases (p.env_name_eq k (p.os m))) [
      | inl hit ↦
          let clash = laws.trans_eq (p.os n) k (p.os m) (laws.sym_eq k (p.os n) old) hit in
          cc (other, clash)
      | inr miss ↦ rw (old, miss) (lookup_set_other env n v m other)
    ]
    | inr kept ↦ elim (Bool-cases (p.env_name_eq k (p.os m))) [
      | inl hit ↦ rw (kept, hit) refl
      | inr miss ↦ rw (kept, miss) (lookup_set_other env n v m other)
    ]
  ]

  -- The last of the settings of a variable.
  abbrev pub last_setting : List (Text × Text) → Text → Option Text → Option Text
  last_setting [] m before = before
  last_setting ((n, v) ∷ rest) m before =
      last_setting rest m (if same_name n m then some v else before)

  abbrev pub Parse : List Text → List (Text × Text) → Type 0
  Parse [] settings = settings ≡ []
  Parse (e ∷ es) [] = ⊥
  Parse (e ∷ es) (s ∷ settings) = (parse_env_entry e ≡ ok s) × Parse es settings

  lookup_set :
      (env : Environment p) (n v m : Text)
      → lookup_environment p (set_environment p env n v) m
        ≡ (if same_name n m then some v else lookup_environment p env m)
  lookup_set env n v m = elim (Bool-cases (same_name n m)) [
    | inl same ↦ rw same (lookup_set_same env n v m same)
    | inr other ↦ rw other (lookup_set_other env n v m other)
  ]

  set_entries-lookup :
      (es : List Text) (env env' : Environment p)
      → set_entries p env es ≡ ok env'
      → (settings : List (Text × Text)) × Parse es settings
        × ((m : Text)
            → lookup_environment p env' m ≡ last_setting settings m (lookup_environment p env m))
  unfolding set_entries
  set_entries-lookup [] env env' h = ([], refl, λ m. ap (λ e. lookup_environment p e m) (cc h))
  set_entries-lookup (e ∷ es) env env' h =
      let step = >>=-eq-ok (parse_env_entry e) _ h in
      let pair = step.0 in
      let ih = set_entries-lookup es (set_environment p env pair.0 pair.1) env' step.2 in
      (
        pair ∷ ih.0,
        (step.1, ih.1),
        λ m. ih.2 m ∙ ap (last_setting ih.0 m) (lookup_set env pair.0 pair.1 m),
      )

  -- In the effective environment a variable has the value of its last setting, first among the entries
  -- of `environment`, then among those of `environment_extra`, without regard to the case of its name.
  -- A variable that is not set keeps its inherited value, unless the configuration has entries in
  -- `environment`: then nothing is inherited.
  pub effective_environment-lookup :
      (inherited env : Environment p) (config : ManagedApplicationConfig)
      → effective_environment p inherited config ≡ ok env
      → (settings : List (Text × Text)) × Parse
          (config.environment ++ config.environment_extra)
          settings
        × ((m : Text)
            → lookup_environment p env m
              ≡ last_setting settings m (
                  lookup_environment p
                    (if is_empty_list p config.environment then inherited else [])
                    m))
  unfolding effective_environment
  effective_environment-lookup inherited env config h =
      set_entries-lookup (config.environment ++ config.environment_extra) _ env h
