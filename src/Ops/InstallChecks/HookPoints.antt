-- ===== src/Ops/InstallChecks/HookPoints.antt =====
-- The hooks that crates/servicemanager-ops/src/validate.rs accepts, and those that
-- crates/servicemanager-supervisor/src/hooks.rs looks for.
use ngsm.Prelude.{
  ℕ, ◌≤◌, ◌≡◌, refl, ◌⊎◌, inl, inr, Bool, true, false, not, ◌&&◌, ◌||◌, Option, none, some, List,
  [], ◌∷◌, arith, is_some, is_none, get_or,
}
use ngsm.Text.{is_empty, trim}
use ngsm.Result.{ok, reject_if, >>=-eq-ok}
use ngsm.Core.Error.{Error}
use ngsm.Core.Model.{ManagedApplicationConfig, HookConfig, IoStream}
use ngsm.Supervisor.Hooks.{
  HookPoint, start_pre, start_post, stop_pre, exit_post, rotate_pre, rotate_post, power_change,
  power_resume, event_name, action_name, is_hook_for, find_hook,
}
use ngsm.Ops.InstallChecks.{
  is_supported_hook_point, check_hooks, validate_install_config, install_rotation_requested,
  beyond_two,
}

either : (a b : Bool) → (a || b) ≡ true → (a ≡ true) ⊎ (b ≡ true)
either true b h = inl refl
either false b h = inr h

-- A hook whose event and action are supported is the one that some point of the supervisor looks for.
supported_found :
    (h : HookConfig)
    → is_supported_hook_point h.event h.action ≡ true
    → (point : HookPoint) × (is_hook_for point h ≡ true)
unfolding is_supported_hook_point event_name action_name
supported_found h s = elim (either _ _ s) [
  | inl e ↦ (start_pre, e)
  | inr s₁ ↦ elim (either _ _ s₁) [
    | inl e ↦ (start_post, e)
    | inr s₂ ↦ elim (either _ _ s₂) [
      | inl e ↦ (stop_pre, e)
      | inr s₃ ↦ elim (either _ _ s₃) [
        | inl e ↦ (exit_post, e)
        | inr s₄ ↦ elim (either _ _ s₄) [
          | inl e ↦ (rotate_pre, e)
          | inr s₅ ↦ elim (either _ _ s₅) [
            | inl e ↦ (rotate_post, e)
            | inr s₆ ↦ elim (either _ _ s₆) [
              | inl e ↦ (power_change, e)
              | inr s₇ ↦ elim (either _ _ s₇) [ inl e ↦ (power_resume, e) | inr n ↦ cc n ]
            ]
          ]
        ]
      ]
    ]
  ]
]

-- The hooks of a list, each found by the supervisor at some point when it is the only one.
abbrev pub AllFound : List HookConfig → Type 0
AllFound [] = Unit
AllFound (h ∷ hooks) =
    ((point : HookPoint) × (find_hook (h ∷ []) point ≡ some h))
    × (is_empty (trim h.command) ≡ false)
    × AllFound hooks

found_alone :
    (point : HookPoint) (h : HookConfig)
    → is_hook_for point h ≡ true
    → find_hook (h ∷ []) point ≡ some h
unfolding find_hook
found_alone point h e = rw e refl

passed : (c : Bool) (e : Error) (u : Unit {0}) → reject_if c e ≡ ok u → c ≡ false
passed true e u h = cc
passed false e u h = refl

not-false : (c : Bool) → not c ≡ false → c ≡ true
not-false true h = refl
not-false false h = cc

check_hooks-AllFound : (hooks : List HookConfig) → check_hooks hooks ≡ ok tt → AllFound hooks
unfolding check_hooks
check_hooks-AllFound [] h = tt
check_hooks-AllFound (k ∷ hooks) h =
    let s1 = >>=-eq-ok (reject_if (not (is_supported_hook_point k.event k.action)) _) _ h in
    let s2 = >>=-eq-ok (reject_if (is_empty (trim k.command)) _) _ s1.2 in
    let supported = not-false (is_supported_hook_point k.event k.action) (passed _ _ s1.0 s1.1) in
    let point = supported_found k supported in
    (
      (point.0, found_alone point.0 k point.1),
      passed _ _ s2.0 s2.1,
      check_hooks-AllFound hooks s2.2,
    )

-- What passes the checks of an install works later: each hook has a command and is one that the
-- supervisor looks for, at one of its points; and if rotation is asked for, in whatever way, then
-- there is a redirected stream to rotate, and the online mode is one of 0, 1 and 2.
pub validate_install_config-AllFound :
    (cfg : ManagedApplicationConfig)
    → validate_install_config cfg ≡ ok tt
    → AllFound cfg.hooks
      × (install_rotation_requested cfg.rotation ≡ true
          → (is_some cfg.io.stdout || is_some cfg.io.stderr) ≡ true)
      × (get_or cfg.rotation.online 0 ≤ 2)
unfolding validate_install_config
validate_install_config-AllFound cfg h =
    let s1 =
      >>=-eq-ok
        (reject_if
          (install_rotation_requested cfg.rotation
            && (is_none cfg.io.stdout && is_none cfg.io.stderr))
          _)
        _ h in
    let s2 = >>=-eq-ok (reject_if (beyond_two cfg.rotation.online) _) _ s1.2 in
    (
      check_hooks-AllFound cfg.hooks s2.2,
      redirected (install_rotation_requested cfg.rotation) cfg.io.stdout cfg.io.stderr
          (passed _ _ s1.0 s1.1),
      bounded cfg.rotation.online (passed _ _ s2.0 s2.1),
    )
  where
    redirected :
        (asked : Bool) (o e : Option IoStream)
        → (asked && (is_none o && is_none e)) ≡ false
        → asked ≡ true
        → (is_some o || is_some e) ≡ true
    redirected true none none q r = cc
    redirected true none (some x) q r = refl
    redirected true (some x) e q r = refl
    redirected false o e q r = cc

    bounded : (o : Option ℕ) → beyond_two o ≡ false → get_or o 0 ≤ 2
    bounded none q = omega arith
    bounded (some n) q = ground arith
