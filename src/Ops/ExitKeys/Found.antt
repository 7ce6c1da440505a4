-- ===== src/Ops/ExitKeys/Found.antt =====
-- The keys that crates/servicemanager-ops/src/recovery.rs accepts, and the lookup of the supervisor.
use ngsm.Prelude.{
  ◌≡◌, refl, ap, subst, false, some, List, [], ◌∷◌, ◌++◌, any, get_or, ||-left, ||-right,
}
use ngsm.Text.{Text, text_eq}
use ngsm.Text.Laws.{text_eq_refl}
use ngsm.Text.Integer.{ℤ, InI32, show_int, parse_i32}
use ngsm.Result.{Result, ok, err, map_err, >>=-eq-ok}
use ngsm.Core.Error.{Error}
use ngsm.Core.Model.{ExitAction}
use ngsm.Ops.ExitKeys.{validate_exit_action_key, validate_keys}
use ngsm.Ops.ExitKeys.Canonical.{validate_exit_action_key_canonical}
use ngsm.Supervisor.ExitActions.{find_policy, action_after_exit}

-- None of the entries has this key.
abbrev pub NoneHas : Text → List (Text × ExitAction) → Type 0
NoneHas key entries = any (λ entry. text_eq entry.0 key) entries ≡ false

find_policy-found :
    (key : Text) (action : ExitAction) (before after : List (Text × ExitAction))
    → NoneHas key before
    → find_policy key (before ++ (key, action) ∷ after) ≡ some action
unfolding find_policy
find_policy-found key action [] after h = rw (text_eq_refl key) refl
find_policy-found key action ((k, a) ∷ before) after h =
    rw (||-left (text_eq k key) (any (λ entry. text_eq entry.0 key) before) h) (
      find_policy-found key action before after
        (||-right (text_eq k key) (any (λ entry. text_eq entry.0 key) before) h))

ok_of_map_err : (f : Error → Error) (r : Result Error (Unit {0})) → map_err f r ≡ ok tt → r ≡ ok tt
ok_of_map_err f (ok u) h = refl
ok_of_map_err f (err e) h = cc

validate_keys-each :
    (before after : List (Text × ExitAction)) (key : Text) (action : ExitAction)
    → validate_keys (before ++ (key, action) ∷ after) ≡ ok tt
    → validate_exit_action_key key ≡ ok tt
unfolding validate_keys
validate_keys-each [] after key action h =
    ok_of_map_err _ (validate_exit_action_key key)
      (>>=-eq-ok (map_err _ (validate_exit_action_key key)) _ h).1
validate_keys-each ((k, a) ∷ before) after key action h =
    validate_keys-each before after key action
      (>>=-eq-ok (map_err _ (validate_exit_action_key k)) _ h).2

-- Every entry of a recovery policy that is accepted has an effect: its key is the printed form of one 32-bit exit code,
-- the one that it is parsed as, and after an exit with that code the supervisor takes the action of the entry, whatever
-- the default action is. (The policy is a map, so no entry before it has its key.)
pub accepted_key-found :
    (before after : List (Text × ExitAction)) (key : Text) (action default_action : ExitAction)
    → validate_keys (before ++ (key, action) ∷ after) ≡ ok tt
    → NoneHas key before
    → (code : ℤ) × InI32 code
      × (parse_i32 key ≡ some code)
      × (key ≡ show_int code)
      × (action_after_exit (before ++ (key, action) ∷ after) code default_action ≡ action)
unfolding action_after_exit
accepted_key-found before after key action default_action h first =
    let c = validate_exit_action_key_canonical key (validate_keys-each before after key action h) in
    (
      c.0,
      c.1,
      c.2,
      c.3,
      ap (λ m. get_or m default_action)
          (subst (λ k. find_policy k (before ++ (key, action) ∷ after) ≡ some action) c.3
            (find_policy-found key action before after first)),
    )
