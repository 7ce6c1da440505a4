-- ===== src/Registry/ExitActions/Inserted.antt =====
-- What the table of exit actions holds after an insertion that is accepted.
use ngsm.Prelude.{
  ℕ, ◌^◌, ◌≤◌, ◌≡◌, refl, sym, ap, ◌∙◌, subst, ◌⊎◌, inl, inr, true, false, ◌||◌, Option, none, some,
  List, [], ◌∷◌, arith, ltb, if◌then◌else◌, Bool-cases, Option-cases,
}
use ngsm.Text.{Text, text, text_eq, is_empty, eq_ignore_case}
use ngsm.Text.Laws.{text_eq_refl, eq_of_text_eq}
use ngsm.Text.Integer.{ℤ, show_int, parse_i32, parse_u32, InI32, parse_i32-InI32, parse_u32_bound}
use ngsm.Result.{ok, >>=-eq-ok}
use ngsm.Core.Model.{ExitAction, restart, ignore, exit, suicide}
use ngsm.Registry.ExitActions.{
  as_i32, exit_code, normalize_exit_action_name, action_eq, text_lt, get_action, insert_action,
  keep_previous, insert_exit_action, insert_exit_actions,
}

action_eq_lem : (a b : ExitAction) → action_eq a b ≡ true → a ≡ b
action_eq_lem restart restart h = refl
action_eq_lem restart ignore h = cc
action_eq_lem restart exit h = cc
action_eq_lem restart suicide h = cc
action_eq_lem ignore restart h = cc
action_eq_lem ignore ignore h = refl
action_eq_lem ignore exit h = cc
action_eq_lem ignore suicide h = cc
action_eq_lem exit restart h = cc
action_eq_lem exit ignore h = cc
action_eq_lem exit exit h = refl
action_eq_lem exit suicide h = cc
action_eq_lem suicide restart h = cc
action_eq_lem suicide ignore h = cc
action_eq_lem suicide exit h = cc
action_eq_lem suicide suicide h = refl

as_i32-InI32 : (code : ℕ) → code ≤ 4294967295 → InI32 (as_i32 code)
as_i32-InI32 code h = elim (Bool-cases (ltb code (2 ^ 31))) [
  | inl small ↦ rw small (ground arith)
  | inr large ↦ rw large (ground arith)
]

exit_code-InI32 : (name : Text) (z : ℤ) → exit_code name ≡ some z → InI32 z
unfolding exit_code
exit_code-InI32 name z h = go (parse_i32 name) (parse_i32-InI32 name) h
  where
    cast :
        (u : Option ℕ)
        → ((n : ℕ) → u ≡ some n → n ≤ 4294967295)
        → (elim u [ some code ↦ some (as_i32 code) | none ↦ none ]) ≡ some z
        → InI32 z
    cast none bound q = cc
    cast (some n) bound q =
        let e : as_i32 n ≡ z = cc q in subst InI32 e (as_i32-InI32 n (bound n refl))

    go :
        (signed : Option ℤ)
        → ((k : ℤ) → signed ≡ some k → InI32 k)
        → (elim signed [
          | some code ↦ some code
          | none ↦ elim (parse_u32 name) [ some code ↦ some (as_i32 code) | none ↦ none ]
        ])
          ≡ some z
        → InI32 z
    go (some k) bound q = let e : k ≡ z = cc q in subst InI32 e (bound k refl)
    go none bound q = cast (parse_u32 name) (parse_u32_bound name) q

-- A key of the table: the default, or a 32-bit exit code as it is printed.
abbrev pub IsExitKey : Text → Type 0
IsExitKey key = (key ≡ text "default") ⊎ ((z : ℤ) × InI32 z × (key ≡ show_int z))

normalize_exit_action_name-IsExitKey :
    (name key : Text) → normalize_exit_action_name name ≡ ok key → IsExitKey key
unfolding normalize_exit_action_name
normalize_exit_action_name-IsExitKey name key h =
    elim (Bool-cases (is_empty name || eq_ignore_case name (text "default"))) [
      | inl default ↦ let e : text "default" ≡ key = cc (rw default at h) in inl (sym e)
      | inr code ↦ elim (Option-cases (exit_code name)) [
        | inl bad ↦ cc (rw (code, bad) at h)
        | inr (z, good) ↦
            let e : show_int z ≡ key = cc (rw (code, good) at h) in
            inr (z, exit_code-InI32 name z good, sym e)
      ]
    ]

-- A key that was absent is found after its insertion, and every other key has what it had.
get_action-insert_action :
    (name key : Text) (action : ExitAction) (out : List (Text × ExitAction))
    → get_action name out ≡ none
    → get_action key (insert_action name action out)
      ≡ (if text_eq name key then some action else get_action key out)
unfolding get_action insert_action
get_action-insert_action name key action [] absent = refl
get_action-insert_action name key action ((k, other) ∷ out) absent =
    elim (Bool-cases (text_lt k name)) [
      | inr here ↦ rw here refl
      | inl later ↦ elim (Bool-cases (text_eq k name)) [
        | inl same ↦ cc (rw same at absent)
        | inr differs ↦
            let ih = get_action-insert_action name key action out (rw differs at absent) in
            rw later (elim (Bool-cases (text_eq k key)) [
              | inr miss ↦ rw miss ih
              | inl hit ↦ elim (Bool-cases (text_eq name key)) [
                | inr apart ↦ rw (hit, apart) refl
                | inl both ↦
                    let e : k ≡ name =
                      eq_of_text_eq k key hit ∙ sym (eq_of_text_eq name key both) in
                    let d : text_eq name name ≡ false =
                      subst (λ t. text_eq t name ≡ false) e differs in
                    cc (d, text_eq_refl name)
              ]
            ])
      ]
    ]

-- A table after an insertion under the key of `name`.
pub record Inserted (name : Text) (action : ExitAction) (out out' : List (Text × ExitAction))
    : Type 0 where
  pub key : Text
  pub normalized : normalize_exit_action_name name ≡ ok key
  pub placed : get_action key out' ≡ some action
  pub kept : (k : Text) (a : ExitAction) → get_action k out ≡ some a → get_action k out' ≡ some a
  pub others : (k : Text) → text_eq key k ≡ false → get_action k out' ≡ get_action k out

pub insert_exit_action-Inserted :
    (out out' : List (Text × ExitAction)) (name : Text) (action : ExitAction)
    → insert_exit_action out name action ≡ ok out'
    → Inserted name action out out'
unfolding insert_exit_action
insert_exit_action-Inserted out out' name action h =
    let (key, normalized, rest) =
      >>=-eq-ok (normalize_exit_action_name name)
        (λ key. keep_previous key action out (get_action key out)) h in
    go key normalized (get_action key out) refl rest
  where
    go :
        (key : Text)
        → normalize_exit_action_name name ≡ ok key
        → (previous : Option ExitAction) → get_action key out ≡ previous
        → keep_previous key action out previous ≡ ok out'
        → Inserted name action out out'
    go key normalized none absent q =
        let e : insert_action key action out ≡ out' = cc q in
        let at : (k : Text)
            → get_action k out' ≡ (if text_eq key k then some action else get_action k out) =
          λ k. rw (← e) (get_action-insert_action key k action out absent) in
        record {
          key = key;
          normalized = normalized;
          placed = at key ∙ rw (text_eq_refl key) refl;
          kept = λ k a found. elim (Bool-cases (text_eq key k)) [
            | inl same ↦
                let ks : key ≡ k = eq_of_text_eq key k same in
                let gone : get_action k out ≡ none =
                  subst (λ t. get_action t out ≡ none) ks absent in
                cc (gone, found)
            | inr differs ↦ at k ∙ rw differs found
          ];
          others = λ k differs. at k ∙ rw differs refl;
        }
    go key normalized (some previous) present q = elim (Bool-cases (action_eq previous action)) [
      | inr conflict ↦ cc (rw conflict at q)
      | inl agrees ↦
          let e : out ≡ out' = cc (rw agrees at q) in
          let same : previous ≡ action = action_eq_lem previous action agrees in
          record {
            key = key;
            normalized = normalized;
            placed = rw (← e) (present ∙ ap some same);
            kept = λ k a found. rw (← e) found;
            others = λ k differs. rw (← e) refl;
          }
    ]

-- Every entry of a list is in the table under its key.
abbrev pub AllInserted : List (Text × ExitAction) → List (Text × ExitAction) → Type 0
AllInserted [] out = Unit
AllInserted ((name, action) ∷ entries) out =
    ((key : Text) × (normalize_exit_action_name name ≡ ok key) × (get_action key out ≡ some action))
    × AllInserted entries out

pub insert_exit_actions-AllInserted :
    (entries out out' : List (Text × ExitAction))
    → insert_exit_actions out entries ≡ ok out'
    → AllInserted entries out'
      × ((k : Text) (a : ExitAction) → get_action k out ≡ some a → get_action k out' ≡ some a)
unfolding insert_exit_actions
insert_exit_actions-AllInserted [] out out' h =
    let e : out ≡ out' = cc h in (tt, λ k a found. rw (← e) found)
insert_exit_actions-AllInserted ((name, action) ∷ entries) out out' h =
    let (middle, first, rest) =
      >>=-eq-ok (insert_exit_action out name action) (λ m. insert_exit_actions m entries) h in
    let i = insert_exit_action-Inserted out middle name action first in
    let ih = insert_exit_actions-AllInserted entries middle out' rest in
    (
      ((i.key, i.normalized, ih.1 i.key action i.placed), ih.0),
      λ k a found. ih.1 k a (i.kept k a found),
    )
