-- ===== src/Registry/Names/Canonical.antt =====
-- What the resolution of a value name gives.
use ngsm.Prelude.{
  ◌≡◌, refl, ap, ◌∙◌, subst, inl, inr, Bool, true, false, ◌||◌, Option, none, some, List, [], ◌∷◌,
  ◌++◌, Bool-cases, any, find,
}
use mathlib.Core.Path.{ap₂}
use ngsm.Text.{Text, text, text_eq, trim, eq_ignore_case}
use ngsm.Text.Laws.{text_eq_refl}
use ngsm.Core.Error.{Error, invalid_config}
use ngsm.Result.{Result, ok, err}
use ngsm.Registry.Names.{
  ManagedValueKind, number, managed_value_kinds, managed_value_names, stdio_value_names,
  owned_value_names, lookup_attribute, lookup_kind,
}

-- An element is among the elements of a list.
abbrev pub IsOneOf : Text → List Text → Type 0
IsOneOf name names = any (text_eq name) names ≡ true

any-append : (p : Text → Bool) (xs ys : List Text) → any p (xs ++ ys) ≡ (any p xs || any p ys)
any-append p [] ys = refl
any-append p (x ∷ xs) ys = elim (Bool-cases (p x)) [
  | inl e ↦ rw e refl
  | inr n ↦ rw n (any-append p xs ys)
]

||-true : (b : Bool) → (b || true) ≡ true
||-true true = refl
||-true false = refl

module _ {ℓ} {A : Type ℓ} (key : A → Text) (test : A → Bool) where
  -- What a search finds passes the test, and its key is among the keys.
  find_sound :
      (xs : List A) (found : A)
      → find test xs ≡ some found
      → (test found ≡ true) × (any (λ x. text_eq (key found) (key x)) xs ≡ true)
  find_sound [] found h = cc
  find_sound (x ∷ xs) found h = elim (Bool-cases (test x)) [
    | inl hit ↦
        let e : x ≡ found = cc (rw hit at h) in
        (subst (λ y. test y ≡ true) e hit, rw (← e) (rw (text_eq_refl (key x)) refl))
    | inr miss ↦
        let ih = find_sound xs found (rw miss at h) in
        (ih.0, rw ih.1 (||-true (text_eq (key found) (key x))))
  ]

-- What is not found fails the test everywhere.
find-none {ℓ} :
    {A : Type ℓ} (test : A → Bool) (xs : List A) → find test xs ≡ none → any test xs ≡ false
find-none test [] h = refl
find-none test (x ∷ xs) h = elim (Bool-cases (test x)) [
  | inl hit ↦ cc (rw hit at h)
  | inr miss ↦ rw miss (find-none test xs (rw miss at h))
]

-- What the answer of `lookup_kind` says of the name that was typed.
abbrev pub Resolved : Text → Result Error (Text × ManagedValueKind) → Type 0
Resolved name (ok (canonical, kind)) =
    (eq_ignore_case (trim name) canonical ≡ true) × IsOneOf canonical owned_value_names
Resolved name (err e) = any (eq_ignore_case (trim name)) owned_value_names ≡ false

any_owned :
    (p : Text → Bool)
    → any p owned_value_names ≡ (any p managed_value_names || any p stdio_value_names)
unfolding owned_value_names
any_owned p = any-append p managed_value_names stdio_value_names

lookup_attribute-Resolved :
    (name typed : Text)
    → typed ≡ trim name
    → any (eq_ignore_case typed) managed_value_names ≡ false
    → Resolved name (lookup_attribute name typed)
unfolding lookup_attribute
lookup_attribute-Resolved name typed same missed =
    go (find (eq_ignore_case typed) stdio_value_names) refl
  where
    go :
        (found : Option Text)
        → find (eq_ignore_case typed) stdio_value_names ≡ found
        → Resolved name (elim found [
          | some canonical ↦ ok (canonical, number)
          | none ↦ err (invalid_config (text "unknown managed value '" ++ (name ++ text "'")))
        ])
    go none e =
        let missing = find-none (eq_ignore_case typed) stdio_value_names e in
        let all_missing : any (eq_ignore_case typed) owned_value_names ≡ false =
          any_owned (eq_ignore_case typed) ∙ ap₂ ◌||◌ missed missing in
        subst (λ t. any (eq_ignore_case t) owned_value_names ≡ false) same all_missing
    go (some canonical) e =
        let f = find_sound (λ n. n) (eq_ignore_case typed) stdio_value_names canonical e in
        (
          subst (λ t. eq_ignore_case t canonical ≡ true) same f.0,
          any_owned (text_eq canonical)
              ∙ ap (λ b. any (text_eq canonical) managed_value_names || b) f.1
              ∙ ||-true (any (text_eq canonical) managed_value_names),
        )

-- A name that is resolved equals what was typed, without the blanks at its ends and up to ASCII case,
-- and is a name that NGSM owns; an error is given only if what was typed equals no name that NGSM owns.
pub lookup_kind-Resolved : (name : Text) → Resolved name (lookup_kind name)
unfolding lookup_kind
lookup_kind-Resolved name = go (find matches managed_value_kinds) refl
  where
    matches : Text × ManagedValueKind → Bool
    matches entry = eq_ignore_case (trim name) entry.0

    go :
        (found : Option (Text × ManagedValueKind))
        → find matches managed_value_kinds ≡ found
        → Resolved name
            (elim found [ some entry ↦ ok entry | none ↦ lookup_attribute name (trim name) ])
    go none e =
        lookup_attribute-Resolved name (trim name) refl (find-none matches managed_value_kinds e)
    go (some (canonical, kind)) e =
        let f = find_sound (λ entry. entry.0) matches managed_value_kinds (canonical, kind) e in
        (
          f.0,
          any_owned (text_eq canonical)
              ∙ ap (λ b. b || any (text_eq canonical) stdio_value_names) f.1,
        )
