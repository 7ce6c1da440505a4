-- ===== src/Registry/Names/Marker.antt =====
-- How the name of the marker differs from the other names that NGSM owns. Checked by evaluation over the tables.
use ngsm.Prelude.{
  ◌≡◌, refl, subst, inl, inr, Bool, true, false, not, ◌&&◌, ◌||◌, Option, none, some, List, [], ◌∷◌,
  ◌++◌, leb, &&-left, &&-right, Bool-cases, any, all, find,
}
use ngsm.Text.{Text, text, text_eq, trim, eq_ignore_case}
use ngsm.Text.Laws.{eq_of_text_eq}
use ngsm.Core.Error.{Error, invalid_config}
use ngsm.Result.{Result, ok, err}
use ngsm.Registry.NssmKeys
use ngsm.Registry.Names.{
  ManagedValueKind, string, multi_string, number, managed_value_kinds, stdio_value_names,
  owned_value_names, stdio_attribute_names, is_stdio_path_value, lookup_attribute, lookup_kind,
}
use ngsm.Registry.Names.Canonical.{IsOneOf}
use ngsm.Registry.Laws.{IsAscii, Differ}

abbrev pub differs_from_marker : Text → Bool
differs_from_marker n = not (any (λ c. leb 128 c) n) && not (eq_ignore_case n NssmKeys.application)

not-true : (b : Bool) → not b ≡ true → b ≡ false
not-true true h = cc
not-true false h = refl

marker-IsAscii : IsAscii NssmKeys.application
unfolding text
marker-IsAscii = refl

pub differs-Differ : (n : Text) → differs_from_marker n ≡ true → Differ n NssmKeys.application
differs-Differ n h = (
  not-true (any (λ c. leb 128 c) n) (&&-left (not (any (λ c. leb 128 c) n)) _ h),
  marker-IsAscii,
  not-true (eq_ignore_case n NssmKeys.application) (&&-right (not (any (λ c. leb 128 c) n)) _ h),
)

-- A table of names has what a test over all of them says.
all_sound :
    (p : Text → Bool) (names : List Text) (n : Text)
    → all p names ≡ true
    → IsOneOf n names
    → p n ≡ true
all_sound p [] n h one = cc
all_sound p (m ∷ names) n h one = elim (Bool-cases (text_eq n m)) [
  | inl same ↦ rw (eq_of_text_eq n m same) (&&-left (p m) (all p names) h)
  | inr other ↦ all_sound p names n (&&-right (p m) (all p names) h) (rw other at one)
]

abbrev is_marker_name : Text → Bool
is_marker_name n = text_eq n NssmKeys.application

owned_table : all (λ n. is_marker_name n || differs_from_marker n) owned_value_names ≡ true
unfolding owned_value_names stdio_value_names stdio_attribute_names text text_eq eq_ignore_case
owned_table = refl

stdio_table :
    all
      (λ n. all differs_from_marker (stdio_attribute_names n))
      (NssmKeys.app_stdin ∷ NssmKeys.app_stdout ∷ NssmKeys.app_stderr ∷ [])
    ≡ true
unfolding stdio_attribute_names text eq_ignore_case
stdio_table = refl

pub owned_differs :
    (n : Text)
    → IsOneOf n owned_value_names
    → text_eq n NssmKeys.application ≡ false
    → differs_from_marker n ≡ true
owned_differs n one other =
    let h =
      all_sound (λ m. is_marker_name m || differs_from_marker m) owned_value_names n owned_table
        one in
    rw other at h

pub stdio_differ :
    (n : Text)
    → is_stdio_path_value n ≡ true
    → all differs_from_marker (stdio_attribute_names n) ≡ true
unfolding is_stdio_path_value
stdio_differ n h =
    all_sound (λ m. all differs_from_marker (stdio_attribute_names m))
      (NssmKeys.app_stdin ∷ NssmKeys.app_stdout ∷ NssmKeys.app_stderr ∷ []) n stdio_table h

abbrev pub is_string : ManagedValueKind → Bool
is_string string = true
is_string multi_string = false
is_string number = false

kinds_table :
    all
      (λ (entry : Text × ManagedValueKind). not (is_marker_name entry.0) || is_string entry.1)
      managed_value_kinds
    ≡ true
unfolding text text_eq
kinds_table = refl

attributes_table : all (λ n. not (is_marker_name n)) stdio_value_names ≡ true
unfolding stdio_value_names stdio_attribute_names text text_eq
attributes_table = refl

find-all {ℓ} :
    {A : Type ℓ} (p test : A → Bool) (xs : List A) (found : A)
    → all p xs ≡ true
    → find test xs ≡ some found
    → p found ≡ true
find-all p test [] found h e = cc
find-all p test (x ∷ xs) found h e = elim (Bool-cases (test x)) [
  | inl hit ↦
      let same : x ≡ found = cc (rw hit at e) in
      subst (λ y. p y ≡ true) same (&&-left (p x) (all p xs) h)
  | inr miss ↦ find-all p test xs found (&&-right (p x) (all p xs) h) (rw miss at e)
]

string_lem : (kind : ManagedValueKind) → is_string kind ≡ true → kind ≡ string
string_lem string h = refl
string_lem multi_string h = cc
string_lem number h = cc

-- A name that resolves to the marker is one of a string.
pub marker_kind :
    (name canonical : Text) (kind : ManagedValueKind)
    → lookup_kind name ≡ ok (canonical, kind)
    → text_eq canonical NssmKeys.application ≡ true
    → kind ≡ string
unfolding lookup_kind lookup_attribute
marker_kind name canonical kind h same = go (find matches managed_value_kinds) refl h
  where
    matches : Text × ManagedValueKind → Bool
    matches entry = eq_ignore_case (trim name) entry.0

    attribute :
        (found : Option Text)
        → find (λ c. eq_ignore_case (trim name) c) stdio_value_names ≡ found
        → ◌≡◌ {A = Result Error (Text × ManagedValueKind)}
            (elim found [
              | some c ↦ ok (c, number)
              | none ↦ err (invalid_config (text "unknown managed value '" ++ (name ++ text "'")))
            ])
            (ok (canonical, kind))
        → kind ≡ string
    attribute none e q = cc
    attribute (some c) e q =
        let k : c ≡ canonical = cc q in
        let other =
          find-all (λ n. not (is_marker_name n)) _ stdio_value_names c attributes_table e in
        cc (rw k at other, same)

    go :
        (found : Option (Text × ManagedValueKind))
        → find matches managed_value_kinds ≡ found
        → ◌≡◌ {A = Result Error (Text × ManagedValueKind)}
            (elim found [ some entry ↦ ok entry | none ↦ lookup_attribute name (trim name) ])
            (ok (canonical, kind))
        → kind ≡ string
    go none e q = attribute (find (λ c. eq_ignore_case (trim name) c) stdio_value_names) refl q
    go (some entry) e q =
        let answer : Text × ManagedValueKind = (canonical, kind) in
        let k : entry ≡ answer = cc q in
        let fits =
          find-all (λ (n : Text × ManagedValueKind). not (is_marker_name n.0) || is_string n.1)
            matches managed_value_kinds entry kinds_table e in
        let fits' : (not (text_eq canonical NssmKeys.application) || is_string kind) ≡ true =
          subst
            (λ (n : Text × ManagedValueKind). (not (is_marker_name n.0) || is_string n.1) ≡ true) k
            fits in
        string_lem kind (rw same at fits')

all_mono :
    (p q : Text → Bool) (names : List Text)
    → ((n : Text) → p n ≡ true → q n ≡ true)
    → all p names ≡ true
    → all q names ≡ true
all_mono p q [] f h = refl
all_mono p q (n ∷ names) f h =
    rw (f n (&&-left (p n) (all p names) h)) (all_mono p q names f (&&-right (p n) (all p names) h))

-- A test that the marker passes is passed by each owned name, but for those that differ from it.
pub owned_covered :
    (p : Text → Bool)
    → p NssmKeys.application ≡ true
    → all (λ n. p n || differs_from_marker n) owned_value_names ≡ true
owned_covered p h =
    all_mono (λ n. is_marker_name n || differs_from_marker n) (λ n. p n || differs_from_marker n)
      owned_value_names covers owned_table
  where
    covers :
        (n : Text)
        → (is_marker_name n || differs_from_marker n) ≡ true
        → (p n || differs_from_marker n) ≡ true
    covers n c = elim (Bool-cases (is_marker_name n)) [
      | inl same ↦ rw (eq_of_text_eq n NssmKeys.application same) (rw h refl)
      | inr other ↦ elim (Bool-cases (p n)) [
        | inl passed ↦ rw passed refl
        | inr failed ↦ rw failed (rw other at c)
      ]
    ]
