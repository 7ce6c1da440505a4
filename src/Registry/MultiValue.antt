-- ===== src/Registry/MultiValue.antt =====
-- The notation of crates/servicemanager-registry/src/imp.rs for a list of entries in one text.
use ngsm.Prelude.{
  ℕ, ◌≡◌, refl, sym, ap, ◌∙◌, inl, inr, Bool, false, not, ◌||◌, List, [], ◌∷◌, ◌++◌, ◌==◌,
  if◌then◌else◌, ==_iff, Bool-cases, retain,
}
use mathlib.Core.List.{append_assoc, append-nil}
use ngsm.Text.{Text, is_empty}

abbrev backslash : ℕ
backslash = b'\\'

abbrev comma : ℕ
comma = b','

-- `str::replace` of a character by a text
unfoldable pub replace : ℕ → Text → Text → Text
replace k by [] = []
replace k by (c ∷ s) = (if c == k then by else c ∷ []) ++ replace k by s

unfoldable pub escape_entry : Text → Text
unfolding replace
escape_entry e =
    replace comma (backslash ∷ comma ∷ []) (replace backslash (backslash ∷ backslash ∷ []) e)

-- `join(",")` of the escaped entries
unfoldable pub join_multi_value : List Text → Text
unfolding escape_entry
join_multi_value [] = []
join_multi_value (e ∷ []) = escape_entry e
join_multi_value (e ∷ f ∷ es) = escape_entry e ++ comma ∷ join_multi_value (f ∷ es)

-- What `chars.peek()` shows after a backslash that escapes it.
abbrev is_escapable : ℕ → Bool
is_escapable d = d == comma || d == backslash

-- The loop over the characters, with `current` and the entries that are complete.
unfoldable pub split_loop : Text → Text → List Text → List Text
split_loop [] current entries = entries ++ current ∷ []
split_loop (c ∷ []) current entries =
    if c == comma then entries ++ current ∷ [] ∷ [] else entries ++ (current ++ c ∷ []) ∷ []
split_loop (c ∷ d ∷ s) current entries =
    let escaped = split_loop s (current ++ d ∷ []) entries in
    let pushed = split_loop (d ∷ s) (current ++ c ∷ []) entries in
    let next = split_loop (d ∷ s) [] (entries ++ current ∷ []) in
    if c == backslash
    then (if is_escapable d then escaped else pushed)
    else if c == comma
    then next
    else pushed

unfoldable pub split_multi_value : Text → List Text
unfolding split_loop
split_multi_value value = retain (λ s. not (is_empty s)) (split_loop value [] [])

-- Replacing both characters writes each character of the entry by itself.
hide : ℕ → Text
hide c =
    if c == backslash
    then backslash ∷ backslash ∷ []
    else if c == comma
    then backslash ∷ comma ∷ []
    else c ∷ []

escape_entry_cons : (c : ℕ) (e : Text) → escape_entry (c ∷ e) ≡ hide c ++ escape_entry e
unfolding escape_entry hide
escape_entry_cons c e = elim (Bool-cases (c == backslash)) [
  | inl b ↦ rw b refl
  | inr n ↦ elim (Bool-cases (c == comma)) [ inl k ↦ rw (n, k) refl | inr m ↦ rw (n, m) refl ]
]

split_plain :
    (c : ℕ) (rest current : Text) (entries : List Text)
    → (c == backslash) ≡ false
    → (c == comma) ≡ false
    → split_loop (c ∷ rest) current entries ≡ split_loop rest (current ++ c ∷ []) entries
unfolding split_loop
split_plain c [] current entries b k = rw k refl
split_plain c (d ∷ rest) current entries b k = rw (b, k) refl

split_comma :
    (rest current : Text) (entries : List Text)
    → split_loop (comma ∷ rest) current entries ≡ split_loop rest [] (entries ++ current ∷ [])
unfolding split_loop
split_comma [] current entries = sym (append_assoc entries (current ∷ []) ([] ∷ []))
split_comma (d ∷ rest) current entries = refl

split_hide :
    (c : ℕ) (rest current : Text) (entries : List Text)
    → split_loop (hide c ++ rest) current entries ≡ split_loop rest (current ++ c ∷ []) entries
unfolding hide
split_hide c rest current entries = elim (Bool-cases (c == backslash)) [
  | inl b ↦ let e : c ≡ backslash = (==_iff c backslash).0 b in rw e (unfold split_loop in refl)
  | inr n ↦ elim (Bool-cases (c == comma)) [
    | inl k ↦ let e : c ≡ comma = (==_iff c comma).0 k in rw e (unfold split_loop in refl)
    | inr m ↦ rw (n, m) (split_plain c rest current entries n m)
  ]
]

split-escape_entry :
    (e rest current : Text) (entries : List Text)
    → split_loop (escape_entry e ++ rest) current entries ≡ split_loop rest (current ++ e) entries
split-escape_entry [] rest current entries = unfold escape_entry in rw append-nil refl
split-escape_entry (c ∷ e) rest current entries =
    rw (escape_entry_cons c e, append_assoc (hide c) (escape_entry e) rest)
      (split_hide c (escape_entry e ++ rest) current entries
        ∙ split-escape_entry e rest (current ++ c ∷ []) entries
        ∙ ap (λ s. split_loop rest s entries) (append_assoc current (c ∷ []) e))

split-join :
    (e : Text) (es entries : List Text)
    → split_loop (join_multi_value (e ∷ es)) [] entries ≡ entries ++ e ∷ es
unfolding join_multi_value
split-join e [] entries =
    ap (λ s. split_loop s [] entries) (sym (append-nil (escape_entry e)))
    ∙ split-escape_entry e [] [] entries
    ∙ unfold split_loop in refl
split-join e (f ∷ es) entries =
    split-escape_entry e (comma ∷ join_multi_value (f ∷ es)) [] entries
    ∙ split_comma (join_multi_value (f ∷ es)) e entries
    ∙ split-join f es (entries ++ e ∷ [])
    ∙ append_assoc entries (e ∷ []) (f ∷ es)

-- Splitting what was joined gives the entries back in their order, whatever characters they hold; only
-- the empty ones are gone, which the registry cannot store.
pub split_multi_value-join_multi_value :
    (es : List Text) → split_multi_value (join_multi_value es) ≡ retain (λ s. not (is_empty s)) es
split_multi_value-join_multi_value [] = unfold split_multi_value join_multi_value in refl
split_multi_value-join_multi_value (e ∷ es) =
    unfold split_multi_value in rw (split-join e es []) refl
