-- ===== src/Core/Validate/Paths.antt =====
-- What the path check of crates/servicemanager-core/src/validate.rs accepts.
use ngsm.Prelude.{
  ℕ, ◌≡◌, refl, ap, ◌∙◌, subst, ◌↔◌, inl, inr, true, false, ◌&&◌, [], ◌∷◌, ◌++◌, arith, ◌==◌,
  ==_iff, &&-left, &&-right, ||-left, ||-right, Bool-cases, any, span_not,
}
use ngsm.Result.{ok}
use ngsm.Text.{Text, is_control, is_ascii_alphabetic}
use mathlib.Core.Path.{ap₂}
use ngsm.Core.Validate.{
  after_server, is_drive, is_unambiguously_absolute, validate_absolute_path, is_unc_tail,
  is_separator,
}

abbrev pub NoSeparator : Text → Type 0
NoSeparator s = any is_separator s ≡ false

-- The grammar of the paths that mean the same from everywhere: `X:\…`, and `\\server\share…` with a
-- server and a share that are not empty; either slash will do.
pub data IsAbsolute (value : Text) : Type 0 where
  drive :
      (letter s : ℕ) (tail : Text)
      → is_ascii_alphabetic letter ≡ true
      → is_separator s ≡ true
      → value ≡ letter ∷ b':' ∷ s ∷ tail
      → IsAbsolute value
  unc :
      (a b s : ℕ) (first : ℕ) (server : Text) (share : ℕ) (tail : Text)
      → is_separator a ≡ true
      → is_separator b ≡ true
      → is_separator s ≡ true
      → NoSeparator (first ∷ server)
      → is_separator share ≡ false
      → value ≡ a ∷ b ∷ first ∷ server ++ s ∷ share ∷ tail
      → IsAbsolute value

-- What `position` of the first separator cuts a text into.
split_sound :
    (s : Text)
    → (s ≡ (span_not is_separator s).0 ++ (span_not is_separator s).1)
      × NoSeparator (span_not is_separator s).0
split_sound [] = (refl, refl)
split_sound (c ∷ s) = elim (Bool-cases (is_separator c)) [
  | inl sep ↦ rw sep (refl, refl)
  | inr plain ↦ let ih = split_sound s in rw plain (ap (λ t. c ∷ t) ih.0, rw plain ih.1)
]

split_head :
    (s : Text) (c : ℕ) (t : Text) → (span_not is_separator s).1 ≡ c ∷ t → is_separator c ≡ true
split_head [] c t h = cc
split_head (d ∷ s) c t h = elim (Bool-cases (is_separator d)) [
  | inl sep ↦
      let e : d ∷ s ≡ c ∷ t = rw sep at h in
      let same : d ≡ c = cc e in subst (λ x. is_separator x ≡ true) same sep
  | inr plain ↦ split_head s c t (rw plain at h)
]

split_at :
    (server : Text) (s : ℕ) (after : Text)
    → NoSeparator server
    → is_separator s ≡ true
    → span_not is_separator (server ++ s ∷ after) ≡ (server, s ∷ after)
split_at [] s after n h = rw h refl
split_at (c ∷ server) s after n h =
    let plain = ||-left (is_separator c) (any is_separator server) n in
    let ih = split_at server s after (||-right (is_separator c) (any is_separator server) n) h in
    rw (plain, ih) refl

unc_sound :
    (a b : ℕ) (rest : Text)
    → is_separator a ≡ true
    → is_separator b ≡ true
    → is_unc_tail rest ≡ true
    → IsAbsolute (a ∷ b ∷ rest)
unfolding is_unc_tail
unc_sound a b rest ha hb h =
    go (span_not is_separator rest).0 (span_not is_separator rest).1 refl refl h
  where
    go :
        (server after : Text)
        → (span_not is_separator rest).0 ≡ server
        → (span_not is_separator rest).1 ≡ after
        → after_server (server, after) ≡ true
        → IsAbsolute (a ∷ b ∷ rest)
    go server [] e f k = cc
    go [] (s ∷ after) e f k = cc
    go (first ∷ server) (s ∷ []) e f k = cc
    go (first ∷ server) (s ∷ share ∷ tail) e f k = elim (Bool-cases (is_separator share)) [
      | inl sep ↦ cc (rw sep at k)
      | inr plain ↦
          unc a b s first server share tail ha hb (split_head rest s (share ∷ tail) f)
            (subst NoSeparator e (split_sound rest).1) plain
            (ap (λ t. a ∷ b ∷ t) ((split_sound rest).0 ∙ ap₂ ◌++◌ e f))
    ]

drive_sound : (value : Text) → is_drive value ≡ true → IsAbsolute value
drive_sound [] h = cc
drive_sound (letter ∷ []) h = cc
drive_sound (letter ∷ colon ∷ []) h = cc
drive_sound (letter ∷ colon ∷ s ∷ tail) h =
    let r = &&-right (is_ascii_alphabetic letter) (colon == b':' && is_separator s) h in
    let c : colon ≡ b':' = (==_iff colon b':').0 (&&-left (colon == b':') (is_separator s) r) in
    drive letter s tail (&&-left (is_ascii_alphabetic letter) (colon == b':' && is_separator s) h)
      (&&-right (colon == b':') (is_separator s) r) (rw c refl)

IsAbsolute-sound : (value : Text) → is_unambiguously_absolute value ≡ true → IsAbsolute value
unfolding is_unambiguously_absolute
IsAbsolute-sound [] h = cc
IsAbsolute-sound (a ∷ []) h = cc
IsAbsolute-sound (a ∷ b ∷ s) h = elim (Bool-cases (is_separator a && is_separator b)) [
  | inl two ↦
      unc_sound a b s (&&-left (is_separator a) (is_separator b) two)
        (&&-right (is_separator a) (is_separator b) two) (rw two at h)
  | inr other ↦ drive_sound (a ∷ b ∷ s) (rw other at h)
]

-- A letter is no separator.
letter_plain : (c : ℕ) → is_ascii_alphabetic c ≡ true → is_separator c ≡ false
unfolding is_ascii_alphabetic
letter_plain c h = ground arith

absolute_complete : (value : Text) → IsAbsolute value → is_unambiguously_absolute value ≡ true
unfolding is_unambiguously_absolute
absolute_complete value (drive letter s tail l h e) = rw e (rw (letter_plain letter l, l, h) refl)
absolute_complete value (unc a b s first server share tail ha hb hs n hp e) = rw e (
    rw (ha, hb)
      (unfold is_unc_tail in (rw (split_at (first ∷ server) s (share ∷ tail) n hs, hp) refl)))

-- A path is accepted exactly if it has no control character in it and is absolute by the grammar:
-- a drive letter, a colon and a separator, or a UNC path whose server and share are not empty.
pub validate_absolute_path_iff :
    (field value : Text)
    → (validate_absolute_path field value ≡ ok tt)
      ↔ ((any is_control value ≡ false) × IsAbsolute value)
unfolding validate_absolute_path
validate_absolute_path_iff field value = (to, from)
  where
    to :
        validate_absolute_path field value ≡ ok tt
        → (any is_control value ≡ false) × IsAbsolute value
    to h = elim (Bool-cases (any is_control value)) [
      | inl bad ↦ cc (rw bad at h)
      | inr fine ↦ elim (Bool-cases (is_unambiguously_absolute value)) [
        | inl abs ↦ (fine, IsAbsolute-sound value abs)
        | inr rel ↦ cc (rw (fine, rel) at h)
      ]
    ]

    from :
        (any is_control value ≡ false) × IsAbsolute value
        → validate_absolute_path field value ≡ ok tt
    from (fine, abs) = rw (fine, absolute_complete value abs) refl
