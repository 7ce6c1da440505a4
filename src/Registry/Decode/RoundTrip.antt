-- ===== src/Registry/Decode/RoundTrip.antt =====
-- What the decoders of crates/servicemanager-registry/src/imp.rs give for what its writers store.
use ngsm.Prelude.{
  ℕ, ◌%◌, ◌≡◌, refl, ap, ◌∙◌, ◌≢◌, inl, inr, true, false, List, [], ◌∷◌, ◌++◌, arith, ltb, ◌==◌,
  ==_iff, ||-left, ||-right, Bool-cases, length, any, span_not,
}
use mathlib.Core.List.{append_assoc, append-nil}
use ngsm.Text.{Text, is_empty, contains_char}
use ngsm.Text.Utf16.{
  encode_char, encode_utf16, IsUnicode, IsWords, from_utf16-encode_utf16, encode_utf16-IsWords,
  encode_utf16_nul,
}
use ngsm.Result.{ok}
use ngsm.Registry.Bytes.{
  words_of, wide_to_bytes, string_bytes, multi_bytes, multi_words, is_unstorable,
  words_of-wide_to_bytes, length-wide_to_bytes,
}
use ngsm.Registry.Decode.{
  is_nul, utf16_text, string_of_words, bytes_to_wide_string, multi_entries, ends_with_nul,
  bytes_to_wide_multi,
}

utf16_text-encode : (start s : Text) → IsUnicode s → utf16_text start (encode_utf16 s) ≡ ok s
unfolding utf16_text
utf16_text-encode start s h = rw (from_utf16-encode_utf16 s h, utf16_text) refl

span_not_nul :
    (ws rest : List ℕ) → any is_nul ws ≡ false → span_not is_nul (ws ++ 0 ∷ rest) ≡ (ws, 0 ∷ rest)
span_not_nul [] rest h = refl
span_not_nul (w ∷ ws) rest h =
    let plain : is_nul w ≡ false = ||-left (is_nul w) (any is_nul ws) h in
    let ih = span_not_nul ws rest (||-right (is_nul w) (any is_nul ws) h) in rw (plain, ih) refl

IsWords-append : (a b : List ℕ) → IsWords a → IsWords b → IsWords (a ++ b)
IsWords-append [] b ha hb = hb
IsWords-append (w ∷ a) b ha hb = (ha.0, IsWords-append a b ha.1 hb)

-- A buffer that is not empty is decoded by its words.
string_by_words :
    (bytes : List ℕ)
    → bytes ≢ []
    → length bytes % 2 ≡ 0
    → bytes_to_wide_string bytes ≡ string_of_words (words_of bytes)
unfolding bytes_to_wide_string
string_by_words [] ne even = absurd (ne refl)
string_by_words (b ∷ bytes) ne even =
    let e : (length (b ∷ bytes) % 2 == 0) ≡ true = (==_iff _ _).1 even in rw e refl

multi_by_words :
    (bytes : List ℕ)
    → bytes ≢ []
    → length bytes % 2 ≡ 0
    → ends_with_nul (words_of bytes) ≡ true
    → bytes_to_wide_multi bytes ≡ multi_entries (words_of bytes) [] []
unfolding bytes_to_wide_multi
multi_by_words [] ne even last = absurd (ne refl)
multi_by_words (b ∷ bytes) ne even last =
    let e : (length (b ∷ bytes) % 2 == 0) ≡ true = (==_iff _ _).1 even in rw (e, last) refl

wide_ne_nil : (ws : List ℕ) → ws ≢ [] → wide_to_bytes ws ≢ []
unfolding wide_to_bytes
wide_ne_nil [] ne e = ne refl
wide_ne_nil (w ∷ ws) ne e = cc

append_ne_nil : (ws : List ℕ) (w : ℕ) (rest : List ℕ) → ws ++ w ∷ rest ≢ []
append_ne_nil [] w rest e = cc
append_ne_nil (v ∷ ws) w rest e = cc

-- A text that `write_string_typed` accepts is read back as it was.
pub bytes_to_wide_string-string_bytes :
    (name value : Text) (bytes : List ℕ)
    → IsUnicode value
    → string_bytes name value ≡ ok bytes
    → bytes_to_wide_string bytes ≡ ok value
unfolding string_bytes
bytes_to_wide_string-string_bytes name value bytes u h = elim (Bool-cases (contains_char 0 value)) [
  | inl bad ↦ cc (rw bad at h)
  | inr fine ↦
      let ws = encode_utf16 value in
      let same : wide_to_bytes (ws ++ 0 ∷ []) ≡ bytes = cc (rw fine at h) in
      let words = IsWords-append ws (0 ∷ []) (encode_utf16-IsWords value u) (omega arith, tt) in
      let back = words_of-wide_to_bytes (ws ++ 0 ∷ []) words in
      let cut = span_not_nul ws [] (encode_utf16_nul value fine) in
      let read : string_of_words (ws ++ 0 ∷ []) ≡ ok value =
        unfold string_of_words in (rw cut (utf16_text-encode _ value u)) in
      rw (← same) (
        string_by_words (wide_to_bytes (ws ++ 0 ∷ []))
          (wide_ne_nil (ws ++ 0 ∷ []) (append_ne_nil ws 0 [])) (length-wide_to_bytes (ws ++ 0 ∷ []))
        ∙ rw back read)
]

-- Texts of a block that can be stored.
abbrev pub AllUnicode : List Text → Type 0
AllUnicode [] = Unit
AllUnicode (v ∷ values) = IsUnicode v × AllUnicode values

-- The loop reads one entry up to its NUL.
entry_step :
    (ws rest current : List ℕ) (out : List Text)
    → any is_nul ws ≡ false
    → multi_entries (ws ++ rest) current out ≡ multi_entries rest (current ++ ws) out
unfolding multi_entries
entry_step [] rest current out h = rw append-nil refl
entry_step (w ∷ ws) rest current out h =
    let plain : is_nul w ≡ false = ||-left (is_nul w) (any is_nul ws) h in
    rw plain (
      entry_step ws rest (current ++ w ∷ []) out (||-right (is_nul w) (any is_nul ws) h)
      ∙ rw (append_assoc current (w ∷ []) ws) refl)

encode_ne_nil : (v : Text) → is_empty v ≡ false → is_empty (encode_utf16 v) ≡ false
unfolding encode_utf16 encode_char
encode_ne_nil [] h = cc
encode_ne_nil (c ∷ v) h = elim (Bool-cases (ltb c 0x10000)) [
  | inl small ↦ rw small refl
  | inr large ↦ rw large refl
]

entry_end :
    (v : Text) (ws : List ℕ) (out : List Text)
    → IsUnicode v
    → is_empty (encode_utf16 v) ≡ false
    → multi_entries (0 ∷ ws) (encode_utf16 v) out ≡ multi_entries ws [] (out ++ v ∷ [])
unfolding multi_entries
entry_end v ws out u full = rw (full, utf16_text-encode _ v u) refl

multi_entries-multi_words :
    (values out : List Text)
    → AllUnicode values
    → any is_unstorable values ≡ false
    → multi_entries (multi_words values) [] out ≡ ok (out ++ values)
unfolding multi_words
multi_entries-multi_words [] out u h = unfold multi_entries in rw append-nil refl
multi_entries-multi_words (v ∷ values) out u h =
    let storable : is_unstorable v ≡ false =
      ||-left (is_unstorable v) (any is_unstorable values) h in
    let nul_free = encode_utf16_nul v (||-left (contains_char 0 v) (is_empty v) storable) in
    let full = encode_ne_nil v (||-right (contains_char 0 v) (is_empty v) storable) in
    let ih =
      multi_entries-multi_words values (out ++ v ∷ []) u.1
        (||-right (is_unstorable v) (any is_unstorable values) h) in
    entry_step (encode_utf16 v) (0 ∷ multi_words values) [] out nul_free
    ∙ entry_end v (multi_words values) out u.0 full
    ∙ ih
    ∙ ap ok (append_assoc out (v ∷ []) values)

multi_words-IsWords : (values : List Text) → AllUnicode values → IsWords (multi_words values)
unfolding multi_words
multi_words-IsWords [] u = (omega arith, tt)
multi_words-IsWords (v ∷ values) u =
    IsWords-append (encode_utf16 v) (0 ∷ multi_words values) (encode_utf16-IsWords v u.0)
      (omega arith, multi_words-IsWords values u.1)

ends_with_nul-append :
    (ws : List ℕ) (v : ℕ) (rest : List ℕ)
    → ends_with_nul (ws ++ v ∷ rest) ≡ ends_with_nul (v ∷ rest)
unfolding ends_with_nul
ends_with_nul-append [] v rest = refl
ends_with_nul-append (w ∷ []) v rest = refl
ends_with_nul-append (w ∷ x ∷ ws) v rest = ends_with_nul-append (x ∷ ws) v rest

multi_words_nul :
    (values : List Text) → (ends_with_nul (multi_words values) ≡ true) × (multi_words values ≢ [])
unfolding multi_words
multi_words_nul [] = (unfold ends_with_nul in refl, λ e. cc)
multi_words_nul (v ∷ values) = (
  ends_with_nul-append (encode_utf16 v) 0 (multi_words values)
      ∙ go (multi_words values) (multi_words_nul values),
  append_ne_nil (encode_utf16 v) 0 (multi_words values),
)
  where
    go : (ws : List ℕ) → (ends_with_nul ws ≡ true) × (ws ≢ []) → ends_with_nul (0 ∷ ws) ≡ true
    go [] k = absurd (k.1 refl)
    go (w ∷ ws) k = unfold ends_with_nul in k.0

-- The entries that `write_multi_string` accepts are read back as they were, in their order.
pub bytes_to_wide_multi-multi_bytes :
    (name : Text) (values : List Text) (bytes : List ℕ)
    → AllUnicode values
    → multi_bytes name values ≡ ok bytes
    → bytes_to_wide_multi bytes ≡ ok values
unfolding multi_bytes
bytes_to_wide_multi-multi_bytes name values bytes u h =
    elim (Bool-cases (any is_unstorable values)) [
      | inl bad ↦ cc (rw bad at h)
      | inr fine ↦
          let ws = multi_words values in
          let same : wide_to_bytes ws ≡ bytes = cc (rw fine at h) in
          let back = words_of-wide_to_bytes ws (multi_words-IsWords values u) in
          let last : ends_with_nul (words_of (wide_to_bytes ws)) ≡ true =
            rw back (multi_words_nul values).0 in
          rw (← same) (
            multi_by_words (wide_to_bytes ws) (wide_ne_nil ws (multi_words_nul values).1)
              (length-wide_to_bytes ws) last
            ∙ rw back (multi_entries-multi_words values [] u fine))
    ]
