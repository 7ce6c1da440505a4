-- ===== src/Registry/Decode.antt =====
-- The strict decoders of crates/servicemanager-registry/src/imp.rs.
pub mod RoundTrip
pub mod Numbers
use ngsm.Prelude.{
  ℕ, zero, suc, ◌+◌, ◌-◌, ◌*◌, ◌/◌, ◌%◌, ◌≤◌, ◌<◌, min, max, String, ◌≡◌, refl, sym, ap, ◌∙◌, subst,
  ◌≢◌, ◌↔◌, ◌⊎◌, inl, inr, Bool, true, false, not, ◌&&◌, ◌||◌, Option, none, some, List, [], ◌∷◌,
  ◌++◌, map, reverse, arith, ltb, leb, ◌==◌, if◌then◌else◌, ==_iff, ==_refl, &&-left, &&-right,
  ||-left, ||-right, Bool-cases, Option-cases, length, length-append, get_elem?, take, drop,
  replicate, any, all, find, retain, span_not, is_some, is_none, get_or, is_some_and,
}
use ngsm.Text.{Text, text, is_empty, contains_char}
use ngsm.Text.Decimal.{show}
use ngsm.Text.Utf16.{from_utf16}
use ngsm.Result.{Result, ok, err, reject_if, ◌>>=◌, ◌>>◌}
use ngsm.Core.Error.{Error, registry}
use ngsm.Registry.Bytes.{words_of, from_le, reg_dword, reg_qword}

-- `String::from_utf16`, with its error under the caller's words. The standard library has one message.
unfoldable pub utf16_text : Text → List ℕ → Result Error Text
utf16_text start words = elim (from_utf16 words) [
  | none ↦ err (registry (start ++ text "invalid utf-16: lone surrogate found"))
  | some s ↦ ok s
]

abbrev pub is_nul : ℕ → Bool
is_nul w = w == 0

-- `match words.iter().position(|&c| c == 0)`, on what stands before the NUL and what begins with it
unfoldable pub string_at_nul : List ℕ → List ℕ → Result Error Text
unfolding utf16_text
string_at_nul before [] = utf16_text (text "REG_SZ value is not valid UTF-16: ") before
string_at_nul before (terminator ∷ after) = do
  reject_if (any (λ w. not (is_nul w)) after)
      (registry (text "REG_SZ value has non-zero data after its NUL terminator — corrupt"))
  utf16_text (text "REG_SZ value is not valid UTF-16: ") before

unfoldable pub string_of_words : List ℕ → Result Error Text
unfolding string_at_nul
string_of_words words = let (before, rest) = span_not is_nul words in string_at_nul before rest

unfoldable pub bytes_to_wide_string : List ℕ → Result Error Text
unfolding string_of_words
bytes_to_wide_string [] = ok []
bytes_to_wide_string (b ∷ bytes) = do
  reject_if (not (length (b ∷ bytes) % 2 == 0)) (
      registry (
        text "REG_SZ value has an odd byte length ("
        ++ (show (length (b ∷ bytes)) ++ text ") — not valid UTF-16")))
  string_of_words (words_of (b ∷ bytes))

-- `words.last() == Some(&0)`
unfoldable pub ends_with_nul : List ℕ → Bool
ends_with_nul [] = false
ends_with_nul (w ∷ []) = is_nul w
ends_with_nul (w ∷ v ∷ ws) = ends_with_nul (v ∷ ws)

-- The loop over the words. `current` is `words[start..i]`, and is empty exactly if `i == start`.
unfoldable pub multi_entries : List ℕ → List ℕ → List Text → Result Error (List Text)
unfolding utf16_text
multi_entries [] current out =
    err (registry (text "REG_MULTI_SZ value is missing its block terminator"))
multi_entries (w ∷ ws) current out =
    let grown = multi_entries ws (current ++ w ∷ []) out in
    let block_end = (do
      reject_if (any (λ v. not (is_nul v)) ws)
          (registry (text "REG_MULTI_SZ value has data after its block terminator"))
      ok out) in
    let pushed = (do
      entry ← utf16_text (text "REG_MULTI_SZ entry is not valid UTF-16: ") current
      multi_entries ws [] (out ++ entry ∷ [])) in
    if is_nul w then (if is_empty current then block_end else pushed) else grown

unfoldable pub bytes_to_wide_multi : List ℕ → Result Error (List Text)
unfolding multi_entries ends_with_nul
bytes_to_wide_multi [] = ok []
bytes_to_wide_multi (b ∷ bytes) = do
  reject_if (not (length (b ∷ bytes) % 2 == 0)) (
      registry (
        text "REG_MULTI_SZ value has an odd byte length ("
        ++ (show (length (b ∷ bytes)) ++ text ") — not valid UTF-16")))
  reject_if (not (ends_with_nul (words_of (b ∷ bytes))))
      (registry (text "REG_MULTI_SZ value is not NUL-terminated — corrupt or truncated"))
  multi_entries (words_of (b ∷ bytes)) [] []

-- A number of the registry. A QWORD must fit 32 bits.
unfoldable pub decode_u32 : Text → ℕ → List ℕ → Result Error ℕ
decode_u32 name ty bytes =
    if ty == reg_dword
    then (do
      reject_if (not (length bytes == 4)) (
          registry (
            text "value "
            ++ (name
                ++ (text " is REG_DWORD but holds "
                    ++ (show (length bytes) ++ text " bytes (expected 4)")))))
      ok (from_le bytes))
    else if ty == reg_qword
    then (do
      reject_if (not (length bytes == 8)) (
          registry (
            text "value "
            ++ (name
                ++ (text " is REG_QWORD but holds "
                    ++ (show (length bytes) ++ text " bytes (expected 8)")))))
      reject_if (ltb 0xffff_ffff (from_le bytes)) (
          registry (
            text "value "
            ++ (name
                ++ (text " ("
                    ++ (show (from_le bytes) ++ text ") exceeds the 32-bit range expected here")))))
      ok (from_le bytes))
    else err (registry (text "value " ++ (name ++ text " is not numeric")))

-- The name of a value or subkey that NGSM owns.
unfoldable pub decode_registry_name : List ℕ → Result Error Text
decode_registry_name words = elim (from_utf16 words) [
  | none ↦ err (registry (text "owned registry name contains invalid UTF-16"))
  | some name ↦ do
    reject_if (contains_char 0 name)
        (registry (text "owned registry name contains an embedded NUL"))
    ok name
]
