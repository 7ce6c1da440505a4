-- ===== src/Text/Utf16.antt =====
-- UTF-16 as `str::encode_utf16` and `String::from_utf16` of the standard library give it.
use ngsm.Prelude.{
  ℕ, ◌+◌, ◌-◌, ◌*◌, ◌/◌, ◌%◌, ◌<◌, ◌≡◌, refl, ap, ◌∙◌, inl, inr, Bool, true, false, not, ◌&&◌, ◌||◌,
  Option, none, some, List, [], ◌∷◌, ◌++◌, arith, ltb, leb, ◌==◌, if◌then◌else◌, ||-left, ||-right,
  Bool-cases, any,
}
use ngsm.Text.{Text, contains_char}

-- A Unicode scalar value, which is what a `char` holds.
abbrev pub is_scalar : ℕ → Bool
is_scalar c = ltb c 0xd800 || (leb 0xe000 c && ltb c 0x110000)

abbrev pub IsUnicode : Text → Type 0
IsUnicode [] = Unit
IsUnicode (c ∷ s) = (is_scalar c ≡ true) × IsUnicode s

-- 16-bit words
abbrev pub IsWords : List ℕ → Type 0
IsWords [] = Unit
IsWords (w ∷ ws) = (w < 0x10000) × IsWords ws

unfoldable pub encode_char : ℕ → List ℕ
encode_char c =
    if ltb c 0x10000
    then c ∷ []
    else (0xd800 + (c - 0x10000) / 0x400) ∷ (0xdc00 + (c - 0x10000) % 0x400) ∷ []

unfoldable pub encode_utf16 : Text → List ℕ
unfolding encode_char
encode_utf16 [] = []
encode_utf16 (c ∷ s) = encode_char c ++ encode_utf16 s

abbrev is_surrogate : ℕ → Bool
is_surrogate u = leb 0xd800 u && leb u 0xdfff

abbrev is_pair : ℕ → ℕ → Bool
is_pair u v = leb u 0xdbff && (leb 0xdc00 v && leb v 0xdfff)

abbrev add_char : ℕ → Option Text → Option Text
add_char c none = none
add_char c (some s) = some (c ∷ s)

-- `none` is a surrogate without its partner.
unfoldable pub from_utf16 : List ℕ → Option Text
from_utf16 [] = some []
from_utf16 (u ∷ []) = if is_surrogate u then none else some (u ∷ [])
from_utf16 (u ∷ v ∷ ws) =
    let plain = add_char u (from_utf16 (v ∷ ws)) in
    let pair = add_char (0x10000 + (u - 0xd800) * 0x400 + (v - 0xdc00)) (from_utf16 ws) in
    if not (is_surrogate u) then plain else if is_pair u v then pair else none

from_utf16_plain :
    (u : ℕ) (ws : List ℕ)
    → is_surrogate u ≡ false
    → from_utf16 (u ∷ ws) ≡ add_char u (from_utf16 ws)
unfolding from_utf16
from_utf16_plain u [] h = rw h refl
from_utf16_plain u (v ∷ ws) h = rw h refl

from_utf16_pair :
    (u v : ℕ) (ws : List ℕ)
    → is_surrogate u ≡ true
    → is_pair u v ≡ true
    → from_utf16 (u ∷ v ∷ ws)
      ≡ add_char (0x10000 + (u - 0xd800) * 0x400 + (v - 0xdc00)) (from_utf16 ws)
unfolding from_utf16
from_utf16_pair u v ws s p = rw (s, p) refl

from_utf16-encode_char :
    (c : ℕ) (ws : List ℕ)
    → is_scalar c ≡ true
    → from_utf16 (encode_char c ++ ws) ≡ add_char c (from_utf16 ws)
unfolding encode_char
from_utf16-encode_char c ws h = elim (Bool-cases (ltb c 0x10000)) [
  | inl small ↦ rw small (from_utf16_plain c ws (ground arith))
  | inr large ↦
      let high = 0xd800 + (c - 0x10000) / 0x400 in
      let low = 0xdc00 + (c - 0x10000) % 0x400 in
      let back : 0x10000 + (high - 0xd800) * 0x400 + (low - 0xdc00) ≡ c = ground arith in
      rw large (
        from_utf16_pair high low ws (ground arith) (ground arith)
        ∙ ap (λ k. add_char k (from_utf16 ws)) back)
]

-- Decoding undoes encoding.
pub from_utf16-encode_utf16 : (s : Text) → IsUnicode s → from_utf16 (encode_utf16 s) ≡ some s
unfolding encode_utf16
from_utf16-encode_utf16 [] h = unfold from_utf16 in refl
from_utf16-encode_utf16 (c ∷ s) h =
    from_utf16-encode_char c (encode_utf16 s) h.0 ∙ rw (from_utf16-encode_utf16 s h.1) refl

pub encode_utf16-IsWords : (s : Text) → IsUnicode s → IsWords (encode_utf16 s)
unfolding encode_utf16 encode_char
encode_utf16-IsWords [] h = tt
encode_utf16-IsWords (c ∷ s) h = elim (Bool-cases (ltb c 0x10000)) [
  | inl small ↦ rw small (ground arith, encode_utf16-IsWords s h.1)
  | inr large ↦ rw large (ground arith, (ground arith, encode_utf16-IsWords s h.1))
]

-- The words of a text without a NUL hold none.
pub encode_utf16_nul :
    (s : Text) → contains_char 0 s ≡ false → any (λ w. w == 0) (encode_utf16 s) ≡ false
unfolding encode_utf16 encode_char contains_char
encode_utf16_nul [] h = refl
encode_utf16_nul (c ∷ s) h =
    let rest = encode_utf16_nul s (||-right (c == 0) (contains_char 0 s) h) in
    let plain = ||-left (c == 0) (contains_char 0 s) h in
    elim (Bool-cases (ltb c 0x10000)) [
      | inl small ↦ rw (small, plain) rest
      | inr large ↦ rw large (rw rest (ground arith))
    ]
