-- ===== src/Registry/Bytes.antt =====
-- The bytes of registry values in crates/servicemanager-registry/src/imp.rs: little-endian words and the
-- buffers that the writing functions hand over. Types of values are numbers, as in the Windows headers.
use ngsm.Prelude.{
  ℕ, ◌+◌, ◌*◌, ◌/◌, ◌%◌, ◌^◌, ◌<◌, ◌≡◌, refl, Bool, ◌||◌, List, [], ◌∷◌, ◌++◌, arith, length, any,
}
use ngsm.Text.{Text, text, is_empty, contains_char}
use ngsm.Text.Utf16.{encode_utf16, IsWords}
use ngsm.Result.{Result, ok, reject_if, ◌>>◌}
use ngsm.Core.Error.{Error, registry}

abbrev pub reg_sz : ℕ
reg_sz = 1

abbrev pub reg_expand_sz : ℕ
reg_expand_sz = 2

abbrev pub reg_dword : ℕ
reg_dword = 4

abbrev pub reg_multi_sz : ℕ
reg_multi_sz = 7

abbrev pub reg_qword : ℕ
reg_qword = 11

-- `u16::to_le_bytes` of each word
unfoldable pub wide_to_bytes : List ℕ → List ℕ
wide_to_bytes [] = []
wide_to_bytes (w ∷ ws) = (w % 256) ∷ (w / 256 % 256) ∷ wide_to_bytes ws

-- `chunks_exact(2)` with `u16::from_le_bytes`: a last byte without its partner is left out.
unfoldable pub words_of : List ℕ → List ℕ
words_of [] = []
words_of (a ∷ []) = []
words_of (a ∷ b ∷ bytes) = (a + b * 256) ∷ words_of bytes

-- `u32::to_le_bytes`
unfoldable pub u32_bytes : ℕ → List ℕ
u32_bytes v = (v % 256) ∷ (v / 256 % 256) ∷ (v / 65536 % 256) ∷ (v / 16777216 % 256) ∷ []

-- `from_le_bytes`
unfoldable pub from_le : List ℕ → ℕ
from_le [] = 0
from_le (b ∷ bytes) = b + 256 * from_le bytes

-- The value that `write_string_typed` stores.
unfoldable pub string_bytes : Text → Text → Result Error (List ℕ)
string_bytes name value = do
  reject_if (contains_char 0 value) (
      registry (
        text "value '"
        ++ (name ++ text "' contains an embedded NUL and cannot be stored as REG_SZ")))
  ok (wide_to_bytes (encode_utf16 value ++ 0 ∷ []))

-- The loop over the entries, with the final word of the block.
unfoldable pub multi_words : List Text → List ℕ
multi_words [] = 0 ∷ []
multi_words (v ∷ values) = encode_utf16 v ++ 0 ∷ multi_words values

abbrev pub is_unstorable : Text → Bool
is_unstorable v = contains_char 0 v || is_empty v

-- The value that `write_multi_string` stores.
unfoldable pub multi_bytes : Text → List Text → Result Error (List ℕ)
multi_bytes name values = do
  reject_if (any is_unstorable values) (
      registry (
        text "value '"
        ++ (name
            ++ text "' has an empty or NUL-containing entry and cannot be stored as REG_MULTI_SZ")))
  ok (wide_to_bytes (multi_words values))

abbrev pub IsBytes : List ℕ → Type 0
IsBytes [] = Unit
IsBytes (b ∷ bytes) = (b < 256) × IsBytes bytes

pub words_of-wide_to_bytes : (ws : List ℕ) → IsWords ws → words_of (wide_to_bytes ws) ≡ ws
unfolding words_of wide_to_bytes
words_of-wide_to_bytes [] h = refl
words_of-wide_to_bytes (w ∷ ws) h =
    let e : w % 256 + w / 256 % 256 * 256 ≡ w = omega arith in
    rw (e, words_of-wide_to_bytes ws h.1) refl

pub length-wide_to_bytes : (ws : List ℕ) → length (wide_to_bytes ws) % 2 ≡ 0
unfolding wide_to_bytes
length-wide_to_bytes [] = refl
length-wide_to_bytes (w ∷ ws) = omega (arith, length-wide_to_bytes ws)

pub from_le-u32_bytes : (v : ℕ) → v < 2 ^ 32 → from_le (u32_bytes v) ≡ v
unfolding from_le u32_bytes
from_le-u32_bytes v h = omega arith

-- Four bytes make a number of 32 bits, and that number has these bytes.
pub from_le_bounds :
    (bytes : List ℕ)
    → IsBytes bytes
    → length bytes ≡ 4
    → (from_le bytes < 2 ^ 32) × (u32_bytes (from_le bytes) ≡ bytes)
unfolding from_le u32_bytes
from_le_bounds [] h l = absurd (omega arith)
from_le_bounds (a ∷ []) h l = absurd (omega arith)
from_le_bounds (a ∷ b ∷ []) h l = absurd (omega arith)
from_le_bounds (a ∷ b ∷ c ∷ []) h l = absurd (omega arith)
from_le_bounds (a ∷ b ∷ c ∷ d ∷ []) h l = (omega arith, ground arith)
from_le_bounds (a ∷ b ∷ c ∷ d ∷ e ∷ rest) h l = absurd (omega arith)
