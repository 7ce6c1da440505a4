-- ===== src/Broker/Token.antt =====
-- The comparison of tokens of crates/servicemanager-broker/src/protocol.rs, on the bytes of the two strings.
pub mod Exact
use ngsm.Prelude.{
  ℕ, zero, suc, ◌+◌, ◌-◌, ◌*◌, ◌/◌, ◌%◌, ◌^◌, ◌≤◌, ◌<◌, min, max, String, ◌≡◌, refl, sym, ap, ◌∙◌,
  subst, ◌≢◌, ◌↔◌, ◌⊎◌, inl, inr, Bool, true, false, not, ◌&&◌, ◌||◌, Option, none, some, List, [],
  ◌∷◌, ◌++◌, map, reverse, arith, ltb, leb, ◌==◌, if◌then◌else◌, ==_iff, ==_refl, &&-left, &&-right,
  ||-left, ||-right, Bool-cases, Option-cases, length, length-append, get_elem?, take, drop,
  replicate, any, all, find, retain, span_not, is_some, is_none, get_or, is_some_and,
}

-- The lowest `bits` bits of `a ^ b` and of `a | b`.
unfoldable pub bit_xor : ℕ → ℕ → ℕ → ℕ
bit_xor zero a b = 0
bit_xor (suc bits) a b = (a % 2 + b % 2) % 2 + 2 * bit_xor bits (a / 2) (b / 2)

unfoldable pub bit_or : ℕ → ℕ → ℕ → ℕ
bit_or zero a b = 0
bit_or (suc bits) a b = max (a % 2) (b % 2) + 2 * bit_or bits (a / 2) (b / 2)

-- The loop over the pairs of bytes.
unfoldable pub diff_from : ℕ → List ℕ → List ℕ → ℕ
diff_from diff [] presented = diff
diff_from diff (a ∷ expected) [] = diff
diff_from diff (a ∷ expected) (b ∷ presented) =
    diff_from (bit_or 8 diff (bit_xor 8 a b)) expected presented

unfoldable pub token_matches : List ℕ → Option (List ℕ) → Bool
token_matches expected none = false
token_matches expected (some presented) =
    if not (length expected == length presented) then false else diff_from 0 expected presented == 0
