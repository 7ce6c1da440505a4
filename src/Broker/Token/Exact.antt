-- ===== src/Broker/Token/Exact.antt =====
-- A token of crates/servicemanager-broker/src/protocol.rs is accepted exactly when it is the expected one.
use ngsm.Prelude.{
  ℕ, zero, suc, ◌/◌, ◌^◌, ◌<◌, ◌≡◌, refl, sym, ap, subst, ◌↔◌, inl, inr, true, Option, none, some,
  List, [], ◌∷◌, arith, ◌==◌, ==_iff, ==_refl, Bool-cases, length,
}
use ngsm.Registry.Bytes.{IsBytes}
use ngsm.Broker.Token.{bit_xor, bit_or, diff_from, token_matches}

bit_xor_zero : (bits a b : ℕ) → a < 2 ^ bits → b < 2 ^ bits → bit_xor bits a b ≡ 0 → a ≡ b
unfolding bit_xor
bit_xor_zero zero a b ha hb h = omega arith
bit_xor_zero (suc bits) a b ha hb h =
    let rest = bit_xor_zero bits (a / 2) (b / 2) (omega arith) (omega arith) (omega arith) in
    omega (arith, rest)

bit_xor_self : (bits a : ℕ) → bit_xor bits a a ≡ 0
unfolding bit_xor
bit_xor_self zero a = refl
bit_xor_self (suc bits) a = omega (arith, bit_xor_self bits (a / 2))

bit_xor_bound : (bits a b : ℕ) → bit_xor bits a b < 2 ^ bits
unfolding bit_xor
bit_xor_bound zero a b = omega arith
bit_xor_bound (suc bits) a b = omega (arith, bit_xor_bound bits (a / 2) (b / 2))

bit_or_bound : (bits a b : ℕ) → bit_or bits a b < 2 ^ bits
unfolding bit_or
bit_or_bound zero a b = omega arith
bit_or_bound (suc bits) a b = omega (arith, bit_or_bound bits (a / 2) (b / 2))

bit_or_zero : (bits a b : ℕ) → a < 2 ^ bits → b < 2 ^ bits → bit_or bits a b ≡ 0 → (a ≡ 0) × (b ≡ 0)
unfolding bit_or
bit_or_zero zero a b ha hb h = (omega arith, omega arith)
bit_or_zero (suc bits) a b ha hb h =
    let rest = bit_or_zero bits (a / 2) (b / 2) (omega arith) (omega arith) (omega arith) in
    (omega (arith, rest), omega (arith, rest))

bit_or_zeros : (bits : ℕ) → bit_or bits 0 0 ≡ 0
unfolding bit_or
bit_or_zeros zero = refl
bit_or_zeros (suc bits) = omega (arith, bit_or_zeros bits)

diff_from_zero :
    (diff : ℕ) (expected presented : List ℕ)
    → diff < 256
    → IsBytes expected
    → IsBytes presented
    → length expected ≡ length presented
    → diff_from diff expected presented ≡ 0
    → (diff ≡ 0) × (expected ≡ presented)
unfolding diff_from
diff_from_zero diff [] [] hd he hp same h = (h, refl)
diff_from_zero diff [] (b ∷ presented) hd he hp same h = cc
diff_from_zero diff (a ∷ expected) [] hd he hp same h = cc
diff_from_zero diff (a ∷ expected) (b ∷ presented) hd he hp same h =
    let rest =
      diff_from_zero (bit_or 8 diff (bit_xor 8 a b)) expected presented
        (bit_or_bound 8 diff (bit_xor 8 a b)) he.1 hp.1 (omega arith) h in
    let none_set = bit_or_zero 8 diff (bit_xor 8 a b) hd (bit_xor_bound 8 a b) rest.0 in
    let equal = bit_xor_zero 8 a b he.0 hp.0 none_set.1 in (none_set.0, rw (equal, rest.1) refl)

diff_from_same : (token : List ℕ) → diff_from 0 token token ≡ 0
unfolding diff_from
diff_from_same [] = refl
diff_from_same (a ∷ token) = rw (bit_xor_self 8 a, bit_or_zeros 8) (diff_from_same token)

token_matches_self : (token : List ℕ) → token_matches token (some token) ≡ true
unfolding token_matches
token_matches_self token = rw (==_refl (length token), diff_from_same token) refl

token_matches_sound :
    (expected presented : List ℕ)
    → IsBytes expected
    → IsBytes presented
    → token_matches expected (some presented) ≡ true
    → presented ≡ expected
unfolding token_matches
token_matches_sound expected presented he hp h =
    elim (Bool-cases (length expected == length presented)) [
      | inl same ↦
          let zero_diff = (==_iff _ _).0 (rw same at h) in
          sym
            (diff_from_zero 0 expected presented (omega arith) he hp ((==_iff _ _).0 same)
              zero_diff).1
      | inr other ↦ cc (rw other at h)
    ]

-- The comparison of the tokens is right although it does not stop at the first difference: for tokens of bytes, the answer
-- is yes exactly when the peer presents a token, and it is the expected one.
pub token_matches_iff :
    (expected : List ℕ) (presented : Option (List ℕ))
    → IsBytes expected
    → ((token : List ℕ) → presented ≡ some token → IsBytes token)
    → token_matches expected presented ≡ true ↔ presented ≡ some expected
unfolding token_matches
token_matches_iff expected none he hp = (λ h. cc, λ h. cc)
token_matches_iff expected (some token) he hp = (
  λ h. ap some (token_matches_sound expected token he (hp token refl) h),
  λ h. subst (λ p. token_matches expected p ≡ true) (sym h) (token_matches_self expected),
)
