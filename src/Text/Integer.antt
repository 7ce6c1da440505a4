-- ===== src/Text/Integer.antt =====
-- Signed integers, with the printing and the parsing of `i32`.
use ngsm.Prelude.{
  ℕ, zero, suc, ◌+◌, ◌-◌, ◌*◌, ◌≤◌, ◌≡◌, refl, subst, inl, inr, Bool, ◌&&◌, Option, none, some,
  List, [], ◌∷◌, arith, leb, ◌==◌, if◌then◌else◌, Bool-cases,
}
use ngsm.Text.Decimal.{show}

-- The library's ℤ stands on another ℕ.
pub data ℤ : Type 0 where
  pos negsuc : ℕ → ℤ

-- `i32::to_string`
unfoldable pub show_int : ℤ → List ℕ
unfolding show
show_int (pos n) = show n
show_int (negsuc n) = b'-' ∷ show (n + 1)

abbrev pub InI32 : ℤ → Type 0
InI32 (pos n) = n ≤ 2147483647
InI32 (negsuc n) = n ≤ 2147483647

abbrev is_digit : ℕ → Bool
is_digit c = leb b'0' c && leb c b'9'

abbrev parse_digits : ℕ → List ℕ → Option ℕ
parse_digits acc [] = some acc
parse_digits acc (c ∷ s) =
    let rest = parse_digits (acc * 10 + (c - b'0')) s in if is_digit c then rest else none

-- A magnitude up to `limit`; a sign alone is no number.
unfoldable pub parse_magnitude : ℕ → List ℕ → Option ℕ
parse_magnitude limit [] = none
parse_magnitude limit (c ∷ s) = elim (parse_digits 0 (c ∷ s)) [
  | none ↦ none
  | some n ↦ if leb n limit then some n else none
]

abbrev pub negate : ℕ → ℤ
negate zero = pos zero
negate (suc n) = negsuc n

-- `str::parse::<i32>`
unfoldable pub parse_i32 : List ℕ → Option ℤ
unfolding parse_magnitude
parse_i32 [] = none
parse_i32 (c ∷ s) =
    if c == b'-'
    then elim (parse_magnitude 2147483648 s) [ none ↦ none | some n ↦ some (negate n) ]
    else if c == b'+'
    then elim (parse_magnitude 2147483647 s) [ none ↦ none | some n ↦ some (pos n) ]
    else elim (parse_magnitude 2147483647 (c ∷ s)) [ none ↦ none | some n ↦ some (pos n) ]

-- `str::parse::<u32>`
unfoldable pub parse_u32 : List ℕ → Option ℕ
unfolding parse_magnitude
parse_u32 [] = none
parse_u32 (c ∷ s) =
    if c == b'+' then parse_magnitude 4294967295 s else parse_magnitude 4294967295 (c ∷ s)

parse_magnitude_bound :
    (limit : ℕ) (s : List ℕ) (n : ℕ) → parse_magnitude limit s ≡ some n → n ≤ limit
unfolding parse_magnitude
parse_magnitude_bound limit [] n h = cc
parse_magnitude_bound limit (c ∷ s) n h = go (parse_digits 0 (c ∷ s)) h
  where
    go :
        (m : Option ℕ)
        → (elim m [ none ↦ none | some k ↦ if leb k limit then some k else none ]) ≡ some n
        → n ≤ limit
    go none q = cc
    go (some k) q = elim (Bool-cases (leb k limit)) [
      | inl small ↦ let e : k ≡ n = cc (rw small at q) in ground arith
      | inr large ↦ cc (rw large at q)
    ]

pub parse_u32_bound : (s : List ℕ) (n : ℕ) → parse_u32 s ≡ some n → n ≤ 4294967295
unfolding parse_u32
parse_u32_bound [] n h = cc
parse_u32_bound (c ∷ s) n h = elim (Bool-cases (c == b'+')) [
  | inl plus ↦ parse_magnitude_bound 4294967295 s n (rw plus at h)
  | inr bare ↦ parse_magnitude_bound 4294967295 (c ∷ s) n (rw bare at h)
]

negate-InI32 : (n : ℕ) → n ≤ 2147483648 → InI32 (negate n)
negate-InI32 zero h = omega arith
negate-InI32 (suc n) h = omega arith

pub parse_i32-InI32 : (s : List ℕ) (z : ℤ) → parse_i32 s ≡ some z → InI32 z
unfolding parse_i32
parse_i32-InI32 [] z h = cc
parse_i32-InI32 (c ∷ s) z h = elim (Bool-cases (c == b'-')) [
  | inl minus ↦
      lower (parse_magnitude 2147483648 s) (parse_magnitude_bound 2147483648 s) (rw minus at h)
  | inr other ↦ elim (Bool-cases (c == b'+')) [
    | inl plus ↦
        upper (parse_magnitude 2147483647 s) (parse_magnitude_bound 2147483647 s)
          (rw (other, plus) at h)
    | inr bare ↦
        upper (parse_magnitude 2147483647 (c ∷ s)) (parse_magnitude_bound 2147483647 (c ∷ s))
          (rw (other, bare) at h)
  ]
]
  where
    lower :
        (m : Option ℕ)
        → ((n : ℕ) → m ≡ some n → n ≤ 2147483648)
        → (elim m [ none ↦ none | some n ↦ some (negate n) ]) ≡ some z
        → InI32 z
    lower none b q = cc
    lower (some n) b q = let e : negate n ≡ z = cc q in subst InI32 e (negate-InI32 n (b n refl))

    upper :
        (m : Option ℕ)
        → ((n : ℕ) → m ≡ some n → n ≤ 2147483647)
        → (elim m [ none ↦ none | some n ↦ some (pos n) ]) ≡ some z
        → InI32 z
    upper none b q = cc
    upper (some n) b q = let e : pos n ≡ z = cc q in subst InI32 e (b n refl)
