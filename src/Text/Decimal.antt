-- ===== src/Text/Decimal.antt =====
-- Printing of numbers, `to_string` and `{:#x}`.
use ngsm.Prelude.{ℕ, zero, suc, ◌+◌, ◌-◌, ◌/◌, ◌%◌, List, [], ◌∷◌, ltb, if◌then◌else◌}

-- The decimal digits of `n`, most significant first. `n + 1` rounds are more than enough, since a
-- division by ten lowers a number that is not 0.
unfoldable pub digits_from : ℕ → ℕ → List ℕ → List ℕ
digits_from zero n acc = acc
digits_from (suc f) n acc =
    let rest = digits_from f (n / 10) ((b'0' + n % 10) ∷ acc) in
    if ltb n 10 then (b'0' + n) ∷ acc else rest

unfoldable pub show : ℕ → List ℕ
unfolding digits_from
show n = digits_from (suc n) n []

-- Hexadecimal digits, as `{:#x}` prints them after its prefix.
abbrev hex_digit : ℕ → ℕ
hex_digit d = if ltb d 10 then b'0' + d else b'a' + (d - 10)

unfoldable pub hex_from : ℕ → ℕ → List ℕ → List ℕ
hex_from zero n acc = acc
hex_from (suc f) n acc =
    let rest = hex_from f (n / 16) (hex_digit (n % 16) ∷ acc) in
    if ltb n 16 then hex_digit n ∷ acc else rest

unfoldable pub show_hex : ℕ → List ℕ
unfolding hex_from
show_hex n = b'0' ∷ b'x' ∷ hex_from (suc n) n []
