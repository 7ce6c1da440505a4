-- ===== src/Core/Quote.antt =====
-- `quote_windows_arg` of crates/servicemanager-core/src/validate.rs.
pub mod Parsing
pub mod RoundTrip
use ngsm.Prelude.{ℕ, ◌+◌, ◌*◌, Bool, ◌||◌, [], ◌∷◌, ◌++◌, ◌==◌, if◌then◌else◌, replicate, any}
use ngsm.Text.{Text, is_empty}

abbrev pub backslash : ℕ
backslash = 92

abbrev pub quote_mark : ℕ
quote_mark = 34

-- A character that makes quoting necessary.
abbrev pub is_special : ℕ → Bool
is_special c = c == 32 || (c == 9 || (c == 10 || (c == 11 || c == quote_mark)))

unfoldable pub needs_quotes : Text → Bool
needs_quotes arg = is_empty arg || any is_special arg

-- The loop over the characters of the argument and the doubling of the backslashes that end it, with
-- the number of backslashes that are pending.
unfoldable pub quote_body : ℕ → Text → Text
quote_body n [] = replicate (n * 2) backslash
quote_body n (c ∷ s) =
    let more = quote_body (n + 1) s in
    let after = quote_body 0 s in
    if c == backslash
    then more
    else if c == quote_mark
    then replicate (n * 2 + 1) backslash ++ (quote_mark ∷ after)
    else replicate n backslash ++ (c ∷ after)

unfoldable pub quote_windows_arg : Text → Text
unfolding needs_quotes quote_body
quote_windows_arg arg =
    if needs_quotes arg then quote_mark ∷ (quote_body 0 arg ++ quote_mark ∷ []) else arg
