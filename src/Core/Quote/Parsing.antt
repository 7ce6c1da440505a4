-- ===== src/Core/Quote/Parsing.antt =====
-- How Windows reads one argument of a command line back (the documented rules of
-- CommandLineToArgvW): the specification that `quote_windows_arg` of
-- crates/servicemanager-core/src/validate.rs is held to.
use ngsm.Prelude.{
  ℕ, ◌+◌, ◌/◌, ◌%◌, Bool, not, ◌&&◌, ◌||◌, [], ◌∷◌, ◌++◌, ◌==◌, if◌then◌else◌, replicate,
}
use ngsm.Text.{Text}
use ngsm.Core.Quote.{backslash, quote_mark}

-- A space or a tab outside quotes ends the argument.
abbrev pub is_delimiter : ℕ → Bool
is_delimiter c = c == 32 || c == 9

-- The argument that is read, and the rest of the command line.
abbrev pub Parsed : Type 0
Parsed = Text × Text

abbrev pub prepend : Text → Parsed → Parsed
prepend xs p = (xs ++ p.0, p.1)

-- `inside` tells whether a quote is open, `n` counts the backslashes just read. Before a quote mark
-- two backslashes stand for one, and an odd one makes the mark a character; elsewhere backslashes
-- stand for themselves.
unfoldable pub parse_arg : Bool → ℕ → Text → Parsed
parse_arg inside n [] = (replicate n backslash, [])
parse_arg inside n (c ∷ s) =
    let more = parse_arg inside (n + 1) s in
    let literal = parse_arg inside 0 s in
    let toggled = parse_arg (not inside) 0 s in
    if c == backslash
    then more
    else if c == quote_mark
    then (if n % 2 == 1
        then prepend (replicate (n / 2) backslash ++ quote_mark ∷ []) literal
        else prepend (replicate (n / 2) backslash) toggled)
    else if is_delimiter c && not inside
    then (replicate n backslash, c ∷ s)
    else prepend (replicate n backslash ++ c ∷ []) literal
