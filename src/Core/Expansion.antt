-- ===== src/Core/Expansion.antt =====
-- crates/servicemanager-core/src/expansion.rs: the expansion of %NAME% in the strings that are marked
-- as expandable. `lookup` is the environment lookup that the caller passes in.
pub mod Meaning
pub mod Sound
pub mod Total
pub mod Config
use ngsm.Prelude.{
  ℕ, zero, suc, ◌+◌, ◌-◌, min, Bool, Option, none, some, [], ◌∷◌, ◌++◌, leb, ◌==◌, length, span_not,
  get_or,
}
use ngsm.Text.{Text, text, is_empty, contains_char, utf16_units}
use ngsm.Result.{Result, ok, err, ◌>>=◌, ◌>>◌, reject_if}
use ngsm.Core.Error.{Error, invalid_config}

-- `out` and `units` of the loop.
pub record Output : Type 0 where
  pub out : Text
  pub units : ℕ

abbrev pub usize_max : ℕ
usize_max = 18446744073709551615

abbrev pub units_limit : ℕ
units_limit = 32767

unfoldable pub append_expanded : Text → Output → Text → Result Error Output
append_expanded field o value = do
  reject_if (contains_char 0 value)
      (invalid_config (field ++ text " expands to a string containing NUL"))
  let units = min usize_max (o.units + utf16_units value)
  reject_if (leb units_limit units)
      (invalid_config (field ++ text " exceeds the Windows expanded-string limit"))
  ok (record { out = o.out ++ value; units = units })

abbrev pub percent : ℕ
percent = 37

abbrev pub is_percent : ℕ → Bool
is_percent c = c == percent

module _ (lookup : Text → Option Text) (field : Text) where
  -- An empty name is never looked up; an unknown variable keeps its percent signs.
  unfoldable pub substitute : Text → Text
  substitute [] = percent ∷ percent ∷ []
  substitute (c ∷ name) = get_or (lookup (c ∷ name)) (percent ∷ c ∷ name ++ percent ∷ [])

  -- What a round does with the text after its first percent sign: `more` goes on with the rest.
  unfoldable pub after_percent :
      (Text → Output → Option (Result Error Output))
      → Output
      → Text × Text
      → Option (Result Error Output)
  unfolding append_expanded substitute
  -- there is no second percent sign
  after_percent more o (tail, []) =
      some (do o' ← append_expanded field o (percent ∷ tail); append_expanded field o' [])
  after_percent more o (name, closing ∷ rest) = elim (append_expanded field o (substitute name)) [
    | ok o' ↦ more rest o'
    | err e ↦ some (err e)
  ]

  unfoldable pub round :
      (Text → Output → Option (Result Error Output))
      → Output
      → Text × Text
      → Option (Result Error Output)
  unfolding append_expanded after_percent
  -- there is no percent sign any more
  round more o (tail, []) = some (append_expanded field o tail)
  round more o (before, opening ∷ candidate) = elim (append_expanded field o before) [
    | ok o' ↦ after_percent more o' (span_not is_percent candidate)
    | err e ↦ some (err e)
  ]

  -- The loop over `rest`, with fuel for its rounds: `none` means that the fuel ran out.
  unfoldable pub expand_loop : ℕ → Text → Output → Option (Result Error Output)
  unfolding round
  expand_loop zero rest o = none
  expand_loop (suc fuel) rest o = round (λ r o'. expand_loop fuel r o') o (span_not is_percent rest)

  -- A text has fewer percent signs than characters, so its length is fuel enough.
  unfoldable pub expand : Text → Option (Result Error Text)
  unfolding expand_loop
  expand input = elim (expand_loop (suc (length input)) input (record { out = []; units = 0 })) [
    | none ↦ none
    | some r ↦ some (do o ← r; ok o.out)
  ]
