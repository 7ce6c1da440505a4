-- ===== src/Core/Expansion/Total.antt =====
-- The loop of crates/servicemanager-core/src/expansion.rs ends.
use ngsm.Prelude.{
  ℕ, zero, suc, ◌≤◌, ◌<◌, ◌≡◌, refl, ◌≢◌, inl, inr, Option, none, some, [], ◌∷◌, arith, Bool-cases,
  length, span_not,
}
use ngsm.Text.{Text}
use ngsm.Result.{Result, ok, err, ◌>>=◌}
use ngsm.Core.Error.{Error}
use ngsm.Core.Expansion.{
  Output, append_expanded, is_percent, substitute, after_percent, round, expand_loop, expand,
}

length-span_not : (s : Text) → length (span_not is_percent s).1 ≤ length s
length-span_not [] = omega arith
length-span_not (c ∷ s) = elim (Bool-cases (is_percent c)) [
  | inl it ↦ rw it (omega arith)
  | inr other ↦ rw other (omega (arith, length-span_not s))
]

module _ (lookup : Text → Option Text) (field : Text) where
  -- `more` ends on every text that is shorter than `n`.
  abbrev EndsBelow : ℕ → (Text → Output → Option (Result Error Output)) → Type 0
  EndsBelow n more = (r : Text) (o : Output) → length r < n → more r o ≢ none

  after_percent_ends :
      (n : ℕ) (more : Text → Output → Option (Result Error Output)) (o : Output) (a b : Text)
      → EndsBelow n more
      → length b ≤ n
      → after_percent lookup field more o (a, b) ≢ none
  unfolding after_percent
  after_percent_ends n more o a [] g h = λ e. cc
  after_percent_ends n more o a (c ∷ rest) g h =
      go (append_expanded field o (substitute lookup field a))
    where
      go :
          (r : Result Error Output)
          → (elim r [ ok o' ↦ more rest o' | err x ↦ some (err x) ]) ≢ none
      go (ok o') = g rest o' (omega arith)
      go (err x) = λ e. cc

  round_ends :
      (n : ℕ) (more : Text → Output → Option (Result Error Output)) (o : Output) (a b : Text)
      → EndsBelow n more
      → length b ≤ n
      → round lookup field more o (a, b) ≢ none
  unfolding round
  round_ends n more o a [] g h = λ e. cc
  round_ends n more o a (c ∷ candidate) g h = go (append_expanded field o a)
    where
      go :
          (r : Result Error Output)
          → (elim r [
            | ok o' ↦ after_percent lookup field more o' (span_not is_percent candidate)
            | err x ↦ some (err x)
          ])
            ≢ none
      go (ok o') =
          after_percent_ends n more o' (span_not is_percent candidate).0
            (span_not is_percent candidate).1 g (omega (arith, length-span_not candidate))
      go (err x) = λ e. cc

  loop_ends : (fuel : ℕ) → EndsBelow fuel (expand_loop lookup field fuel)
  unfolding expand_loop
  loop_ends zero r o h = elim h [ ]
  loop_ends (suc fuel) r o h =
      round_ends fuel (λ s o'. expand_loop lookup field fuel s o') o (span_not is_percent r).0
        (span_not is_percent r).1 (loop_ends fuel) (omega (arith, length-span_not r))

  -- Every text is expanded or refused: the fuel that `expand` gives the loop never runs out.
  pub expand_total : (s : Text) → (r : Result Error Text) × (expand lookup field s ≡ some r)
  unfolding expand
  expand_total s =
      go (expand_loop lookup field (suc (length s)) s start)
        (loop_ends (suc (length s)) s start (omega arith))
    where
      start : Output
      start = record { out = []; units = 0 }

      go :
          (m : Option (Result Error Output))
          → m ≢ none
          → (r : Result Error Text) × ((elim m [
            | none ↦ none
            | some q ↦ some (q >>= λ o. ok o.out)
          ])
              ≡ some r)
      go none h = absurd (h refl)
      go (some q) h = ((q >>= λ o. ok o.out), refl)
