-- ===== src/Core/Expansion/Sound.antt =====
-- The loop of crates/servicemanager-core/src/expansion.rs follows the grammar of its text.
use ngsm.Prelude.{
  ℕ, zero, suc, ◌<◌, ◌≡◌, refl, sym, ap, ◌∙◌, subst, Option, none, some, [], ◌∷◌, ◌++◌, arith,
  length, span_not,
}
use mathlib.Core.List.{append_assoc, append-nil}
use ngsm.Text.{Text, utf16_units, contains_char}
use ngsm.Result.{Result, ok, err, ◌>>=◌}
use ngsm.Core.Error.{Error}
use ngsm.Core.Expansion.{
  Output, append_expanded, percent, is_percent, substitute, after_percent, round, expand_loop,
  expand,
}
use ngsm.Core.Expansion.Meaning.{
  NoPercent, NoNul, Expands, plain, unmatched, Fits, Good, GoodLoop, append-Fits, append-Good,
  extend, split_percent, split_opening,
}

module _ (lookup : Text → Option Text) (field : Text) where
  -- A split of `s`, with its two pieces named.
  record SplitOf (s a b : Text) : Type 0 where
    whole : s ≡ a ++ b
    before_it : NoPercent a
    opens : (c : ℕ) (t : Text) → b ≡ c ∷ t → c ≡ percent

  split_of : (s : Text) → SplitOf s (span_not is_percent s).0 (span_not is_percent s).1
  split_of s = record {
    whole = (split_percent lookup field s).0;
    before_it = (split_percent lookup field s).1;
    opens = λ c t e. split_opening lookup field s c t e;
  }

  closed-Good :
      (more : Text → Output → Option (Result Error Output)) (o o₁ : Output)
      (before name rest : Text)
      → GoodLoop lookup field more
      → Fits lookup field o₁
      → NoPercent before
      → NoPercent name
      → o₁.out ≡ o.out ++ before
      → Good lookup field
          (before ++ (percent ∷ (name ++ (percent ∷ rest))))
          o
          (after_percent lookup field more o₁ (name, percent ∷ rest))
  unfolding after_percent
  closed-Good more o o₁ before name rest g f nb nn e =
      go (append_expanded field o₁ (substitute lookup field name)) refl
    where
      go :
          (r : Result Error Output)
          → append_expanded field o₁ (substitute lookup field name) ≡ r
          → Good lookup field
              (before ++ (percent ∷ (name ++ (percent ∷ rest))))
              o
              (elim r [ ok o' ↦ more rest o' | err x ↦ some (err x) ])
      go (err x) q = tt
      go (ok o₂) q =
          let a = append-Fits lookup field o₁ o₂ (substitute lookup field name) q f in
          extend lookup field before name rest o o₁ o₂ (more rest o₂) nb nn e a.1 (g rest o₂ a.0)

  unmatched-Good :
      (more : Text → Output → Option (Result Error Output)) (o o₁ : Output) (before tail : Text)
      → Fits lookup field o₁
      → NoPercent before
      → NoPercent tail
      → o₁.out ≡ o.out ++ before
      → Good lookup field
          (before ++ (percent ∷ tail))
          o
          (after_percent lookup field more o₁ (tail, []))
  unfolding after_percent
  unmatched-Good more o o₁ before tail f nb nt e =
      go (append_expanded field o₁ (percent ∷ tail)) refl
    where
      last :
          (o₂ : Output) (r : Result Error Output)
          → append_expanded field o₂ [] ≡ r
          → Fits lookup field o₂
          → o₂.out ≡ o₁.out ++ percent ∷ tail
          → Good lookup field (before ++ (percent ∷ tail)) o (some r)
      last o₂ (err x) q f₂ e₂ = tt
      last o₂ (ok o₃) q f₂ e₂ =
          let a = append-Fits lookup field o₂ o₃ [] q f₂ in
          (
            a.0,
            before ++ (percent ∷ tail),
            a.1
                ∙ append-nil o₂.out
                ∙ e₂
                ∙ ap (λ t. t ++ percent ∷ tail) e
                ∙ append_assoc o.out before (percent ∷ tail),
            unmatched before tail nb nt refl refl,
          )

      go :
          (r : Result Error Output)
          → append_expanded field o₁ (percent ∷ tail) ≡ r
          → Good lookup field
              (before ++ (percent ∷ tail))
              o
              (some (r >>= λ o'. append_expanded field o' []))
      go (err x) q = tt
      go (ok o₂) q =
          let a = append-Fits lookup field o₁ o₂ (percent ∷ tail) q f in
          last o₂ (append_expanded field o₂ []) refl a.0 a.1

  after-Good :
      (more : Text → Output → Option (Result Error Output)) (o o₁ : Output)
      (before candidate a b : Text)
      → GoodLoop lookup field more
      → Fits lookup field o₁
      → NoPercent before
      → o₁.out ≡ o.out ++ before
      → SplitOf candidate a b
      → Good lookup field
          (before ++ (percent ∷ candidate))
          o
          (after_percent lookup field more o₁ (a, b))
  after-Good more o o₁ before candidate a [] g f nb e sp =
      let w : a ≡ candidate = sym (sp.whole ∙ append-nil a) in
      subst
        (λ t.
          Good lookup field (before ++ (percent ∷ t)) o
            (after_percent lookup field more o₁ (a, [])))
        w (unmatched-Good more o o₁ before a f nb sp.before_it e)
  after-Good more o o₁ before candidate a (c ∷ rest) g f nb e sp =
      let it : percent ≡ c = sym (sp.opens c rest refl) in
      let w : a ++ (percent ∷ rest) ≡ candidate = ap (λ d. a ++ (d ∷ rest)) it ∙ sym sp.whole in
      subst
        (λ t.
          Good lookup field (before ++ (percent ∷ t)) o
            (after_percent lookup field more o₁ (a, c ∷ rest)))
        w
        (subst
          (λ d.
            Good lookup field (before ++ (percent ∷ (a ++ (percent ∷ rest)))) o
              (after_percent lookup field more o₁ (a, d ∷ rest)))
          it (closed-Good more o o₁ before a rest g f nb sp.before_it e))

  round-Good :
      (more : Text → Output → Option (Result Error Output)) (o : Output) (s a b : Text)
      → GoodLoop lookup field more
      → Fits lookup field o
      → SplitOf s a b
      → Good lookup field s o (round lookup field more o (a, b))
  unfolding round
  round-Good more o s a [] g f sp =
      let w : s ≡ a = sp.whole ∙ append-nil a in
      append-Good lookup field s a o (append_expanded field o a) refl f
        (subst (λ t. Expands lookup field t a) (sym w) (plain sp.before_it refl))
  round-Good more o s a (c ∷ candidate) g f sp = go (append_expanded field o a) refl
    where
      w : a ++ (percent ∷ candidate) ≡ s
      w = ap (λ d. a ++ (d ∷ candidate)) (sym (sp.opens c candidate refl)) ∙ sym sp.whole

      go :
          (r : Result Error Output)
          → append_expanded field o a ≡ r
          → Good lookup field s o (elim r [
            | ok o' ↦ after_percent lookup field more o' (span_not is_percent candidate)
            | err x ↦ some (err x)
          ])
      go (err x) q = tt
      go (ok o₁) q =
          let k = append-Fits lookup field o o₁ a q f in
          subst
            (λ t.
              Good lookup field t o
                (after_percent lookup field more o₁ (span_not is_percent candidate)))
            w
            (after-Good more o o₁ a candidate (span_not is_percent candidate).0
              (span_not is_percent candidate).1 g k.0 sp.before_it k.1 (split_of candidate))

  loop_good : (fuel : ℕ) → GoodLoop lookup field (expand_loop lookup field fuel)
  unfolding expand_loop
  loop_good zero r o f = tt
  loop_good (suc fuel) r o f =
      round-Good (λ s o'. expand_loop lookup field fuel s o') o r (span_not is_percent r).0
        (span_not is_percent r).1 (loop_good fuel) f (split_of r)

  -- An expansion that succeeds follows the grammar, is shorter than the Windows limit of 32767
  -- UTF-16 units, and has no NUL in it.
  pub expand_sound :
      (s out : Text)
      → expand lookup field s ≡ some (ok out)
      → Expands lookup field s out × (utf16_units out < 32767) × NoNul lookup field out
  unfolding expand
  expand_sound s out h =
      go (expand_loop lookup field (suc (length s)) s start) refl
        (loop_good (suc (length s)) s start fits) h
    where
      start : Output
      start = record { out = []; units = 0 }

      fits : Fits lookup field start
      fits =
          unfold utf16_units contains_char in
          (record { counted = refl; below = omega arith; no_nul = refl })

      go :
          (r : Option (Result Error Output))
          → expand_loop lookup field (suc (length s)) s start ≡ r
          → Good lookup field s start r
          → (elim r [ none ↦ none | some q ↦ some (q >>= λ o. ok o.out) ]) ≡ some (ok out)
          → Expands lookup field s out × (utf16_units out < 32767) × NoNul lookup field out
      go none q g e = cc
      go (some (err x)) q g e = cc
      go (some (ok o')) q (f, x, e₁, ex) e =
          let same : o'.out ≡ out = cc e in
          subst (λ t. Expands lookup field s t × (utf16_units t < 32767) × NoNul lookup field t)
            same
            (subst (λ t. Expands lookup field s t) (sym e₁) ex, rw (← f.counted) f.below, f.no_nul)
