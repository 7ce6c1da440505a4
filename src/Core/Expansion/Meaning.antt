-- ===== src/Core/Expansion/Meaning.antt =====
-- What the expansion of crates/servicemanager-core/src/expansion.rs computes, against a grammar of the
-- text.
use ngsm.Prelude.{
  ℕ, ◌+◌, ◌<◌, min, ◌≡◌, refl, sym, ap, ◌∙◌, subst, inl, inr, false, Option, none, some, [], ◌∷◌,
  ◌++◌, arith, leb, ◌==◌, ==_iff, ||-left, ||-right, Bool-cases, any, span_not, Option-cases,
}
use mathlib.Core.List.{append_assoc}
use ngsm.Text.{Text, utf16_units, contains_char}
use ngsm.Text.Laws.{utf16_units-append}
use ngsm.Result.{Result, ok, err}
use ngsm.Core.Error.{Error}
use ngsm.Core.Expansion.{
  Output, append_expanded, percent, is_percent, substitute, usize_max, units_limit,
}

abbrev pub NoPercent : Text → Type 0
NoPercent s = any is_percent s ≡ false

module _ (lookup : Text → Option Text) (field : Text) where
  -- What a name between two percent signs is replaced by: the value of a variable that is found, and else itself
  -- with its two percent signs. An empty name names no variable.
  pub data Replaces : Text → Text → Type 0 where
    found : {c : ℕ} {name value : Text} → lookup (c ∷ name) ≡ some value → Replaces (c ∷ name) value
    unknown :
        {c : ℕ} {name : Text}
        → lookup (c ∷ name) ≡ none
        → Replaces (c ∷ name) (percent ∷ c ∷ name ++ percent ∷ [])
    unnamed : Replaces [] (percent ∷ percent ∷ [])

  substitute-Replaces : (name : Text) → Replaces name (substitute lookup field name)
  unfolding substitute
  substitute-Replaces [] = unnamed
  substitute-Replaces (c ∷ name) = elim (Option-cases (lookup (c ∷ name))) [
    | inl missing ↦ rw missing (unknown missing)
    | inr (value, there) ↦ rw there (found there)
  ]

  -- The text in one pass from the left: up to the next percent sign it stands for itself, what two
  -- percent signs enclose is replaced, and a percent sign with no partner stands for itself.
  pub data Expands : Text → Text → Type 0 where
    plain : {s out : Text} → NoPercent s → out ≡ s → Expands s out
    unmatched :
        {s out : Text} (before tail : Text)
        → NoPercent before
        → NoPercent tail
        → s ≡ before ++ (percent ∷ tail)
        → out ≡ s
        → Expands s out
    variable :
        {s out : Text} (before name rest value after : Text)
        → NoPercent before
        → NoPercent name
        → s ≡ before ++ (percent ∷ (name ++ (percent ∷ rest)))
        → Replaces name value
        → Expands rest after
        → out ≡ before ++ (value ++ after)
        → Expands s out

  abbrev pub NoNul : Text → Type 0
  NoNul s = contains_char 0 s ≡ false

  -- The counter is the length of the output, which is below the limit and has no NUL in it.
  pub record Fits (o : Output) : Type 0 where
    pub counted : o.units ≡ utf16_units o.out
    pub below : o.units < units_limit
    pub no_nul : NoNul o.out

  contains_char-append :
      (k : ℕ) (a b : Text)
      → contains_char k a ≡ false
      → contains_char k b ≡ false
      → contains_char k (a ++ b) ≡ false
  unfolding contains_char
  contains_char-append k [] b ha hb = hb
  contains_char-append k (c ∷ a) b ha hb =
      rw (||-left (c == k) (any (λ d. d == k) a) ha)
        (contains_char-append k a b (||-right (c == k) (any (λ d. d == k) a) ha) hb)

  pub append-Fits :
      (o o' : Output) (value : Text)
      → append_expanded field o value ≡ ok o'
      → Fits o
      → Fits o' × (o'.out ≡ o.out ++ value)
  unfolding append_expanded
  append-Fits o o' value h f = elim (Bool-cases (contains_char 0 value)) [
    | inl nul ↦ cc (rw nul at h)
    | inr clean ↦
        elim (Bool-cases (leb units_limit (min usize_max (o.units + utf16_units value)))) [
          | inl long ↦ cc (rw (clean, long) at h)
          | inr short ↦
              let e : ◌≡◌ {A = Result Error Output} (ok made) (ok o') = rw (clean, short) at h in
              let e' : made ≡ o' = injective e in
              let units : made.units < units_limit = ground arith in
              let whole : Fits made = record {
                counted = omega (arith, f.counted, utf16_units-append o.out value);
                below = units;
                no_nul = contains_char-append 0 o.out value f.no_nul clean;
              } in
              subst (λ t. Fits t × (t.out ≡ o.out ++ value)) e' (whole, refl)
        ]
  ]
    where
      made : Output
      made = record { out = o.out ++ value; units = min usize_max (o.units + utf16_units value) }

      injective : {x y : Output} → ◌≡◌ {A = Result Error Output} (ok x) (ok y) → x ≡ y
      injective h = cc

  -- What a run of the loop may give from `o` over the text `s`.
  abbrev pub Good : Text → Output → Option (Result Error Output) → Type 0
  Good s o none = Unit
  Good s o (some (err e)) = Unit
  Good s o (some (ok o')) = (Fits o') × (x : Text) × (o'.out ≡ o.out ++ x) × Expands s x

  pub append-Good :
      (s value : Text) (o : Output) (r : Result Error Output)
      → append_expanded field o value ≡ r
      → Fits o
      → Expands s value
      → Good s o (some r)
  append-Good s value o (err e) h f x = tt
  append-Good s value o (ok o') h f x = let a = append-Fits o o' value h f in (a.0, value, a.1, x)

  -- The rest of the loop, given as a function that is good on every text and output that fits.
  abbrev pub GoodLoop : (Text → Output → Option (Result Error Output)) → Type 0
  GoodLoop more = (r : Text) (o : Output) → Fits o → Good r o (more r o)

  pub extend :
      (before name rest : Text) (o o₁ o₂ : Output) (r : Option (Result Error Output))
      → NoPercent before
      → NoPercent name
      → o₁.out ≡ o.out ++ before
      → o₂.out ≡ o₁.out ++ substitute lookup field name
      → Good rest o₂ r
      → Good (before ++ (percent ∷ (name ++ (percent ∷ rest)))) o r
  extend before name rest o o₁ o₂ none nb nn e₁ e₂ g = tt
  extend before name rest o o₁ o₂ (some (err e)) nb nn e₁ e₂ g = tt
  extend before name rest o o₁ o₂ (some (ok o')) nb nn e₁ e₂ (f, x, e, ex) = (
    f,
    before ++ (substitute lookup field name ++ x),
    e
        ∙ ap (λ t. t ++ x) (e₂ ∙ ap (λ t. t ++ substitute lookup field name) e₁)
        ∙ append_assoc (o.out ++ before) (substitute lookup field name) x
        ∙ append_assoc o.out before (substitute lookup field name ++ x),
    variable before name rest (substitute lookup field name) x nb nn refl (substitute-Replaces name)
        ex refl,
  )

  -- The two pieces of a text before its first percent sign and from there on.
  pub split_percent :
      (s : Text)
      → (s ≡ (span_not is_percent s).0 ++ (span_not is_percent s).1)
        × NoPercent (span_not is_percent s).0
  split_percent [] = (refl, refl)
  split_percent (c ∷ s) = elim (Bool-cases (is_percent c)) [
    | inl yes_it ↦ rw yes_it (refl, refl)
    | inr no_it ↦ let ih = split_percent s in rw no_it (ap (λ t. c ∷ t) ih.0, rw no_it ih.1)
  ]

  pub split_opening :
      (s : Text) (c : ℕ) (t : Text) → (span_not is_percent s).1 ≡ c ∷ t → c ≡ percent
  split_opening [] c t h = cc
  split_opening (d ∷ s) c t h = elim (Bool-cases (is_percent d)) [
    | inl it ↦
        let e : d ∷ s ≡ c ∷ t = rw it at h in
        let same : d ≡ c = cc e in sym same ∙ (==_iff d percent).0 it
    | inr other ↦ split_opening s c t (rw other at h)
  ]
