-- ===== src/Core/Quote/RoundTrip.antt =====
-- The quoting of crates/servicemanager-core/src/validate.rs read back by the rules of Windows.
use ngsm.Prelude.{
  ℕ, zero, suc, ◌+◌, ◌*◌, ◌/◌, ◌%◌, ◌≡◌, refl, sym, ap, ◌∙◌, inl, inr, Bool, true, false, not, [],
  ◌∷◌, ◌++◌, arith, ◌==◌, ==_iff, ||-left, ||-right, Bool-cases, replicate, any,
}
use mathlib.Core.List.{append_assoc, append-nil}
use native.Mathlib.Nat.{add-zero}
use native.Mathlib.Numerals.{add-one}
use ngsm.Text.{Text, is_empty}
use ngsm.Core.Quote.{backslash, quote_mark, is_special, needs_quotes, quote_body, quote_windows_arg}
use ngsm.Core.Quote.Parsing.{parse_arg, prepend, Parsed, is_delimiter}

-- What follows the argument on the command line: nothing, or a space or a tab.
abbrev pub Ends : Text → Type 0
Ends [] = Unit
Ends (c ∷ s) = is_delimiter c ≡ true

replicate-snoc : (n : ℕ) (c : ℕ) (s : Text) → replicate (n + 1) c ++ s ≡ replicate n c ++ c ∷ s
replicate-snoc n c s = rw (add-one n) (go n)
  where
    go : (k : ℕ) → c ∷ (replicate k c ++ s) ≡ replicate k c ++ c ∷ s
    go zero = refl
    go (suc k) = ap (λ t. c ∷ t) (go k)

parse_backslashes :
    (inside : Bool) (k m : ℕ) (t : Text)
    → parse_arg inside k (replicate m backslash ++ t) ≡ parse_arg inside (k + m) t
unfolding parse_arg
parse_backslashes inside k zero t = rw (add-zero k) refl
parse_backslashes inside k (suc m) t =
    parse_backslashes inside (k + 1) m t ∙ ap (λ j. parse_arg inside j t) (omega arith)

parse_end :
    (n : ℕ) (rest : Text) → Ends rest → parse_arg false n rest ≡ (replicate n backslash, rest)
unfolding parse_arg
parse_end n [] h = refl
parse_end n (c ∷ s) h = ground arith

prepend_eq :
    (xs ys : Text) (p : Parsed) (rest : Text) → p ≡ (ys, rest) → prepend xs p ≡ (xs ++ ys, rest)
prepend_eq xs ys p rest e = rw e refl

module _ (rest : Text) where
  at_quote_even :
      (inside : Bool) (n : ℕ)
      → parse_arg inside (n * 2) (quote_mark ∷ rest)
        ≡ prepend (replicate n backslash) (parse_arg (not inside) 0 rest)
  unfolding parse_arg
  at_quote_even inside n =
      let e : ((n * 2) % 2 == 1) ≡ false = ground arith in
      let d : (n * 2) / 2 ≡ n = omega arith in rw (e, d) refl

  at_quote_odd :
      (inside : Bool) (n : ℕ)
      → parse_arg inside (n * 2 + 1) (quote_mark ∷ rest)
        ≡ prepend (replicate n backslash ++ quote_mark ∷ []) (parse_arg inside 0 rest)
  unfolding parse_arg
  at_quote_odd inside n =
      let e : ((n * 2 + 1) % 2 == 1) ≡ true = ground arith in
      let d : (n * 2 + 1) / 2 ≡ n = omega arith in rw (e, d) refl

  at_plain :
      (n c : ℕ)
      → (c == backslash) ≡ false
      → (c == quote_mark) ≡ false
      → parse_arg true n (c ∷ rest)
        ≡ prepend (replicate n backslash ++ c ∷ []) (parse_arg true 0 rest)
  unfolding parse_arg
  at_plain n c b q = ground arith

  at_bare :
      (n c : ℕ)
      → (c == backslash) ≡ false
      → is_special c ≡ false
      → parse_arg false n (c ∷ rest)
        ≡ prepend (replicate n backslash ++ c ∷ []) (parse_arg false 0 rest)
  unfolding parse_arg
  at_bare n c b q = ground arith

regroup :
    (n c : ℕ) (s : Text) → (replicate n backslash ++ c ∷ []) ++ s ≡ replicate n backslash ++ c ∷ s
regroup n c s = append_assoc (replicate n backslash) (c ∷ []) s

module _ (rest : Text) (ends : Ends rest) where
  body_read :
      (n : ℕ) (s : Text)
      → parse_arg true 0 (quote_body n s ++ quote_mark ∷ rest) ≡ (replicate n backslash ++ s, rest)
  unfolding quote_body
  body_read n [] =
      parse_backslashes true 0 (n * 2) (quote_mark ∷ rest)
      ∙ ap (λ k. parse_arg true k (quote_mark ∷ rest)) (omega arith)
      ∙ at_quote_even rest true n
      ∙ prepend_eq (replicate n backslash) [] _ rest (parse_end 0 rest ends)
  body_read n (c ∷ s) = elim (Bool-cases (c == backslash)) [
    | inl b ↦ rw b (
        body_read (n + 1) s
        ∙ ap (λ (t : Text). let p : Parsed = (t, rest) in p)
            (replicate-snoc n backslash s
              ∙ ap (λ d. replicate n backslash ++ d ∷ s) (sym ((==_iff c backslash).0 b))))
    | inr nb ↦ elim (Bool-cases (c == quote_mark)) [
      | inl q ↦
          rw (nb, q)
            (ap (parse_arg true 0) (
                append_assoc (replicate (n * 2 + 1) backslash) (quote_mark ∷ quote_body 0 s)
                  (quote_mark ∷ rest))
              ∙ parse_backslashes true 0 (n * 2 + 1)
                  (quote_mark ∷ quote_body 0 s ++ quote_mark ∷ rest)
              ∙ ap (λ k. parse_arg true k (quote_mark ∷ quote_body 0 s ++ quote_mark ∷ rest))
                  (omega arith)
              ∙ at_quote_odd (quote_body 0 s ++ quote_mark ∷ rest) true n
              ∙ prepend_eq (replicate n backslash ++ quote_mark ∷ []) s _ rest (body_read 0 s)
              ∙ ap (λ (t : Text). let p : Parsed = (t, rest) in p)
                  (regroup n quote_mark s
                    ∙ ap (λ d. replicate n backslash ++ d ∷ s) (sym ((==_iff c quote_mark).0 q))))
      | inr nq ↦
          rw (nb, nq)
            (ap (parse_arg true 0)
                (append_assoc (replicate n backslash) (c ∷ quote_body 0 s) (quote_mark ∷ rest))
              ∙ parse_backslashes true 0 n (c ∷ quote_body 0 s ++ quote_mark ∷ rest)
              ∙ ap (λ k. parse_arg true k (c ∷ quote_body 0 s ++ quote_mark ∷ rest)) (omega arith)
              ∙ at_plain (quote_body 0 s ++ quote_mark ∷ rest) n c nb nq
              ∙ prepend_eq (replicate n backslash ++ c ∷ []) s _ rest (body_read 0 s)
              ∙ ap (λ (t : Text). let p : Parsed = (t, rest) in p) (regroup n c s))
    ]
  ]

  bare_read :
      (n : ℕ) (s : Text)
      → any is_special s ≡ false
      → parse_arg false n (s ++ rest) ≡ (replicate n backslash ++ s, rest)
  bare_read n [] h =
      parse_end n rest ends
      ∙ ap (λ (t : Text). let p : Parsed = (t, rest) in p)
          (sym (append-nil (replicate n backslash)))
  bare_read n (c ∷ s) h =
      let plain = ||-left (is_special c) (any is_special s) h in
      let others = ||-right (is_special c) (any is_special s) h in
      elim (Bool-cases (c == backslash)) [
        | inl b ↦
            ap (λ d. parse_arg false n (d ∷ s ++ rest)) ((==_iff c backslash).0 b)
            ∙ parse_backslashes false n 1 (s ++ rest)
            ∙ bare_read (n + 1) s others
            ∙ ap (λ (t : Text). let p : Parsed = (t, rest) in p)
                (replicate-snoc n backslash s
                  ∙ ap (λ d. replicate n backslash ++ d ∷ s) (sym ((==_iff c backslash).0 b)))
        | inr nb ↦
            at_bare (s ++ rest) n c nb plain
            ∙ prepend_eq (replicate n backslash ++ c ∷ []) s _ rest (bare_read 0 s others)
            ∙ ap (λ (t : Text). let p : Parsed = (t, rest) in p) (regroup n c s)
      ]

-- Windows reads a quoted argument back as the original text, whatever it holds, and stops at the
-- end of it: what follows on the command line (nothing, or a space or tab and more) is left over.
pub parse_arg-quote :
    (arg rest : Text) → Ends rest → parse_arg false 0 (quote_windows_arg arg ++ rest) ≡ (arg, rest)
unfolding quote_windows_arg
parse_arg-quote arg rest ends = elim (Bool-cases (needs_quotes arg)) [
  | inl quoted ↦ rw quoted (
      ap (λ t. parse_arg false 0 (quote_mark ∷ t))
        (append_assoc (quote_body 0 arg) (quote_mark ∷ []) rest)
      ∙ at_quote_even (quote_body 0 arg ++ quote_mark ∷ rest) false 0
      ∙ prepend_eq [] arg _ rest (body_read rest ends 0 arg))
  | inr bare ↦ rw bare (
      bare_read rest ends 0 arg
        (||-right (is_empty arg) (any is_special arg) (unfold needs_quotes in bare)))
]
