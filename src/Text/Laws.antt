-- ===== src/Text/Laws.antt =====
-- Laws of the functions on text.
use ngsm.Prelude.{◌+◌, ◌≡◌, refl, ◌↔◌, true, [], ◌∷◌, ◌++◌, arith, ◌==◌, ==_iff, &&-left, &&-right}
use ngsm.Text.{Text, text_eq, eq_ignore_case, ascii_lower, utf16_units}

pub text_eq_refl : (a : Text) → text_eq a a ≡ true
unfolding text_eq
text_eq_refl [] = refl
text_eq_refl (x ∷ xs) = ground (arith, text_eq_refl xs)

pub eq_of_text_eq : (a b : Text) → text_eq a b ≡ true → a ≡ b
unfolding text_eq
eq_of_text_eq [] [] h = refl
eq_of_text_eq [] (y ∷ ys) h = cc
eq_of_text_eq (x ∷ xs) [] h = cc
eq_of_text_eq (x ∷ xs) (y ∷ ys) h =
    let e : x ≡ y = (==_iff x y).0 (&&-left (x == y) (text_eq xs ys) h) in
    let es : xs ≡ ys = eq_of_text_eq xs ys (&&-right (x == y) (text_eq xs ys) h) in cc (e, es)

pub eq_ignore_case_refl : (a : Text) → eq_ignore_case a a ≡ true
unfolding eq_ignore_case
eq_ignore_case_refl a = text_eq_refl (ascii_lower a)

pub eq_ignore_case_iff :
    (a b : Text) → (eq_ignore_case a b ≡ true) ↔ (ascii_lower a ≡ ascii_lower b)
eq_ignore_case_iff a b = (to, from)
  where
    to : eq_ignore_case a b ≡ true → ascii_lower a ≡ ascii_lower b
    to h = eq_of_text_eq (ascii_lower a) (ascii_lower b) (unfold eq_ignore_case in h)

    from : ascii_lower a ≡ ascii_lower b → eq_ignore_case a b ≡ true
    from e = unfold eq_ignore_case in (rw e (text_eq_refl (ascii_lower b)))

pub utf16_units-append : (a b : Text) → utf16_units (a ++ b) ≡ utf16_units a + utf16_units b
unfolding utf16_units
utf16_units-append [] b = omega arith
utf16_units-append (c ∷ a) b = omega (arith, utf16_units-append a b)
