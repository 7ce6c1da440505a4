-- ===== src/Core/ImagePath/Ownership.antt =====
-- Which image paths crates/servicemanager-core/src/model.rs takes for its own.
use ngsm.Prelude.{
  ℕ, ◌≡◌, refl, ap, ◌∙◌, inl, inr, Bool, true, false, ◌||◌, none, some, [], ◌∷◌, ◌++◌, ◌==◌,
  &&-left, &&-right, ||-left, ||-right, Bool-cases, any, all,
}
use ngsm.Text.{Text, text, is_whitespace, trim_start, is_empty, eq_ignore_case}
use ngsm.Core.Model.{ServiceDefinition, NativeServiceConfig}
use ngsm.Core.Validate.{is_separator}
use ngsm.Core.ImagePath.{
  before_quote, exe_of, basename, name_of, image_path_exe_name, is_runner_name, is_managed,
}

before_quote_lem :
    (exe rest : Text) → any (λ c. c == 34) exe ≡ false → before_quote (exe ++ 34 ∷ rest) ≡ some exe
unfolding before_quote
before_quote_lem [] rest h = refl
before_quote_lem (c ∷ exe) rest h =
    let plain = ||-left (c == 34) (any (λ c. c == 34) exe) h in
    let ih = before_quote_lem exe rest (||-right (c == 34) (any (λ c. c == 34) exe) h) in
    rw (plain, ih) refl

trim_start_blank :
    (blank s : Text) → all is_whitespace blank ≡ true → trim_start (blank ++ s) ≡ trim_start s
unfolding trim_start
trim_start_blank [] s h = refl
trim_start_blank (c ∷ blank) s h =
    rw (&&-left (is_whitespace c) (all is_whitespace blank) h)
      (trim_start_blank blank s (&&-right (is_whitespace c) (all is_whitespace blank) h))

exe_of_quoted :
    (exe rest : Text)
    → any (λ c. c == 34) exe ≡ false
    → exe_of (trim_start (34 ∷ (exe ++ (34 ∷ rest)))) ≡ some exe
unfolding exe_of trim_start is_whitespace
exe_of_quoted exe rest q = before_quote_lem exe rest q

quoted_exe_name :
    (blank exe rest : Text)
    → all is_whitespace blank ≡ true
    → any (λ c. c == 34) exe ≡ false
    → image_path_exe_name (blank ++ (34 ∷ (exe ++ (34 ∷ rest)))) ≡ name_of (some exe)
unfolding image_path_exe_name
quoted_exe_name blank exe rest b q =
    ap (λ t. name_of (exe_of t)) (trim_start_blank blank (34 ∷ (exe ++ (34 ∷ rest))) b)
    ∙ ap name_of (exe_of_quoted exe rest q)

-- A text splits into a directory part, which is empty or ends in a separator, and its base name,
-- which has no separator in it.
abbrev pub IsDirectory : Text → Type 0
IsDirectory [] = Unit
IsDirectory (c ∷ []) = is_separator c ≡ true
IsDirectory (c ∷ d ∷ s) = IsDirectory (d ∷ s)

basename_plain : (s : Text) → any is_separator (basename s) ≡ false
unfolding basename
basename_plain [] = refl
basename_plain (c ∷ s) = elim (Bool-cases (any is_separator (c ∷ s))) [
  | inl sep ↦ rw sep (basename_plain s)
  | inr plain ↦ rw plain plain
]

basename_of_plain : (s : Text) → any is_separator s ≡ false → basename s ≡ s
unfolding basename
basename_of_plain [] h = refl
basename_of_plain (c ∷ s) h = rw h refl

directory_separates :
    (c : ℕ) (s name : Text) → IsDirectory (c ∷ s) → any is_separator (c ∷ (s ++ name)) ≡ true
directory_separates c [] name h = rw h refl
directory_separates c (d ∷ s) name h =
    or_right (is_separator c) (any is_separator (d ∷ (s ++ name))) (directory_separates d s name h)
  where
    or_right : (p q : Bool) → q ≡ true → (p || q) ≡ true
    or_right true q e = refl
    or_right false q e = e

pub basename_lem :
    (directory name : Text)
    → IsDirectory directory
    → any is_separator name ≡ false
    → basename (directory ++ name) ≡ name
unfolding basename
basename_lem [] name d n = basename_of_plain name n
basename_lem (c ∷ []) name d n = rw (directory_separates c [] name d) (basename_of_plain name n)
basename_lem (c ∷ e ∷ s) name d n =
    rw (directory_separates c (e ∷ s) name d) (basename_lem (e ∷ s) name d n)

named :
    (exe name : Text) → basename exe ≡ name → is_empty name ≡ false → name_of (some exe) ≡ some name
unfolding name_of
named exe name e h = rw (e, h) refl

abbrev unmanaged : NativeServiceConfig → ServiceDefinition
unmanaged n = record { native = n; managed = none; runtime = none }

-- A service with no managed configuration and a quoted image path is NGSM's exactly if the base name
-- of the quoted executable is `ngsm.exe` or `nssm.exe`, in any letter case: neither blanks before
-- the quote, nor the directory, nor any argument after the closing quote has a say.
pub is_managed-quoted :
    (n : NativeServiceConfig) (blank directory name rest : Text)
    → all is_whitespace blank ≡ true
    → any (λ c. c == 34) (directory ++ name) ≡ false
    → IsDirectory directory
    → any is_separator name ≡ false
    → is_empty name ≡ false
    → n.image_path ≡ blank ++ (34 ∷ ((directory ++ name) ++ (34 ∷ rest)))
    → is_managed (unmanaged n)
      ≡ (eq_ignore_case name (text "ngsm.exe") || eq_ignore_case name (text "nssm.exe"))
unfolding is_managed
is_managed-quoted n blank directory name rest b q d s e p =
    ap (λ i. is_runner_name (image_path_exe_name i)) p
    ∙ ap is_runner_name (quoted_exe_name blank (directory ++ name) rest b q)
    ∙ ap is_runner_name (named (directory ++ name) name (basename_lem directory name d s) e)
    ∙ unfold is_runner_name in refl
