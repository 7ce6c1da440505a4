-- ===== src/Core/ImagePath.antt =====
-- The ownership test of crates/servicemanager-core/src/model.rs: which executable an SCM image path
-- names.
pub mod Ownership
use ngsm.Prelude.{
  ◌-◌, Bool, true, false, not, ◌&&◌, ◌||◌, Option, none, some, [], ◌∷◌, map, reverse, ◌==◌,
  if◌then◌else◌, drop, any, is_some,
}
use ngsm.Text.{
  Text, text, is_empty, is_whitespace, is_ascii_alphabetic, trim_start, starts_with, ascii_lower,
  eq_ignore_case,
}
use ngsm.Core.Model.{ServiceDefinition}
use ngsm.Core.Validate.{is_separator}

-- `split_once('"')`, the part before.
unfoldable pub before_quote : Text → Option Text
before_quote [] = none
before_quote (c ∷ s) =
    let rest = before_quote s in
    if c == 34 then some [] else elim rest [ none ↦ none | some t ↦ some (c ∷ t) ]

-- Whether a prefix, held in reverse, ends in `.exe`.
abbrev ends_with_exe : Text → Bool
ends_with_exe reversed = starts_with (reverse (text ".exe")) (ascii_lower reversed)

-- The first boundary, a whitespace character or the end, at which the prefix ends in `.exe`: the
-- prefix and what follows it.
unfoldable pub find_exe_end : Text → Text → Option (Text × Text)
unfolding text
find_exe_end reversed [] = if ends_with_exe reversed then some (reverse reversed, []) else none
find_exe_end reversed (c ∷ s) =
    let more = find_exe_end (c ∷ reversed) s in
    if is_whitespace c && ends_with_exe reversed then some (reverse reversed, c ∷ s) else more

-- `replace('/', "\\").to_ascii_lowercase()`
unfoldable pub normalize : Text → Text
normalize s = ascii_lower (map (λ c. if c == 47 then 92 else c) s)

abbrev is_rooted : Text → Bool
is_rooted (letter ∷ colon ∷ separator ∷ s) =
    is_ascii_alphabetic letter && (colon == b':' && separator == 92)
is_rooted _ = false

abbrev plain_tail : Text → Bool
plain_tail tail = not (any is_whitespace tail)

-- The one prefix with spaces that an unquoted path may have.
unfoldable pub in_program_files : Text → Bool
in_program_files tail =
    if starts_with (text "program files\\") tail
    then plain_tail (drop 14 tail)
    else if starts_with (text "program files (x86)\\") tail
    then plain_tail (drop 20 tail)
    else false

unfoldable pub candidate_allowed : Text → Bool
unfolding in_program_files normalize
candidate_allowed candidate =
    if any is_whitespace candidate
    then is_rooted (normalize candidate) && in_program_files (drop 3 (normalize candidate))
    else true

abbrev starts_with_whitespace : Text → Bool
starts_with_whitespace [] = false
starts_with_whitespace (c ∷ s) = is_whitespace c

-- After the executable: nothing, or the runner's own arguments.
unfoldable pub remainder_allowed : Text → Bool
remainder_allowed remainder =
    is_empty remainder
    || (starts_with (text "run-service") remainder && starts_with_whitespace (drop 11 remainder))

unfoldable pub unquoted_exe : Option (Text × Text) → Option Text
unfolding candidate_allowed remainder_allowed
unquoted_exe none = none
unquoted_exe (some (candidate, rest)) =
    if candidate_allowed candidate && remainder_allowed (trim_start rest)
    then some candidate
    else none

unfoldable pub exe_of : Text → Option Text
unfolding before_quote unquoted_exe find_exe_end
exe_of [] = unquoted_exe (find_exe_end [] [])
exe_of (c ∷ s) = if c == 34 then before_quote s else unquoted_exe (find_exe_end [] (c ∷ s))

-- `rsplit(['\\', '/']).next()`: what stands after the last separator.
unfoldable pub basename : Text → Text
basename [] = []
basename (c ∷ s) = if any is_separator (c ∷ s) then basename s else c ∷ s

unfoldable pub name_of : Option Text → Option Text
unfolding basename
name_of none = none
name_of (some exe) = if is_empty (basename exe) then none else some (basename exe)

unfoldable pub image_path_exe_name : Text → Option Text
unfolding exe_of name_of
image_path_exe_name image_path = name_of (exe_of (trim_start image_path))

unfoldable pub is_runner_name : Option Text → Bool
is_runner_name none = false
is_runner_name (some exe) =
    eq_ignore_case exe (text "ngsm.exe") || eq_ignore_case exe (text "nssm.exe")

unfoldable pub is_managed : ServiceDefinition → Bool
unfolding image_path_exe_name is_runner_name
is_managed d = is_some d.managed || is_runner_name (image_path_exe_name d.native.image_path)

pub data ManagementKind : Type 0 where
  managed native : ManagementKind

unfoldable pub management_kind : ServiceDefinition → ManagementKind
unfolding is_managed
management_kind d = if is_managed d then managed else native
