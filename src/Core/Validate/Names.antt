-- ===== src/Core/Validate/Names.antt =====
-- What the name checks of crates/servicemanager-core/src/validate.rs accept.
use ngsm.Prelude.{ℕ, ◌≤◌, ◌≡◌, refl, ◌↔◌, inl, inr, false, [], ◌∷◌, arith, ltb, Bool-cases}
use ngsm.Text.{Text, is_empty, is_control, utf16_units}
use ngsm.Result.{ok}
use ngsm.Core.Validate.{is_separator, check_chars, validate_service_name, validate_hook_component}

-- A character that is allowed in a name.
abbrev pub IsNameChar : ℕ → Type 0
IsNameChar c = (is_separator c ≡ false) × (is_control c ≡ false)

abbrev pub AllNameChars : Text → Type 0
AllNameChars [] = Unit
AllNameChars (c ∷ s) = IsNameChar c × AllNameChars s

check_chars_sound : (a b s : Text) → check_chars a b s ≡ ok tt → AllNameChars s
unfolding check_chars
check_chars_sound a b [] h = tt
check_chars_sound a b (c ∷ s) h = elim (Bool-cases (is_separator c)) [
  | inl sep ↦ cc (rw sep at h)
  | inr plain ↦ elim (Bool-cases (is_control c)) [
    | inl control ↦ cc (rw (plain, control) at h)
    | inr printable ↦ ((plain, printable), check_chars_sound a b s (rw (plain, printable) at h))
  ]
]

check_chars_complete : (a b s : Text) → AllNameChars s → check_chars a b s ≡ ok tt
unfolding check_chars
check_chars_complete a b [] h = refl
check_chars_complete a b (c ∷ s) h = rw (h.0.0, h.0.1) (check_chars_complete a b s h.1)

-- What is accepted of a name with a limit on its UTF-16 length.
abbrev pub IsName : ℕ → Text → Type 0
IsName limit s = (is_empty s ≡ false) × (utf16_units s ≤ limit) × AllNameChars s

-- A service name is accepted exactly if it is not empty, takes at most 256 UTF-16 units, and has no
-- path separator and no control character in it.
pub validate_service_name_iff :
    (name : Text) → (validate_service_name name ≡ ok tt) ↔ IsName 256 name
unfolding validate_service_name
validate_service_name_iff name = (to, from)
  where
    to : validate_service_name name ≡ ok tt → IsName 256 name
    to h = elim (Bool-cases (is_empty name)) [
      | inl e ↦ cc (rw e at h)
      | inr ne ↦ elim (Bool-cases (ltb 256 (utf16_units name))) [
        | inl long ↦ cc (rw (ne, long) at h)
        | inr short ↦ (ne, ground arith, check_chars_sound _ _ name (rw (ne, short) at h))
      ]
    ]

    from : IsName 256 name → validate_service_name name ≡ ok tt
    from n =
        let short : ltb 256 (utf16_units name) ≡ false = ground arith in
        rw (n.0, short) (check_chars_complete _ _ name n.2)

-- The name of a hook's event or action is accepted exactly if it is not empty, takes at most 255
-- UTF-16 units, and has no path separator and no control character in it.
pub validate_hook_component_iff :
    (name kind : Text) → (validate_hook_component name kind ≡ ok tt) ↔ IsName 255 name
unfolding validate_hook_component
validate_hook_component_iff name kind = (to, from)
  where
    to : validate_hook_component name kind ≡ ok tt → IsName 255 name
    to h = elim (Bool-cases (is_empty name)) [
      | inl e ↦ cc (rw e at h)
      | inr ne ↦ elim (Bool-cases (ltb 255 (utf16_units name))) [
        | inl long ↦ cc (rw (ne, long) at h)
        | inr short ↦ (ne, ground arith, check_chars_sound _ _ name (rw (ne, short) at h))
      ]
    ]

    from : IsName 255 name → validate_hook_component name kind ≡ ok tt
    from n =
        let short : ltb 255 (utf16_units name) ≡ false = ground arith in
        rw (n.0, short) (check_chars_complete _ _ name n.2)
