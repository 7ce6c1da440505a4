-- ===== src/Registry/Reading.antt =====
-- What reading one value gives, and that it changes nothing.
-- The type of a string value.
use ngsm.Prelude.{
  ℕ, ◌≡◌, refl, sym, ◌∙◌, inl, inr, Bool, true, false, not, ◌&&◌, Option, none, some, List, ◌++◌,
  ◌==◌, Bool-cases,
}
use ngsm.Text.{Text, text}
use ngsm.Result.{Result, ok, err, map_err, reject_if}
use ngsm.Action.{pure, ◌>>=◌, >>=-elim, >>=-after, from_result}
use ngsm.Core.Error.{Error, registry}
use ngsm.Registry.Bytes.{reg_sz, reg_expand_sz}
use ngsm.Registry.Decode.{bytes_to_wide_string}
use ngsm.Registry.Store.{
  RegistryApi, WinError, is_not_found, found_or_none, optional, query_value_raw, read_typed_string,
  read_string, opt_string,
}
use ngsm.Registry.Laws.{RegistryLaws}

abbrev pub is_string_type : ℕ → Bool
is_string_type ty = not (not (ty == reg_sz) && not (ty == reg_expand_sz))

pub map_err-ok {ℓ} :
    {A : Type ℓ} (f : WinError → Error) (r : Result WinError A) {a : A}
    → map_err f r ≡ ok a
    → r ≡ ok a
map_err-ok f (ok a) h = cc h
map_err-ok f (err e) h = cc

module _ (api : RegistryApi) (laws : RegistryLaws api) (k : api.Key) where
  open laws use {content}

  abbrev pub Unchanged : api.World → api.World → Type 0
  Unchanged w w' = (m : Text) → content w' k m ≡ content w k m

  abbrev pub IsRaw : Text → api.World → Result Error (ℕ × List ℕ) × api.World → Type 0
  IsRaw n w (ok (ty, bytes), w') = (content w k n ≡ some (ty, bytes)) × Unchanged w w'
  IsRaw n w (err e, w') = Unchanged w w'

  -- The value under `n` is a string, and `v` is what it decodes to.
  abbrev pub HasString : Text → api.World → Text → ℕ → Type 0
  HasString n w v ty =
      (bytes : List ℕ) × (content w k n ≡ some (ty, bytes))
      × (is_string_type ty ≡ true)
      × (bytes_to_wide_string bytes ≡ ok v)

  abbrev pub IsTyped : Text → api.World → Result Error (Text × ℕ) × api.World → Type 0
  IsTyped n w (ok (v, ty), w') = HasString n w v ty × Unchanged w w'
  IsTyped n w (err e, w') = Unchanged w w'

  abbrev pub IsOptional : Text → api.World → Result Error (Option Text) × api.World → Type 0
  IsOptional n w (ok (some v), w') = ((ty : ℕ) × HasString n w v ty) × Unchanged w w'
  IsOptional n w (ok none, w') = Unchanged w w'
  IsOptional n w (err e, w') = Unchanged w w'

  query_value_raw-IsRaw : (n : Text) (w : api.World) → IsRaw n w (query_value_raw api k n w)
  unfolding query_value_raw
  query_value_raw-IsRaw n w =
      >>=-elim (IsRaw n w) _ _ w
        (λ size sized.
          let w1 = (api.query_size k n w).1 in
          >>=-elim (IsRaw n w) _ _ w1
            (λ (ty, buffer, written) read. (
              sym (laws.size_quiet k n n w)
                  ∙ laws.value_answers k n size w1 ty buffer written (map_err-ok _ _ read),
              λ m. laws.value_quiet k n m size w1 ∙ laws.size_quiet k n m w,
            ))
            (λ e failed m. laws.value_quiet k n m size w1 ∙ laws.size_quiet k n m w))
        (λ e failed m. laws.size_quiet k n m w)

  IsTyped-of_raw :
      (n : Text) (w : api.World) (ty : ℕ) (bytes : List ℕ) (w' : api.World)
      → IsRaw n w (ok (ty, bytes), w')
      → IsTyped n w (
          (from_result (
                reject_if
                  (not (ty == reg_sz) && not (ty == reg_expand_sz))
                  (registry (text "value " ++ (n ++ text " is not REG_SZ"))))
              >>= λ _. from_result (bytes_to_wide_string bytes) >>= λ value. pure (value, ty))
            w')
  IsTyped-of_raw n w ty bytes w' raw =
      >>=-elim (IsTyped n w) _ _ w'
        (λ _ string.
          >>=-elim (IsTyped n w) _ _ w'
            (λ value decoded. (
              (
                bytes,
                raw.0,
                accepted (not (ty == reg_sz) && not (ty == reg_expand_sz)) string,
                decoded,
              ),
              raw.1,
            ))
            (λ e failed. raw.1))
        (λ e failed. raw.1)
    where
      accepted :
          (b : Bool)
          → reject_if b (registry (text "value " ++ (n ++ text " is not REG_SZ"))) ≡ ok tt
          → not b ≡ true
      accepted true h = cc
      accepted false h = refl

  read_typed_string-IsTyped : (n : Text) (w : api.World) → IsTyped n w (read_typed_string api k n w)
  unfolding read_typed_string
  read_typed_string-IsTyped n w =
      >>=-after (IsRaw n w) (IsTyped n w) _ _ w (query_value_raw-IsRaw n w)
        (λ (ty, bytes) w' raw. IsTyped-of_raw n w ty bytes w' raw) (λ e w' quiet. quiet)

  abbrev IsValue : Text → api.World → Result Error Text × api.World → Type 0
  IsValue n w (ok v, w') = ((ty : ℕ) × HasString n w v ty) × Unchanged w w'
  IsValue n w (err e, w') = Unchanged w w'

  read_string-IsValue : (n : Text) (w : api.World) → IsValue n w (read_string api k n w)
  unfolding read_string
  read_string-IsValue n w =
      >>=-after (IsTyped n w) (IsValue n w) _ _ w (read_typed_string-IsTyped n w)
        (λ (value, ty) w' typed. ((ty, typed.0), typed.1)) (λ e w' quiet. quiet)

  -- `opt_string` changes nothing, and a text that it gives is the value that is there.
  pub opt_string-IsOptional : (n : Text) (w : api.World) → IsOptional n w (opt_string api k n w)
  unfolding opt_string optional
  opt_string-IsOptional n w =
      go (read_string api k n w).0 (read_string api k n w).1 (read_string-IsValue n w)
    where
      go :
          (r : Result Error Text) (w' : api.World)
          → IsValue n w (r, w')
          → IsOptional n w (found_or_none r, w')
      go (ok v) w' value = value
      go (err e) w' quiet = elim (Bool-cases (is_not_found e)) [
        | inl missing ↦ rw missing quiet
        | inr other ↦ rw other quiet
      ]
