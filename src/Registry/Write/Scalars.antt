-- ===== src/Registry/Write/Scalars.antt =====
-- Phase 1 of a write keeps the marker, and has it among the names that are written.
use ngsm.Prelude.{ℕ, ◌≡◌, refl, Bool, true, false, ◌||◌, Option, none, some, List, [], ◌∷◌, any}
use ngsm.Text.{Text, text_eq}
use ngsm.Result.{Result, ok, err}
use ngsm.Action.{Act, pure, ◌>>=◌, >>=-after, Keeps, Keeps-bind}
use ngsm.Core.Error.{Error}
use ngsm.Core.Model.{ManagedApplicationConfig}
use ngsm.Registry.NssmKeys
use ngsm.Registry.Bytes.{reg_dword, reg_multi_sz, u32_bytes, string_bytes, multi_bytes}
use ngsm.Registry.Names.Marker.{differs_from_marker}
use ngsm.Registry.Store.{RegistryApi, write_string_typed, write_multi_string, write_u32}
use ngsm.Registry.Laws.{RegistryLaws}
use ngsm.Registry.SingleValue.Marked.{Marked, Kept, Marked-Kept, set_bytes-Keeps, from_result-Keeps}
use ngsm.Registry.Write.{
  Written, flag, registry_is_expandable, string_kind, write_config_string, put, put_string, put_u32,
  put_flag, put_multi,
}

pub ||-true : (b : Bool) → (b || true) ≡ true
||-true true = refl
||-true false = refl

-- The marker is among the names.
abbrev pub HasMarker : Written → Type 0
HasMarker written = any (text_eq NssmKeys.application) written ≡ true

module _ (api : RegistryApi) (laws : RegistryLaws api) (k : api.Key) where
  abbrev pub IsGood : Result Error Written × api.World → Type 0
  IsGood (ok written, w) = Marked api laws k w × HasMarker written
  IsGood (err e, w) = Marked api laws k w

  abbrev pub Step : (Written → Act api.World Error Written) → Type 0
  Step f =
      (written : Written) (w : api.World)
      → Marked api laws k w
      → HasMarker written
      → IsGood (f written w)

  pub Step-bind :
      (f g : Written → Act api.World Error Written)
      → Step f
      → Step g
      → Step (λ written. f written >>= g)
  Step-bind f g sf sg written w m h =
      >>=-after IsGood IsGood (f written) g w (sf written w m h)
        (λ next t (m', h'). sg next t m' h') (λ e t m'. m')

  pub Step-pure : Step (λ written. pure written)
  Step-pure written w m h = (m, h)

  -- An action that leaves the marker alone, on whatever value it has.
  abbrev pub Calm : Act api.World Error (Unit {0}) → Type 0
  Calm write = (marker : Option (ℕ × List ℕ)) → Keeps (Kept api laws k marker) write

  pub Calm-Marked :
      (write : Act api.World Error (Unit {0})) (w : api.World)
      → Calm write
      → Marked api laws k w
      → Marked api laws k (write w).1
  Calm-Marked write w calm m =
      Marked-Kept api laws k w (write w).1 m
        ((calm (laws.content w k NssmKeys.application)).at w (unfold Kept in refl))

  pub put-Step :
      (name : Text) (write : Act api.World Error (Unit {0}))
      → Calm write
      → Step (put api name write)
  unfolding put
  put-Step name write calm written w m h =
      >>=-after (λ (out : Result Error (Unit {0}) × api.World). Marked api laws k out.1) IsGood
        write _ w (Calm-Marked write w calm m)
        (λ _ t m'. (m', rw h (||-true (text_eq NssmKeys.application name)))) (λ e t m'. m')

  pub write_u32-Calm :
      (name : Text) (v : ℕ) → differs_from_marker name ≡ true → Calm (write_u32 api k name v)
  unfolding write_u32
  write_u32-Calm name v d marker = set_bytes-Keeps api laws k marker name reg_dword (u32_bytes v) d

  pub write_config_string-Calm :
      (cfg : ManagedApplicationConfig) (name v : Text)
      → differs_from_marker name ≡ true
      → Calm (write_config_string api k cfg name v)
  unfolding write_config_string write_string_typed
  write_config_string-Calm cfg name v d marker =
      Keeps-bind _ _ (from_result-Keeps api laws k marker (registry_is_expandable api cfg name))
        (λ expandable.
          Keeps-bind _ _ (from_result-Keeps api laws k marker (string_bytes name v))
            (λ bytes. set_bytes-Keeps api laws k marker name (string_kind api expandable) bytes d))

  pub put_u32-Step :
      (name : Text) (v : Option ℕ) → differs_from_marker name ≡ true → Step (put_u32 api k name v)
  unfolding put_u32
  put_u32-Step name none d = Step-pure
  put_u32-Step name (some v) d = put-Step name (write_u32 api k name v) (write_u32-Calm name v d)

  pub put_flag-Step :
      (name : Text) (v : Option Bool)
      → differs_from_marker name ≡ true
      → Step (put_flag api k name v)
  unfolding put_flag
  put_flag-Step name none d = Step-pure
  put_flag-Step name (some v) d =
      put-Step name (write_u32 api k name (flag v)) (write_u32-Calm name (flag v) d)

  pub put_string-Step :
      (cfg : ManagedApplicationConfig) (name : Text) (v : Option Text)
      → differs_from_marker name ≡ true
      → Step (put_string api k cfg name v)
  unfolding put_string
  put_string-Step cfg name none d = Step-pure
  put_string-Step cfg name (some v) d =
      put-Step name (write_config_string api k cfg name v) (write_config_string-Calm cfg name v d)

  pub put_multi-Step :
      (name : Text) (values : List Text)
      → differs_from_marker name ≡ true
      → Step (put_multi api k name values)
  unfolding put_multi write_multi_string
  put_multi-Step name [] d = Step-pure
  put_multi-Step name (v ∷ values) d =
      put-Step name (write_multi_string api k name (v ∷ values)) (λ marker.
        Keeps-bind _ _ (from_result-Keeps api laws k marker (multi_bytes name (v ∷ values)))
          (λ bytes. set_bytes-Keeps api laws k marker name reg_multi_sz bytes d))
