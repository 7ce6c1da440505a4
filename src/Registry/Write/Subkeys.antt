-- ===== src/Registry/Write/Subkeys.antt =====
-- What is assumed of the keys below an open key, and that the work on them leaves the marker alone.
-- `IsBelow j` says that `j` was opened or created below the key `k`. What is done to keys below it, and to the
-- trees below it, changes no value of `k` itself; nor does opening, creating and listing.
use ngsm.Prelude.{ℕ, ◌≡◌, ◌∙◌, Bool, true, false, Option, List, if◌then◌else◌}
use ngsm.Text.{is_empty, Text}
use ngsm.Result.{Result, ok}
use ngsm.Action.{Act, pure, ◌>>=◌, >>=-elim, from_result, Keeps, Keeps-pure, Keeps-bind}
use ngsm.Core.Error.{Error}
use ngsm.Registry.NssmKeys
use ngsm.Registry.Bytes.{string_bytes}
use ngsm.Registry.Store.{
  RegistryApi, Access, parameters_rw, ignore_missing, create_subkey_under, write_string_typed,
  set_bytes, delete_value, delete_subtree,
}
use ngsm.Registry.Laws.{RegistryLaws}
use ngsm.Registry.Reading.{map_err-ok}
use ngsm.Registry.SingleValue.Marked.{Kept}
use ngsm.Registry.Write.Reconcile.{enumerate_value_names, enumerate_subkey_names, decode_names}

pub record SubkeyLaws (api : RegistryApi) (laws : RegistryLaws api) (k : api.Key) : Type 1 where
  pub IsBelow : api.Key → Type 0
  pub created :
      (n : Text) (sam : Access) (w : api.World) (i : api.Key)
      → is_empty n ≡ false
      → (api.create_key k n sam w).0 ≡ ok i
      → IsBelow i
  pub created_below :
      (j : api.Key) (n : Text) (sam : Access) (w : api.World) (i : api.Key)
      → IsBelow j
      → (api.create_key j n sam w).0 ≡ ok i
      → IsBelow i
  pub opened_below :
      (j : api.Key) (n : Text) (sam : Access) (w : api.World) (i : api.Key)
      → IsBelow j
      → (api.open_key j n sam w).0 ≡ ok i
      → IsBelow i
  pub create_quiet :
      (j : api.Key) (n m : Text) (sam : Access) (w : api.World)
      → laws.content (api.create_key j n sam w).1 k m ≡ laws.content w k m
  pub open_quiet :
      (j : api.Key) (n m : Text) (sam : Access) (w : api.World)
      → laws.content (api.open_key j n sam w).1 k m ≡ laws.content w k m
  pub names_quiet :
      (j : api.Key) (m : Text) (w : api.World)
      → laws.content (api.enum_value_names j w).1 k m ≡ laws.content w k m
  pub subkeys_quiet :
      (j : api.Key) (m : Text) (w : api.World)
      → laws.content (api.enum_subkeys j w).1 k m ≡ laws.content w k m
  pub tree_quiet :
      (j : api.Key) (n m : Text) (w : api.World)
      → laws.content (api.reg_delete_tree j n w).1 k m ≡ laws.content w k m
  pub set_below :
      (j : api.Key) (n m : Text) (kind : ℕ) (bytes : List ℕ) (w : api.World)
      → IsBelow j
      → laws.content (api.reg_set_value j n kind bytes w).1 k m ≡ laws.content w k m
  pub delete_below :
      (j : api.Key) (n m : Text) (w : api.World)
      → IsBelow j
      → laws.content (api.reg_delete_value j n w).1 k m ≡ laws.content w k m

module _ (api : RegistryApi) (laws : RegistryLaws api) (k : api.Key) (below : SubkeyLaws api laws k)
    (marker : Option (ℕ × List ℕ)) where
  open below use {IsBelow}

  pub from_result-Calm {ℓ} :
      {A : Type ℓ} (r : Result Error A) → Keeps (Kept api laws k marker) (from_result r)
  from_result-Calm r = record { at = λ w kept. kept }

  pub if_Calm :
      (b : Bool) {m : Act api.World Error (Unit {0})}
      → Keeps (Kept api laws k marker) m
      → Keeps (Kept api laws k marker) (if b then pure tt else m)
  if_Calm true h = Keeps-pure tt
  if_Calm false h = h

  pub enumerate_value_names-Calm :
      (j : api.Key) → Keeps (Kept api laws k marker) (enumerate_value_names api j)
  unfolding enumerate_value_names Kept
  enumerate_value_names-Calm j =
      Keeps-bind _ _ (record { at = λ w kept. below.names_quiet j NssmKeys.application w ∙ kept })
        (λ words. from_result-Calm (decode_names words))

  pub enumerate_subkey_names-Calm :
      (j : api.Key) → Keeps (Kept api laws k marker) (enumerate_subkey_names api j)
  unfolding enumerate_subkey_names Kept
  enumerate_subkey_names-Calm j =
      Keeps-bind _ _ (record { at = λ w kept. below.subkeys_quiet j NssmKeys.application w ∙ kept })
        (λ words. from_result-Calm (decode_names words))

  pub delete_subtree-Calm :
      (j : api.Key) (n : Text)
      → Keeps (Kept api laws k marker) (ignore_missing (delete_subtree api j n))
  unfolding ignore_missing delete_subtree Kept
  delete_subtree-Calm j n = record {
    at = λ w kept. below.tree_quiet j n NssmKeys.application w ∙ kept;
  }

  pub delete_below-Calm :
      (j : api.Key) (n : Text)
      → IsBelow j
      → Keeps (Kept api laws k marker) (ignore_missing (delete_value api j n))
  unfolding ignore_missing delete_value Kept
  delete_below-Calm j n h = record {
    at = λ w kept. below.delete_below j n NssmKeys.application w h ∙ kept;
  }

  pub write_below-Calm :
      (j : api.Key) (n value : Text) (kind : ℕ)
      → IsBelow j
      → Keeps (Kept api laws k marker) (write_string_typed api j n value kind)
  unfolding write_string_typed set_bytes Kept
  write_below-Calm j n value kind h =
      Keeps-bind _ _ (from_result-Calm (string_bytes n value)) (λ bytes. record {
        at = λ w kept. below.set_below j n NssmKeys.application kind bytes w h ∙ kept;
      })

  module _ {B : Type 0} (f : api.Key → Act api.World Error B) where
    -- What works on a key that is created is calm if it is calm on every key below.
    pub create_Calm :
        (n : Text)
        → is_empty n ≡ false
        → ((i : api.Key) → IsBelow i → Keeps (Kept api laws k marker) (f i))
        → Keeps (Kept api laws k marker) (create_subkey_under api k n >>= f)
    unfolding create_subkey_under Kept
    create_Calm n full h = record {
      at = λ w kept.
          let quiet = below.create_quiet k n NssmKeys.application parameters_rw w ∙ kept in
          >>=-elim
            (λ (out : Result Error B × api.World).
              laws.content out.1 k NssmKeys.application ≡ marker)
            _ f w
            (λ i made.
              (h i (below.created n parameters_rw w i full (map_err-ok _ _ made))).at _ quiet)
            (λ e failed. quiet);
    }

    pub create_below_Calm :
        (j : api.Key) (n : Text)
        → IsBelow j
        → ((i : api.Key) → IsBelow i → Keeps (Kept api laws k marker) (f i))
        → Keeps (Kept api laws k marker) (create_subkey_under api j n >>= f)
    unfolding create_subkey_under Kept
    create_below_Calm j n b h = record {
      at = λ w kept.
          let quiet = below.create_quiet j n NssmKeys.application parameters_rw w ∙ kept in
          >>=-elim
            (λ (out : Result Error B × api.World).
              laws.content out.1 k NssmKeys.application ≡ marker)
            _ f w
            (λ i made.
              (h i (below.created_below j n parameters_rw w i b (map_err-ok _ _ made))).at _ quiet)
            (λ e failed. quiet);
    }
