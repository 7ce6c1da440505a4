-- ===== src/Examples/TwoKeys.antt =====
-- A registry for the theorems on crates/servicemanager-registry, with proofs that it has the assumed laws.
-- The key of the parameters is `true`, and `false` is the one key below it. The world is what is stored under
-- each key and name.
use ngsm.Prelude.{
  ℕ, ◌≡◌, refl, ap, inl, inr, Bool, true, false, not, ◌&&◌, Option, none, some, List, [], ◌∷◌,
  if◌then◌else◌, Bool-cases, length, take,
}
use ngsm.Text.{Text, eq_ignore_case}
use ngsm.Text.Laws.{eq_ignore_case_refl}
use ngsm.Result.{Result, ok, err}
use ngsm.Registry.Store.{RegistryApi, WinError}
use ngsm.Registry.Laws.{RegistryLaws}
use ngsm.Registry.Write.Subkeys.{SubkeyLaws}

abbrev pub Store : Type 0
Store = Bool → Text → Option (ℕ × List ℕ)

abbrev pub missing : WinError
missing = record { code = 2; message = [] }

abbrev pub same : Bool → Bool → Bool
same true j = j
same false j = not j

abbrev pub changed : Bool → Text → Option (ℕ × List ℕ) → Store → Store
changed j n v w i m = if same j i && eq_ignore_case n m then v else w i m

abbrev pub removed : Bool → Text → Store → Option (ℕ × List ℕ) → Result WinError (Unit {0}) × Store
removed j n w none = (err missing, w)
removed j n w (some v) = (ok tt, changed j n none w)

abbrev pub size_of : Option (ℕ × List ℕ) → Result WinError ℕ
size_of none = err missing
size_of (some (ty, bytes)) = ok (length bytes)

abbrev pub value_of : Option (ℕ × List ℕ) → Result WinError (ℕ × List ℕ × ℕ)
value_of none = err missing
value_of (some (ty, bytes)) = ok (ty, bytes, length bytes)

abbrev pub two_keys : RegistryApi
two_keys = record {
  World = Store;
  Key = Bool;
  local_machine = true;
  open_key = λ k path sam w. (ok false, w);
  create_key = λ k path sam w. (ok false, w);
  query_size = λ k n w. (size_of (w k n), w);
  query_value = λ k n size w. (value_of (w k n), w);
  reg_set_value = λ k n kind bytes w. (ok tt, changed k n (some (kind, bytes)) w);
  reg_delete_value = λ k n w. removed k n w (w k n);
  reg_delete_tree = λ k n w. (ok tt, w);
  enum_value_names = λ k w. (ok [], w);
  enum_values = λ k w. (ok [], w);
  enum_subkeys = λ k w. (ok [], w);
  windows_name_key = λ s. ok s;
  lock_service_config = λ n w. (ok tt, w);
}

pub take_all : (xs : List ℕ) → take (length xs) xs ≡ xs
take_all [] = refl
take_all (x ∷ xs) = ap (λ t. x ∷ t) (take_all xs)

pub value_of-answers :
    (v : Option (ℕ × List ℕ)) (ty : ℕ) (buffer : List ℕ) (written : ℕ)
    → value_of v ≡ ok (ty, buffer, written)
    → v ≡ some (ty, take written buffer)
value_of-answers none ty buffer written h = cc
value_of-answers (some (t, bytes)) ty buffer written h =
    let et : t ≡ ty = cc h in
    let eb : bytes ≡ buffer = cc h in
    let el : length bytes ≡ written = cc h in
    rw (← et) (rw (← el) (rw (← eb) (rw (take_all bytes) refl)))

pub same_self : (k : Bool) → same k k ≡ true
same_self true = refl
same_self false = refl

pub and_false : (b : Bool) → (b && false) ≡ false
and_false true = refl
and_false false = refl

pub changed_here :
    (k : Bool) (n : Text) (v : Option (ℕ × List ℕ)) (w : Store) → changed k n v w k n ≡ v
changed_here k n v w = rw (same_self k, eq_ignore_case_refl n) refl

pub changed_others :
    (k : Bool) (n m : Text) (v : Option (ℕ × List ℕ)) (w : Store)
    → eq_ignore_case n m ≡ false
    → changed k n v w k m ≡ w k m
changed_others k n m v w h = rw (h, and_false (same k k)) refl

pub changed_below :
    (j : Bool) (n m : Text) (v : Option (ℕ × List ℕ)) (w : Store)
    → same j true ≡ false
    → changed j n v w true m ≡ w true m
changed_below j n m v w h = rw h refl

pub removed_gone :
    (k : Bool) (n : Text) (w : Store) (v : Option (ℕ × List ℕ))
    → (removed k n w v).0 ≡ ok tt
    → (removed k n w v).1 k n ≡ none
removed_gone k n w none h = cc
removed_gone k n w (some v) h = changed_here k n none w

pub removed_missing :
    (k : Bool) (n : Text) (w : Store) (v : Option (ℕ × List ℕ)) (e : WinError)
    → (removed k n w v).0 ≡ err e
    → v ≡ none
removed_missing k n w none e h = refl
removed_missing k n w (some v) e h = cc

pub removed_adds :
    (k : Bool) (n m : Text) (w : Store) (v : Option (ℕ × List ℕ))
    → w k m ≡ none
    → (removed k n w v).1 k m ≡ none
removed_adds k n m w none h = h
removed_adds k n m w (some v) h = elim (Bool-cases (same k k && eq_ignore_case n m)) [
  | inl hit ↦ rw hit refl
  | inr other ↦ rw other h
]

pub removed_others :
    (k : Bool) (n m : Text) (w : Store) (v : Option (ℕ × List ℕ))
    → eq_ignore_case n m ≡ false
    → (removed k n w v).1 k m ≡ w k m
removed_others k n m w none h = refl
removed_others k n m w (some v) h = changed_others k n m none w h

pub removed_below :
    (j : Bool) (n m : Text) (w : Store) (v : Option (ℕ × List ℕ))
    → same j true ≡ false
    → (removed j n w v).1 true m ≡ w true m
removed_below j n m w none h = refl
removed_below j n m w (some v) h = changed_below j n m none w h

pub never_fails :
    {A : Type 0} (w : Store) (e : WinError)
    → ◌≡◌ {A = Result WinError (Unit {0})} (ok tt) (err e)
    → A
never_fails w e h = cc h

pub opened_lem : (i : Bool) → ◌≡◌ {A = Result WinError Bool} (ok false) (ok i) → same i true ≡ false
opened_lem true h = cc
opened_lem false h = refl

abbrev pub two_keys_laws : RegistryLaws two_keys
two_keys_laws = record {
  content = λ w k n. w k n;
  size_quiet = λ k n m w. refl;
  value_quiet = λ k n m size w. refl;
  value_answers = λ k n size w ty buffer written h. value_of-answers (w k n) ty buffer written h;
  set_stores = λ k n kind bytes w h. changed_here k n (some (kind, bytes)) w;
  set_fails = λ k n m kind bytes w e h. never_fails w e h;
  set_others = λ k n m kind bytes w d. changed_others k n m (some (kind, bytes)) w d.2;
  delete_removes = λ k n w h. removed_gone k n w (w k n) h;
  delete_missing = λ k n w e h c. removed_missing k n w (w k n) e h;
  delete_adds_nothing = λ k n m w h. removed_adds k n m w (w k n) h;
  delete_others = λ k n m w d. removed_others k n m w (w k n) d.2;
}

abbrev pub two_keys_below : SubkeyLaws two_keys two_keys_laws true
two_keys_below = record {
  IsBelow = λ j. same j true ≡ false;
  created = λ n sam w i full h. opened_lem i h;
  created_below = λ j n sam w i b h. opened_lem i h;
  opened_below = λ j n sam w i b h. opened_lem i h;
  create_quiet = λ j n m sam w. refl;
  open_quiet = λ j n m sam w. refl;
  names_quiet = λ j m w. refl;
  subkeys_quiet = λ j m w. refl;
  tree_quiet = λ j n m w. refl;
  set_below = λ j n m kind bytes w h. changed_below j n m (some (kind, bytes)) w h;
  delete_below = λ j n m w h. removed_below j n m w (w j n) h;
}
