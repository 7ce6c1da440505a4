-- ===== src/Registry/Laws.antt =====
-- What is assumed of the registry: its documented behaviour, as far as the values of one open key go.
-- The registry compares names without regard to case. For ASCII names that is `eq_ignore_ascii_case`.
use ngsm.Prelude.{ℕ, ◌≡◌, true, false, Option, none, some, List, leb, ◌==◌, take, any}
use ngsm.Text.{Text, eq_ignore_case}
use ngsm.Result.{ok, err}
use ngsm.Registry.Store.{RegistryApi, WinError}

abbrev pub IsAscii : Text → Type 0
IsAscii name = any (λ c. leb 128 c) name ≡ false

abbrev pub Differ : Text → Text → Type 0
Differ n m = IsAscii n × IsAscii m × (eq_ignore_case n m ≡ false)

-- `content w k n` is the type and the bytes of the value that the open key `k` has under `n`. A call that fails
-- changes nothing; the code 2 of an error, ERROR_FILE_NOT_FOUND, is given only where there is no value.
pub record RegistryLaws (api : RegistryApi) : Type 0 where
  pub content : api.World → api.Key → Text → Option (ℕ × List ℕ)
  pub size_quiet :
      (k : api.Key) (n m : Text) (w : api.World)
      → content (api.query_size k n w).1 k m ≡ content w k m
  pub value_quiet :
      (k : api.Key) (n m : Text) (size : ℕ) (w : api.World)
      → content (api.query_value k n size w).1 k m ≡ content w k m
  pub value_answers :
      (k : api.Key) (n : Text) (size : ℕ) (w : api.World) (ty : ℕ) (buffer : List ℕ) (written : ℕ)
      → (api.query_value k n size w).0 ≡ ok (ty, buffer, written)
      → content w k n ≡ some (ty, take written buffer)
  pub set_stores :
      (k : api.Key) (n : Text) (kind : ℕ) (bytes : List ℕ) (w : api.World)
      → (api.reg_set_value k n kind bytes w).0 ≡ ok tt
      → content (api.reg_set_value k n kind bytes w).1 k n ≡ some (kind, bytes)
  pub set_fails :
      (k : api.Key) (n m : Text) (kind : ℕ) (bytes : List ℕ) (w : api.World) (e : WinError)
      → (api.reg_set_value k n kind bytes w).0 ≡ err e
      → content (api.reg_set_value k n kind bytes w).1 k m ≡ content w k m
  pub set_others :
      (k : api.Key) (n m : Text) (kind : ℕ) (bytes : List ℕ) (w : api.World)
      → Differ n m
      → content (api.reg_set_value k n kind bytes w).1 k m ≡ content w k m
  pub delete_removes :
      (k : api.Key) (n : Text) (w : api.World)
      → (api.reg_delete_value k n w).0 ≡ ok tt
      → content (api.reg_delete_value k n w).1 k n ≡ none
  pub delete_missing :
      (k : api.Key) (n : Text) (w : api.World) (e : WinError)
      → (api.reg_delete_value k n w).0 ≡ err e
      → (e.code == 2) ≡ true
      → content w k n ≡ none
  pub delete_adds_nothing :
      (k : api.Key) (n m : Text) (w : api.World)
      → content w k m ≡ none
      → content (api.reg_delete_value k n w).1 k m ≡ none
  pub delete_others :
      (k : api.Key) (n m : Text) (w : api.World)
      → Differ n m
      → content (api.reg_delete_value k n w).1 k m ≡ content w k m
