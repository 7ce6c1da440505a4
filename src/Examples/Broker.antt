-- ===== src/Examples/Broker.antt =====
-- The theorems on crates/servicemanager-broker at concrete values.
use ngsm.Prelude.{
  ℕ, ◌+◌, ◌≡◌, refl, subst, ◌↔◌, Bool, true, false, Option, none, some, List, [], ◌∷◌, arith,
}
use ngsm.Registry.Bytes.{IsBytes}
use ngsm.Broker.Activity.{new_activity, admit_at, finish_work, drain, claim_idle_shutdown}
use ngsm.Broker.Activity.Runs.{Server, start, after, Run, here, next, admit, drop_guard, claim}
use ngsm.Broker.Activity.Shutdown.{claim-IsFinal}
use ngsm.Broker.Token.{token_matches}
use ngsm.Broker.Token.Exact.{token_matches_iff}

-- A request is carried out, and the claim comes a hundred seconds after it.
abbrev served : Server
served = after (drop_guard true 5) (after (admit true 2) (start 0))

served_run : Run (start 0) served
unfolding after admit_at new_activity
served_run = next (next here (admit true 2) tt) (drop_guard true 5) (omega arith)

granted : (claim_idle_shutdown 105 60 served.activity).0 ≡ true
unfolding after admit_at new_activity finish_work drain claim_idle_shutdown
granted = refl

-- A peer that comes too late.
abbrev later : Server
later = after (admit false 108) (after (claim 105 60) served)

later_run : Run (after (claim 105 60) served) later
later_run = next here (admit false 108) tt

claim-IsFinal_example :
    (served.authenticated + served.others ≡ 0)
    × (later.authenticated + later.others ≡ 0)
    × ((is_authenticated : Bool) (u : ℕ) → (admit_at is_authenticated u later.activity).0 ≡ false)
    × ((u d : ℕ) → (claim_idle_shutdown u d later.activity).0 ≡ false)
claim-IsFinal_example = claim-IsFinal 0 served 105 60 later served_run granted later_run

abbrev secret : List ℕ
secret = 115 ∷ 51 ∷ []

abbrev guess : List ℕ
guess = 115 ∷ 50 ∷ []

abbrev AreBytes : Option (List ℕ) → Type 0
AreBytes none = Unit
AreBytes (some token) = IsBytes token

token_matches_iff_example : token_matches secret (some guess) ≡ true ↔ some guess ≡ some secret
token_matches_iff_example =
    token_matches_iff secret (some guess) (omega arith, (omega arith, tt))
      (λ token same. subst AreBytes same (omega arith, (omega arith, tt)))
