-- ===== src/Action.antt =====
-- Methods that change a state and may fail: the state comes back beside an error too, since what
-- was done before the failure stays done.
use ngsm.Prelude.{◌≡◌, refl}
use ngsm.Result.{Result, ok, err}

abbrev pub Act {ℓ κ μ} : Type ℓ → Type κ → Type μ → Type (ℓ ⊔ κ ⊔ μ)
Act S E A = S → Result E A × S

module _ {ℓ κ μ} {S : Type ℓ} {E : Type κ} {A : Type μ} where
  abbrev pub pure : A → Act S E A
  pure a s = (ok a, s)

  abbrev pub fail : E → Act S E A
  fail e s = (err e, s)

module _ {ℓ κ μ ν} {S : Type ℓ} {E : Type κ} {A : Type μ} {B : Type ν} where
  unfoldable pub continue : (A → Act S E B) → Result E A → S → Result E B × S
  continue f (ok a) s = f a s
  continue f (err e) s = (err e, s)

  infixl 10 ◌>>=◌ ◌>>◌
  unfoldable pub ◌>>=◌ : Act S E A → (A → Act S E B) → Act S E B
  unfolding continue
  ◌>>=◌ m f s = let (r, s') = m s in continue f r s'

  abbrev pub ◌>>◌ : Act S E A → Act S E B → Act S E B
  m >> n = m >>= λ _. n

-- `m` keeps `P`, whether it returns or fails.
pub record Keeps {ℓ κ μ ν} {S : Type ℓ} {E : Type κ} {A : Type μ} (P : S → Type ν) (m : Act S E A)
    : Type (ℓ ⊔ ν) where
  pub at : (s : S) → P s → P (m s).1

module _ {ℓ κ μ ν} {S : Type ℓ} {E : Type κ} {A : Type μ} {P : S → Type ν} where
  pub Keeps-pure : (a : A) → Keeps P (pure {E = E} a)
  Keeps-pure a = record { at = λ _ held. held }

  pub Keeps-fail : (e : E) → Keeps P (fail {A = A} e)
  Keeps-fail e = record { at = λ _ held. held }

module _ {ℓ κ μ ν ξ} {S : Type ℓ} {E : Type κ} {A : Type μ} {B : Type ν} {P : S → Type ξ} where
  Keeps-continue :
      (f : A → Act S E B) (r : Result E A) (s : S)
      → ((a : A) → Keeps P (f a))
      → P s
      → P (continue f r s).1
  unfolding continue
  Keeps-continue f (ok a) s kf h = (kf a).at s h
  Keeps-continue f (err e) s kf h = h

  pub Keeps-bind :
      (m : Act S E A) (f : A → Act S E B)
      → Keeps P m
      → ((a : A) → Keeps P (f a))
      → Keeps P (m >>= f)
  unfolding ◌>>=◌
  Keeps-bind m f km kf = record { at = λ s h. Keeps-continue f (m s).0 (m s).1 kf (km.at s h) }

-- If `m` returns from a state with `P`, then the value and the new state have `Q`.
abbrev pub OnOk {ℓ κ μ ν} :
    {S : Type ℓ} {E : Type κ} {A : Type μ} → (A → S → Type ν) → Result E A → S → Type ν
OnOk Q (ok a) s = Q a s
OnOk Q (err e) s = Unit

pub record Ensures {ℓ κ μ ν} {S : Type ℓ} {E : Type κ} {A : Type μ} (P : S → Type ν) (m : Act S E A)
    (Q : A → S → Type ν) : Type (ℓ ⊔ ν) where
  pub at : (s : S) → P s → OnOk Q (m s).0 (m s).1

module _ {ℓ κ μ ν ξ} {S : Type ℓ} {E : Type κ} {A : Type μ} {B : Type ν} where
  Ensures-continue :
      (Q : A → S → Type ξ) (R : B → S → Type ξ) (f : A → Act S E B) (r : Result E A) (s : S)
      → ((a : A) → Ensures (Q a) (f a) R)
      → OnOk Q r s
      → OnOk R (continue f r s).0 (continue f r s).1
  unfolding continue
  Ensures-continue Q R f (ok a) s kf h = (kf a).at s h
  Ensures-continue Q R f (err e) s kf h = tt

  pub Ensures-bind :
      (P : S → Type ξ) (Q : A → S → Type ξ) (R : B → S → Type ξ) (m : Act S E A) (f : A → Act S E B)
      → Ensures P m Q
      → ((a : A) → Ensures (Q a) (f a) R)
      → Ensures P (m >>= f) R
  unfolding ◌>>=◌
  Ensures-bind P Q R m f km kf = record {
    at = λ s h. Ensures-continue Q R f (m s).0 (m s).1 kf (km.at s h);
  }

-- What holds of a bind, by the answer of its first action.
module _ {ℓ κ μ ν ξ} {S : Type ℓ} {E : Type κ} {A : Type μ} {B : Type ν} where
  pub >>=-elim :
      (P : Result E B × S → Type ξ) (m : Act S E A) (f : A → Act S E B) (s : S)
      → ((a : A) → (m s).0 ≡ ok a → P (f a (m s).1))
      → ((e : E) → (m s).0 ≡ err e → P (err e, (m s).1))
      → P ((m >>= f) s)
  unfolding ◌>>=◌ continue
  >>=-elim P m f s returned failed = go (m s).0 refl
    where
      go : (r : Result E A) → (m s).0 ≡ r → P (continue f r (m s).1)
      go (ok a) e = returned a e
      go (err c) e = failed c e

-- A result of pure code.
abbrev pub from_result {ℓ κ μ} : {S : Type ℓ} {E : Type κ} {A : Type μ} → Result E A → Act S E A
from_result r s = (r, s)

-- `if let Err(error) = m { return Err(handler(error)) }`
module _ {ℓ κ μ} {S : Type ℓ} {E : Type κ} {A : Type μ} where
  unfoldable pub handled : (E → S → E × S) → Result E A → S → Result E A × S
  handled handler (ok a) s = (ok a, s)
  handled handler (err e) s = let (e', s') = handler e s in (err e', s')

  unfoldable pub or_else : Act S E A → (E → S → E × S) → Act S E A
  unfolding handled
  or_else m handler s = let (r, s') = m s in handled handler r s'

  pub or_else-elim {ν} :
      (P : Result E A × S → Type ν) (m : Act S E A) (handler : E → S → E × S) (s : S)
      → ((a : A) → (m s).0 ≡ ok a → P (ok a, (m s).1))
      → ((e : E) → (m s).0 ≡ err e → P (err (handler e (m s).1).0, (handler e (m s).1).1))
      → P (or_else m handler s)
  unfolding or_else handled
  or_else-elim P m handler s returned failed = go (m s).0 refl
    where
      go : (r : Result E A) → (m s).0 ≡ r → P (handled handler r (m s).1)
      go (ok a) e = returned a e
      go (err c) e = failed c e

-- The same, from what is known of the first action.
module _ {ℓ κ μ ν ξ ζ} {S : Type ℓ} {E : Type κ} {A : Type μ} {B : Type ν} where
  pub >>=-after :
      (Q : Result E A × S → Type ζ) (P : Result E B × S → Type ξ) (m : Act S E A)
      (f : A → Act S E B) (s : S)
      → Q (m s)
      → ((a : A) (t : S) → Q (ok a, t) → P (f a t))
      → ((e : E) (t : S) → Q (err e, t) → P (err e, t))
      → P ((m >>= f) s)
  unfolding ◌>>=◌ continue
  >>=-after Q P m f s known returned failed = go (m s).0 known
    where
      go : (r : Result E A) → Q (r, (m s).1) → P (continue f r (m s).1)
      go (ok a) q = returned a (m s).1 q
      go (err c) q = failed c (m s).1 q
