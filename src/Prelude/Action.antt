-- ===== src/Prelude/Action.antt =====
-- Go methods that change an object and may return an error: what was changed before the error stays
-- changed, so the state comes back beside the error too.
use mathlib.Core.Path.{◌≡◌, refl}
use mathlib.Core.Logic.{◌⊎◌, inl, inr}
use mathlib.Core.Bool.{Bool, true, false}
use mathlib.Core.Option.{Option, none, some}

pub data Result {ℓ κ} (E : Type ℓ) (A : Type κ) : Type (ℓ ⊔ κ) where
  ok : A → Result E A
  err : E → Result E A

pub Result-cases {ℓ κ} :
    {E : Type ℓ} {A : Type κ} (m : Result E A) → ((a : A) × (m ≡ ok a)) ⊎ ((e : E) × (m ≡ err e))
Result-cases (ok a) = inl (a, refl)
Result-cases (err e) = inr (e, refl)

abbrev pub Action {ℓ} : Type ℓ → Type ℓ → Type ℓ → Type ℓ
Action S E A = S → S × Result E A

module _ {ℓ} {S E A : Type ℓ} where
  abbrev pub pure : A → Action S E A
  pure a s = (s, ok a)

  abbrev pub fail : E → Action S E A
  fail e s = (s, err e)

  abbrev pub gets : (S → A) → Action S E A
  gets f s = (s, ok (f s))

  abbrev pub lift : Result E A → Action S E A
  lift r s = (s, r)

  -- A value, or an early return with an error.
  abbrev pub or_fail : E → Option A → Action S E A
  or_fail e none s = (s, err e)
  or_fail e (some a) s = (s, ok a)

module _ {ℓ} {S E : Type ℓ} where
  abbrev pub modify : (S → S) → Action S E (Unit {ℓ})
  modify f s = (f s, ok tt)

  abbrev pub guard : Bool → E → Action S E (Unit {ℓ})
  guard true e s = (s, ok tt)
  guard false e s = (s, err e)

module _ {ℓ} {S E A B : Type ℓ} where
  abbrev pub continue : Result E A → (A → Action S E B) → Action S E B
  continue (ok a) f s = f a s
  continue (err e) f s = (s, err e)

  infixl 10 ◌>>=◌
  abbrev pub ◌>>=◌ : Action S E A → (A → Action S E B) → Action S E B
  ◌>>=◌ m f s = continue (m s).1 f (m s).0

module _ {ℓ} {S E B : Type ℓ} where
  infixl 10 ◌>>◌
  abbrev pub ◌>>◌ : Action S E (Unit {ℓ}) → Action S E B → Action S E B
  m >> n = m >>= λ _. n
