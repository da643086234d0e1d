-- ===== src/Action.antt =====
-- Go's `(T, error)` results, and methods over shared state: what was written before an error stays
-- written, so the state comes back beside the error too.
use fikua_lab_idp.Prelude.{◌≡◌, refl, ◌⊎◌, inl, inr, Bool, true, false, Option, none, some}

pub data Result {ℓ} (E A : Type ℓ) : Type ℓ where
  ok : A → Result E A
  err : E → Result E A

abbrev pub Action {ℓ} : Type ℓ → Type ℓ → Type ℓ → Type ℓ
Action S E A = S → Result E A × S

module _ {ℓ} {S E A : Type ℓ} where
  abbrev pub pure : A → Action S E A
  pure a s = (ok a, s)

  abbrev pub fail : E → Action S E A
  fail e s = (err e, s)

  abbrev pub lift : Result E A → Action S E A
  lift r s = (r, s)

  -- A step that reads the state.
  abbrev pub gets : (S → A) → Action S E A
  gets f s = (ok (f s), s)

  -- A step of a part of the state that cannot fail.
  abbrev pub steps : (S → A × S) → Action S E A
  steps f s = let (a, s') = f s in (ok a, s')

  abbrev pub or_fail : Option A → E → Action S E A
  or_fail none e = fail e
  or_fail (some a) e = pure a

module _ {S E : Type 0} where
  -- `if bad { return err }`
  abbrev pub reject_if : Bool → E → Action S E (Unit {0})
  reject_if true e = fail e
  reject_if false e = pure tt

  abbrev pub modify : (S → S) → Action S E (Unit {0})
  modify f s = (ok tt, f s)

module _ {ℓ} {S E A B : Type ℓ} where
  abbrev pub continue : Result E A → (A → Action S E B) → Action S E B
  continue (ok a) f s = f a s
  continue (err e) f s = (err e, s)

  infixl 5 ◌>>=◌ ◌>>◌
  abbrev pub ◌>>=◌ : Action S E A → (A → Action S E B) → Action S E B
  ◌>>=◌ m f s = let (r, s') = m s in continue r f s'

  abbrev pub ◌>>◌ : Action S E A → Action S E B → Action S E B
  m >> n = m >>= λ _. n

pub Result-cases {ℓ} :
    {E A : Type ℓ} (r : Result E A) → ((a : A) × (r ≡ ok a)) ⊎ ((e : E) × (r ≡ err e))
Result-cases (ok a) = inl (a, refl)
Result-cases (err e) = inr (e, refl)
