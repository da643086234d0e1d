-- ===== src/Fallible.antt =====
-- Chains of Go calls that return `(T, error)` and touch no shared state.
use fikua_lab_idp.Prelude.{String, ◌<>◌, Bool, true, false, Option, none, some}
use fikua_lab_idp.Action.{Result, ok, err}

infixl 5 ◌>>=◌ ◌>>◌
abbrev pub ◌>>=◌ : {E A B : Type 0} → Result E A → (A → Result E B) → Result E B
ok a >>= f = f a
err e >>= f = err e

abbrev pub ◌>>◌ : {E B : Type 0} → Result E (Unit {0}) → Result E B → Result E B
m >> n = m >>= λ _. n

-- `if bad { return err }`
abbrev pub reject_if : {E : Type 0} → Bool → E → Result E (Unit {0})
reject_if true e = err e
reject_if false e = ok tt

abbrev pub or_fail : {E A : Type 0} → Option A → E → Result E A
or_fail none e = err e
or_fail (some a) e = ok a

-- `fmt.Errorf(prefix + "%w", err)`
abbrev pub wrapped : {A : Type 0} → String → Result String A → Result String A
wrapped prefix (ok a) = ok a
wrapped prefix (err reason) = err (prefix <> reason)
