-- ===== src/Prelude/Lists.antt =====
-- Lists over the native numbers.
use Prim.Native.Nat.{ℕ, suc, ◌+◌}
use mathlib.Core.Path.{◌≡◌, refl, ap, subst}
use mathlib.Core.Logic.{◌⊎◌, inl, inr}
use Prim.Native.String.{String}
use mathlib.Core.Bool.{Bool, false, ◌||◌}
use fikua_lab_idp.Prelude.Tests.{◌==◌}
use mathlib.Core.List.{List, [], ◌∷◌, ◌++◌}
use native.Mathlib.Omega.{arith}

module _ {ℓ} {A : Type ℓ} where
  abbrev pub length : List A → ℕ
  length [] = 0
  length (x ∷ xs) = suc (length xs)

  pub length-append : (xs ys : List A) → length (xs ++ ys) ≡ length xs + length ys
  length-append [] ys = omega arith
  length-append (x ∷ xs) ys = omega (arith, length-append xs ys)

  -- `xs[:len(xs)-1]`
  abbrev pub all_but_last : List A → List A
  all_but_last [] = []
  all_but_last (x ∷ []) = []
  all_but_last (x ∷ y ∷ ys) = x ∷ all_but_last (y ∷ ys)

  -- `xs[len(xs)-1]`, of the list `x ∷ xs`
  abbrev pub last_of : A → List A → A
  last_of x [] = x
  last_of x (y ∷ ys) = last_of y ys

  pub all_but_last-snoc : (xs : List A) (x : A) → all_but_last (xs ++ x ∷ []) ≡ xs
  all_but_last-snoc [] x = refl
  all_but_last-snoc (y ∷ []) x = refl
  all_but_last-snoc (y ∷ z ∷ zs) x = ap (λ l. y ∷ l) (all_but_last-snoc (z ∷ zs) x)

  pub last_of-snoc : (d : A) (xs : List A) (x : A) → last_of d (xs ++ x ∷ []) ≡ x
  last_of-snoc d [] x = refl
  last_of-snoc d (y ∷ ys) x = last_of-snoc y ys x

-- A predicate that holds of every element.
abbrev pub All {ℓ κ} : {A : Type ℓ} → (A → Type κ) → List A → Type κ
All P [] = Unit
All P (x ∷ xs) = P x × All P xs

-- An element of a list.
abbrev pub Among : {A : Type 0} → A → List A → Type 0
Among a [] = ⊥
Among a (x ∷ xs) = (x ≡ a) ⊎ Among a xs

pub all_among : {A : Type 0} (P : A → Type 0) (a : A) (xs : List A) → All P xs → Among a xs → P a
all_among P a [] h m = absurd m
all_among P a (x ∷ xs) h (inl e) = subst P e h.0
all_among P a (x ∷ xs) h (inr m) = all_among P a xs h.1 m

-- Go's `slices.Contains` on texts.
unfoldable pub elem : String → List String → Bool
elem a [] = false
elem a (x ∷ xs) = x == a || elem a xs
