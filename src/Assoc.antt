-- ===== src/Assoc.antt =====
-- Go's maps with text keys, as association lists. The order of the entries is one that `range` may
-- take; no operation but a `range` loop depends on it.
use fikua_lab_idp.Prelude.{
  String, ◌≡◌, refl, Option, none, some, List, [], ◌∷◌, arith, eq_iff, ◌==◌, if◌then◌else◌, eq_refl,
}

abbrev pub Assoc {ℓ} : Type ℓ → Type ℓ
Assoc V = List (String × V)

module _ {ℓ} {V : Type ℓ} where
  -- `v, ok := m[k]`
  unfoldable pub get : String → Assoc V → Option V
  get k [] = none
  get k ((j, v) ∷ m) = if j == k then some v else get k m

  -- `delete(m, k)`
  unfoldable pub delete : String → Assoc V → Assoc V
  delete k [] = []
  delete k ((j, v) ∷ m) = let rest = delete k m in if j == k then rest else (j, v) ∷ rest

  -- `m[k] = v`
  unfoldable pub put : String → V → Assoc V → Assoc V
  unfolding delete
  put k v m = (k, v) ∷ delete k m

  pub get-delete :
      (k j : String) (m : Assoc V) → get j (delete k m) ≡ (if k == j then none else get j m)
  unfolding get delete
  get-delete k j [] = ground arith
  get-delete k j ((i, v) ∷ m) = ground (arith, get-delete k j m, eq_iff i k, eq_iff i j, eq_iff k j)

  pub get-put :
      (k j : String) (v : V) (m : Assoc V)
      → get j (put k v m) ≡ (if k == j then some v else get j m)
  unfolding get put
  get-put k j v m = ground (arith, get-delete k j m)

  pub get-put_self : (k : String) (v : V) (m : Assoc V) → get k (put k v m) ≡ some v
  get-put_self k v m = simp (get-put, eq_refl)

  pub get-delete_self : (k : String) (m : Assoc V) → get k (delete k m) ≡ none
  get-delete_self k m = simp (get-delete, eq_refl)

pub get-empty {ℓ} : {V : Type ℓ} (k : String) → get {V = V} k [] ≡ none
unfolding get
get-empty k = refl

-- `m[k]` with no second value: the zero value of a missing text is the empty text.
unfoldable pub text_at : String → Assoc String → String
text_at k m = elim (get k m) [ none ↦ "" | some v ↦ v ]

pub ruleset assoc_laws = (get-empty, get-delete, get-put)

pub text_at-put :
    (k j v : String) (m : Assoc String)
    → text_at j (put k v m) ≡ (if k == j then v else text_at j m)
unfolding text_at
text_at-put k j v m = ground (arith, get-put k j v m)
