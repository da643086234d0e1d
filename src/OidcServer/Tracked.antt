-- ===== src/OidcServer/Tracked.antt =====
-- Maps from which expired entries are removed where they are met, and tables from which none are.
use fikua_lab_idp.Prelude.{
  ℕ, ◌≤◌, ◌<◌, ◌≡◌, ◌⊎◌, ap, inl, inr, String, none, some, Option, arith, ◌==◌, eq_of_test,
  Bool-cases, Option-cases,
}
use fikua_lab_idp.Assoc.{Assoc, get, put, delete, get-put, get-delete}
use fikua_lab_idp.OidcServer.Ledger.{Table, set, live, change}

-- A map holds what the table holds, but for entries that have expired.
module _ {V : Type 0} (expiry : V → ℕ) where
  abbrev HasExpired : ℕ → Option V → Type 0
  HasExpired now o = (v : V) × (o ≡ some v) × (expiry v < now)

  abbrev pub IsTracked : ℕ → Assoc V → Table V → Type 0
  IsTracked now m f = (k : String) → (get k m ≡ f k) ⊎ ((get k m ≡ none) × HasExpired now (f k))

  pub tracked_later :
      (now later : ℕ) (m : Assoc V) (f : Table V)
      → now ≤ later
      → IsTracked now m f
      → IsTracked later m f
  tracked_later now later m f le t k = elim (t k) [
    | inl e ↦ inl e
    | inr (e, (v, p, h)) ↦ inr (e, (v, p, omega arith))
  ]

  pub tracked_put :
      (now : ℕ) (m : Assoc V) (f : Table V) (k : String) (v : V)
      → IsTracked now m f
      → IsTracked now (put k v m) (set k (some v) f)
  tracked_put now m f k v t j = elim (Bool-cases (k == j)) [
    | inl same ↦ inl (ground (arith, get-put k j v m))
    | inr other ↦ elim (t j) [
      | inl e ↦ inl (ground (arith, get-put k j v m))
      | inr (e, (w, p, h)) ↦ inr (ground (arith, get-put k j v m), (w, ground arith, h))
    ]
  ]

  pub tracked_delete :
      (now : ℕ) (m : Assoc V) (f : Table V) (k : String)
      → IsTracked now m f
      → IsTracked now (delete k m) (set k none f)
  tracked_delete now m f k t j = elim (Bool-cases (k == j)) [
    | inl same ↦ inl (ground (arith, get-delete k j m))
    | inr other ↦ elim (t j) [
      | inl e ↦ inl (ground (arith, get-delete k j m))
      | inr (e, (w, p, h)) ↦ inr (ground (arith, get-delete k j m), (w, ground arith, h))
    ]
  ]

  -- What the lookup that removes an expired entry leaves.
  pub tracked_drop :
      (now : ℕ) (m : Assoc V) (f : Table V) (k : String)
      → live expiry now (get k m) ≡ none
      → IsTracked now m f
      → IsTracked now (delete k m) f
  tracked_drop now m f k dead t j = elim (Bool-cases (k == j)) [
    | inr other ↦ elim (t j) [
      | inl e ↦ inl (ground (arith, get-delete k j m))
      | inr (e, (w, p, h)) ↦ inr (ground (arith, get-delete k j m), (w, p, h))
    ]
    | inl same ↦ elim (t j) [
      | inr (e, (w, p, h)) ↦ inr (ground (arith, get-delete k j m), (w, p, h))
      | inl e ↦ elim (Option-cases (f j)) [
        | inl p ↦ inl (ground (arith, get-delete k j m))
        | inr (w, p) ↦ inr (
          ground (arith, get-delete k j m),
          (w, p, ground (arith, ap (λ i. get i m) (eq_of_test k j same))),
        )
      ]
    ]
  ]

  pub live_same :
      (now : ℕ) (m : Assoc V) (f : Table V) (k : String)
      → IsTracked now m f
      → live expiry now (get k m) ≡ live expiry now (f k)
  live_same now m f k t = elim (t k) [
    | inl e ↦ ap (live expiry now) e
    | inr (e, (v, p, h)) ↦ ground arith
  ]

  -- A field of an entry changes, but not its expiry.
  pub tracked_change :
      (now : ℕ) (m m' : Assoc V) (f : Table V) (k : String) (c : V → V)
      → ((v : V) → expiry (c v) ≡ expiry v)
      → ((get k m ≡ none) × (m' ≡ m)) ⊎ ((v : V) × (get k m ≡ some v) × (m' ≡ put k (c v) m))
      → IsTracked now m f
      → IsTracked now m' (set k (change c (f k)) f)
  tracked_change now m m' f k c same_age step t j = elim (Bool-cases (k == j)) [
    | inr other ↦ elim step [
      | inl (n, q) ↦ elim (t j) [
        | inl e ↦ inl (ground (arith, ap (get j) q))
        | inr (e, (w, p, h)) ↦ inr (ground (arith, ap (get j) q), (w, ground arith, h))
      ]
      | inr (v, g, q) ↦ elim (t j) [
        | inl e ↦ inl (ground (arith, ap (get j) q, get-put k j (c v) m))
        | inr (e, (w, p, h)) ↦
            inr (ground (arith, ap (get j) q, get-put k j (c v) m), (w, ground arith, h))
      ]
    ]
    | inl same ↦
        let here = ap (λ i. get i m) (eq_of_test k j same) in
        elim step [
          | inl (n, q) ↦ elim (t k) [
            | inl e ↦ inl (ground (arith, ap (get j) q, here))
            | inr (e, (w, p, h)) ↦ inr (
              ground (arith, ap (get j) q, here),
              (c w, ground arith, ground (arith, same_age w)),
            )
          ]
          | inr (v, g, q) ↦ elim (t k) [
            | inl e ↦ inl (ground (arith, ap (get j) q, get-put k j (c v) m))
            | inr (e, (w, p, h)) ↦ absurd (ground arith)
          ]
        ]
  ]
