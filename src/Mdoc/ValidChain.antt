-- ===== src/Mdoc/ValidChain.antt =====
-- Which certificate chains internal/mdocverify/certchain.go accepts.
use fikua_lab_idp.Prelude.{
  ℕ, ◌≡◌, ◌⊎◌, ◌↔◌, refl, inl, inr, true, false, Option, none, some, List, [], ◌∷◌, All, last_of,
  arith, Bool-cases, Option-cases,
}
use fikua_lab_idp.Action.{ok, Result-cases}
use fikua_lab_idp.Mdoc.Cose.{Library}
use fikua_lab_idp.Mdoc.Chain.{
  require_ca, verify_signed_by, is_self_signed, is_outside, all_in_force, all_linked, anchored,
  validate_cert_chain,
}

module _ {Cert EcKey : Type 0} (lib : Library Cert EcKey) where
  -- Each certificate is signed by the next, which is a CA.
  abbrev pub IsLinked : Cert → List Cert → Type 0
  IsLinked subject [] = Unit {0}
  IsLinked subject (issuer ∷ rest) =
      (lib.is_ca issuer ≡ true) × (lib.check_signature subject issuer ≡ none) × IsLinked issuer rest

  -- The top is the anchor or is signed by it, and the anchor is then a CA; with no anchor, any top.
  abbrev pub IsAnchored : Option Cert → Cert → Type 0
  IsAnchored none top = Unit {0}
  IsAnchored (some anchor) top =
      (lib.equal top anchor ≡ true)
      ⊎ ((lib.is_ca anchor ≡ true) × (lib.check_signature top anchor ≡ none))

  in_force_iff :
      (now : ℕ) (chain : List Cert)
      → (all_in_force lib now chain ≡ ok tt) ↔ All (λ c. is_outside lib now c ≡ false) chain
  unfolding all_in_force
  in_force_iff now [] = (λ h. tt, λ h. refl)
  in_force_iff now (c ∷ rest) =
      let ih = in_force_iff now rest in
      (λ h. (ground arith, ih.0 (ground arith)), λ h. ground (arith, h.0, ih.1 h.1))

  IsLinked-iff :
      (subject : Cert) (rest : List Cert)
      → (all_linked lib subject rest ≡ ok tt) ↔ IsLinked subject rest
  unfolding all_linked require_ca verify_signed_by
  IsLinked-iff subject [] = (λ h. tt, λ h. refl)
  IsLinked-iff subject (issuer ∷ rest) =
      let ih = IsLinked-iff issuer rest in
      (
        λ h. (
          ground arith,
          ground arith,
          ih.0 (ground (arith, Option-cases (lib.check_signature subject issuer))),
        ),
        λ h. ground (arith, h.0, h.1, ih.1 h.2),
      )

  anchored_iff :
      (anchor : Option Cert) (top : Cert)
      → (anchored lib anchor top ≡ ok tt) ↔ IsAnchored anchor top
  unfolding anchored require_ca verify_signed_by is_self_signed
  anchored_iff none top = (λ h. tt, λ h. ground (arith, Option-cases (lib.check_signature top top)))
  anchored_iff (some anchor) top = (
    λ h. elim (Bool-cases (lib.equal top anchor)) [
      | inl e ↦ inl e
      | inr e ↦ inr (ground arith, ground (arith, Option-cases (lib.check_signature top anchor)))
    ],
    λ h. elim h [ inl e ↦ ground arith | inr (a, b) ↦ ground (arith, a, b) ],
  )

  -- A certificate chain is accepted exactly where now is inside every certificate's validity, every
  -- certificate but the last is signed by the next, which is a CA, and, where an anchor is pinned,
  -- the last is the anchor or is signed by it and the anchor is a CA. With no anchor nothing is
  -- asked of the last.
  pub chain_valid_iff :
      (now : ℕ) (anchor : Option Cert) (leaf : Cert) (rest : List Cert)
      → (validate_cert_chain lib now anchor (leaf ∷ rest) ≡ ok tt) ↔ (
          All (λ c. is_outside lib now c ≡ false) (leaf ∷ rest)
          × IsLinked leaf rest
          × IsAnchored anchor (last_of leaf rest))
  unfolding validate_cert_chain
  chain_valid_iff now anchor leaf rest =
      let f = in_force_iff now (leaf ∷ rest) in
      let l = IsLinked-iff leaf rest in
      let a = anchored_iff anchor (last_of leaf rest) in
      (
        λ h. elim (Result-cases (all_in_force lib now (leaf ∷ rest))) [
          | inr (x, p) ↦ absurd (ground (arith, p))
          | inl (u, p) ↦ elim (Result-cases (all_linked lib leaf rest)) [
            | inr (x, q) ↦ absurd (ground (arith, p, q))
            | inl (w, q) ↦ (f.0 p, l.0 q, a.0 (ground (arith, p, q)))
          ]
        ],
        λ h. ground (arith, f.1 h.0, l.1 h.1, a.1 h.2),
      )
