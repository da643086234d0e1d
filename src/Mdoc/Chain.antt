-- ===== src/Mdoc/Chain.antt =====
-- internal/mdocverify/certchain.go: an issuer's certificate chain.
use fikua_lab_idp.Prelude.{
  ℕ, String, Bool, true, false, not, ◌||◌, Option, none, some, List, [], ◌∷◌, ltb, last_of, ◌==◌,
  ◌<>◌, if◌then◌else◌,
}
use fikua_lab_idp.Action.{Result, ok, err}
use fikua_lab_idp.Fallible.{◌>>◌, reject_if}
use fikua_lab_idp.Mdoc.Cose.{Library}

module _ {Cert EcKey : Type 0} (lib : Library Cert EcKey) where
  unfoldable pub require_ca : Cert → Result String (Unit {0})
  require_ca cert =
      reject_if (not (lib.is_ca cert)) ("issuer certificate is not a CA: " <> lib.subject cert)

  unfoldable pub verify_signed_by : Cert → Cert → Result String (Unit {0})
  verify_signed_by subject issuer = elim (lib.check_signature subject issuer) [
    | none ↦ ok tt
    | some reason ↦ err (
        "certificate "
        <> lib.subject subject
        <> " is not signed by "
        <> lib.subject issuer
        <> ": "
        <> reason)
  ]

  unfoldable pub is_self_signed : Cert → Bool
  is_self_signed cert =
      if lib.subject cert == lib.issuer cert
      then (elim (lib.check_signature cert cert) [ none ↦ true | some reason ↦ false ])
      else false

  abbrev pub is_outside : ℕ → Cert → Bool
  is_outside now cert = ltb now (lib.not_before cert) || ltb (lib.not_after cert) now

  -- The loop over the validity windows.
  unfoldable pub all_in_force : ℕ → List Cert → Result String (Unit {0})
  all_in_force now [] = ok tt
  all_in_force now (cert ∷ rest) =
      let others = all_in_force now rest in
      if is_outside now cert
      then err ("certificate not valid (expired or not yet valid): " <> lib.subject cert)
      else others

  -- The loop over each certificate and the next.
  unfoldable pub all_linked : Cert → List Cert → Result String (Unit {0})
  unfolding require_ca verify_signed_by
  all_linked subject [] = ok tt
  all_linked subject (issuer ∷ rest) = do
    require_ca issuer
    verify_signed_by subject issuer
    all_linked issuer rest

  -- The top of the chain, under the anchor or under itself.
  unfoldable pub anchored : Option Cert → Cert → Result String (Unit {0})
  unfolding require_ca verify_signed_by is_self_signed
  anchored (some anchor) top =
      if lib.equal top anchor then ok tt else (require_ca anchor >> verify_signed_by top anchor)
  anchored none top = if is_self_signed top then verify_signed_by top top else ok tt

  unfoldable pub validate_cert_chain : ℕ → Option Cert → List Cert → Result String (Unit {0})
  unfolding all_in_force all_linked anchored
  validate_cert_chain now trust_anchor [] = err "empty certificate chain"
  validate_cert_chain now trust_anchor (leaf ∷ rest) = do
    all_in_force now (leaf ∷ rest)
    all_linked leaf rest
    anchored trust_anchor (last_of leaf rest)
