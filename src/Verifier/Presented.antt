-- ===== src/Verifier/Presented.antt =====
-- internal/verifier/service.go with internal/sdjwtverify/verify.go: what an accepted response presents.
use fikua_lab_idp.Prelude.{ℕ, ◌≡◌, String, Option, some}
use fikua_lab_idp.Assoc.{Assoc, get}
use fikua_lab_idp.Json.{Json}
use fikua_lab_idp.Action.{Result}
use fikua_lab_idp.Session.Types.{VerificationSession, DcqlCredentialQuery}
use fikua_lab_idp.Verifier.Types.{Service, Presentations, SdJwtResult}
use fikua_lab_idp.SdJwt.{Library}
use fikua_lab_idp.SdJwt.Check.{verify_with_status}
use fikua_lab_idp.SdJwt.Sound.{IsPresented}

abbrev pub MdocVerify : Type 0
MdocVerify = String → String → String → String → Option String → String → Result String (Assoc Json)

-- `sdjwtverify.VerifyWithStatus` at a time, beside a `mdocverify.Verify`.
abbrev pub presentations_at :
    {Key Cert EcKey : Type 0} → Library Key Cert EcKey → MdocVerify → ℕ → Presentations Key
presentations_at lib mdoc now = record {
  verify_with_status = verify_with_status lib now;
  verify_mdoc = mdoc;
}

module _ {Key Cert EcKey : Type 0} (lib : Library Key Cert EcKey) (svc : Service Key) where
  -- The presentation given for a query, as `sdjwtverify` accepted it, with the claims and the holder
  -- key that are kept for the query.
  pub record IsAnswered (now : ℕ) (v : VerificationSession) (vp_tokens : Assoc String)
      (claims : Assoc (Assoc Json)) (holder_keys : Assoc Key) (cred : DcqlCredentialQuery)
      : Type 0 where
    pub vp_token : String
    pub result : SdJwtResult Key
    pub given : get cred.id vp_tokens ≡ some vp_token
    pub presented : IsPresented lib now vp_token v.client_id v.nonce result
    pub has_claims : get cred.id claims ≡ some result.claims
    pub has_key : get cred.id holder_keys ≡ result.holder_key
