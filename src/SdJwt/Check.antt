-- ===== src/SdJwt/Check.antt =====
-- internal/sdjwtverify/verify.go: the checks of a presentation.
use fikua_lab_idp.Prelude.{
  ℕ, String, Bool, false, not, Option, none, some, List, [], ◌∷◌, nat_eq, ◌==◌, ◌/=◌, is_empty,
  ◌<>◌, if◌then◌else◌, elem,
}
use fikua_lab_idp.Texts.{up_to_last}
use fikua_lab_idp.Assoc.{Assoc, get, put}
use fikua_lab_idp.Json.{Json, object_at, as_text, as_array}
use fikua_lab_idp.Action.{Result, ok, err}
use fikua_lab_idp.Fallible.{◌>>=◌, ◌>>◌, or_fail, reject_if, wrapped}
use fikua_lab_idp.OAuth2.Dpop.{outside}
use fikua_lab_idp.Verifier.Types.{SdJwtResult}
use fikua_lab_idp.SdJwt.{
  Library, KbToken, IssuerMessage, PresentationParts, Disclosure, kb_iat_skew, parse, digest,
  status_of,
}

-- The loop that collects the digests of `_sd`: its texts.
unfoldable pub texts_of : List Json → List String
texts_of [] = []
texts_of (entry ∷ entries) =
    let rest = texts_of entries in elim (as_text entry) [ none ↦ rest | some s ↦ s ∷ rest ]

unfoldable pub committed_digests : Assoc Json → List String
unfolding texts_of
committed_digests issuer_claims = elim (get "_sd" issuer_claims) [
  | none ↦ []
  | some value ↦ elim (as_array value) [ none ↦ [] | some entries ↦ texts_of entries ]
]

-- The loop that builds the map of claims: a later disclosure of a name replaces an earlier one.
unfoldable pub claims_from : List Disclosure → Assoc Json → Assoc Json
claims_from [] claims = claims
claims_from (d ∷ ds) claims = claims_from ds (put d.claim_name d.claim_value claims)

-- `aud, ok := token.Audience(); !ok || len(aud) == 0 || aud[0] != expectedAud`
abbrev pub is_for : String → Option (List String) → Bool
is_for expected_aud none = false
is_for expected_aud (some []) = false
is_for expected_aud (some (aud ∷ rest)) = aud == expected_aud

module _ {Key Cert EcKey : Type 0} (lib : Library Key Cert EcKey) where
  abbrev payload_status : IssuerMessage → Assoc Json
  payload_status msg = elim (lib.unmarshal_object msg.payload) [
    | err reason ↦ []
    | ok claims ↦ status_of claims
  ]

  unfoldable pub unverified_status_claim : String → Assoc Json
  unverified_status_claim issuer_jwt = elim (lib.parse_jws issuer_jwt) [
    | err reason ↦ []
    | ok msg ↦ payload_status msg
  ]

  abbrev leaf_of : Option (List String) → Option String
  leaf_of none = none
  leaf_of (some []) = none
  leaf_of (some (leaf ∷ rest)) = some leaf

  -- The public key of the leaf certificate. A chain that is not empty has a leaf, so the refusal of
  -- an unreadable one is never met.
  unfoldable pub issuer_key : IssuerMessage → Result String EcKey
  issuer_key msg = do
    leaf ← or_fail (leaf_of msg.x5c) "issuer JWT has no x5c certificate"
    der ← wrapped "issuer JWT x5c leaf is not valid base64: " (lib.decode_base64 leaf)
    cert ← wrapped "issuer JWT x5c leaf is not a valid certificate: " (lib.parse_certificate der)
    elim (lib.ec_key cert) [
      | err kind ↦ err ("issuer certificate public key is " <> kind <> ", not EC")
      | ok key ↦ ok key
    ]

  unfoldable pub verify_issuer_signature : String → Result String (Assoc Json)
  unfolding issuer_key
  verify_issuer_signature issuer_jwt = do
    msg ← wrapped "malformed issuer JWT: " (lib.parse_jws issuer_jwt)
    reject_if (not (nat_eq msg.signatures 1)) "issuer JWT must carry exactly one signature"
    key ← issuer_key msg
    payload ← or_fail (lib.verify_jws issuer_jwt key) "issuer JWT signature is invalid"
    wrapped "issuer JWT payload is not a JSON object: " (lib.unmarshal_object payload)

  -- The loop over the disclosures.
  unfoldable pub check_digests : List Disclosure → List String → Result String (Unit {0})
  check_digests [] committed = ok tt
  check_digests (d ∷ ds) committed =
      let others = check_digests ds committed in
      if elem (digest lib d) committed
      then others
      else err ("disclosure " <> lib.quote d.claim_name <> " digest not found in _sd")

  unfoldable pub verify_disclosure_digests : List Disclosure → Assoc Json → Result String (Unit {0})
  verify_disclosure_digests disclosures issuer_claims =
      check_digests disclosures (committed_digests issuer_claims)

  unfoldable pub compute_sd_hash : String → String
  compute_sd_hash presentation = elim (up_to_last "~" presentation) [
    | none ↦ ""
    | some front ↦ lib.sha256_base64_url front
  ]

  -- `cnf.jwk`, as a key.
  unfoldable pub cnf_key : Assoc Json → Result String Key
  cnf_key issuer_claims = do
    cnf ← or_fail (object_at "cnf" issuer_claims) "issuer JWT has no cnf for key binding"
    cnf_jwk ← or_fail (object_at "jwk" cnf) "issuer JWT has no cnf.jwk for key binding"
    cnf_json ← wrapped "issuer JWT cnf.jwk is unreadable: " (lib.marshal_object cnf_jwk)
    wrapped "issuer JWT cnf.jwk is not a valid JWK: " (lib.parse_key cnf_json)

  -- The checks of the claims of the KB-JWT.
  unfoldable pub check_kb_claims : ℕ → KbToken → String → String → String → Result String (Unit {0})
  unfolding compute_sd_hash
  check_kb_claims now token presentation expected_aud expected_nonce = do
    reject_if (not (is_for expected_aud token.audience))
        ("KB-JWT aud does not match client_id " <> lib.quote expected_aud)
    reject_if (token.claim "nonce" /= expected_nonce)
        "KB-JWT nonce does not match the request nonce"
    reject_if (token.claim "sd_hash" /= compute_sd_hash presentation)
        "KB-JWT sd_hash does not match the presentation"
    iat ← or_fail token.issued_at "KB-JWT is missing iat"
    reject_if (outside kb_iat_skew now iat)
        ("KB-JWT iat is outside the acceptable window (skew " <> lib.skew_text now iat <> ")")

  unfoldable pub verify_key_binding :
      ℕ → PresentationParts → Assoc Json → String → String → String → Result String Key
  unfolding cnf_key check_kb_claims
  verify_key_binding now parsed issuer_claims presentation expected_aud expected_nonce = do
    reject_if (is_empty parsed.kb_jwt) "Key Binding JWT is missing"
    key ← cnf_key issuer_claims
    token ← or_fail (lib.verify_jwt parsed.kb_jwt key) "Key Binding JWT signature is invalid"
    check_kb_claims now token presentation expected_aud expected_nonce
    ok key

  -- The checks after `parse`: the issuer's claims and the holder's key.
  unfoldable pub verify_parsed :
      ℕ → PresentationParts → String → String → String → Result String (Assoc Json × Key)
  unfolding verify_issuer_signature verify_disclosure_digests verify_key_binding
  verify_parsed now parsed presentation expected_aud expected_nonce = do
    issuer_claims ← verify_issuer_signature parsed.issuer_jwt
    verify_disclosure_digests parsed.disclosures issuer_claims
    key ← verify_key_binding now parsed issuer_claims presentation expected_aud expected_nonce
    ok (issuer_claims, key)

  abbrev failed : Assoc Json → SdJwtResult Key
  failed status = record { claims = []; status = status; holder_key = none }

  abbrev verified_or_status :
      PresentationParts → Result String (Assoc Json × Key) → SdJwtResult Key × Option String
  verified_or_status parsed (err reason) =
      (failed (unverified_status_claim parsed.issuer_jwt), some reason)
  verified_or_status parsed (ok (issuer_claims, key)) = (
    record {
      claims = claims_from parsed.disclosures [];
      status = status_of issuer_claims;
      holder_key = some key;
    },
    none,
  )

  unfoldable pub verify_with_status : ℕ → String → String → String → SdJwtResult Key × Option String
  unfolding verify_parsed unverified_status_claim claims_from
  verify_with_status now presentation expected_aud expected_nonce = elim (parse lib presentation) [
    | err reason ↦ (failed [], some reason)
    | ok parsed ↦
        verified_or_status parsed
          (verify_parsed now parsed presentation expected_aud expected_nonce)
  ]

  unfoldable pub verify : ℕ → String → String → String → Assoc Json × Option String
  unfolding verify_with_status
  verify now presentation expected_aud expected_nonce =
      let (result, error) = verify_with_status now presentation expected_aud expected_nonce in
      (result.claims, error)
