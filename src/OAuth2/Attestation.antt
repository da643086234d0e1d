-- ===== src/OAuth2/Attestation.antt =====
-- internal/oauth2/clientattestation.go: wallet attestations (WIA) and their proofs of possession.
pub mod BoundKey
pub mod Laws
use fikua_lab_idp.Prelude.{
  ℕ, ◌*◌, String, Bool, true, false, not, ◌&&◌, Option, none, some, List, [], ◌∷◌, ltb, nat_eq,
  ◌==◌, ◌/=◌, is_empty, ◌<>◌, if◌then◌else◌, elem, minute,
}
use fikua_lab_idp.Texts.{split}
use fikua_lab_idp.Assoc.{Assoc, get}
use fikua_lab_idp.Json.{Json, as_text}
use fikua_lab_idp.Action.{Result, ok, err}
use fikua_lab_idp.Fallible.{or_fail, reject_if, ◌>>=◌, ◌>>◌}
use fikua_lab_idp.OAuth2.Error.{Exception, unauthorized, invalid_client, invalid_client_attestation}
use fikua_lab_idp.OAuth2.Jose.{Jose, Message, Claims}
use fikua_lab_idp.OAuth2.Dpop.{outside}

abbrev pub client_assertion_type : String
client_assertion_type = "urn:ietf:params:oauth:client-assertion-type:jwt-client-attestation"

abbrev pub client_attestation_iat_window : ℕ
client_attestation_iat_window = 5 * minute

pub record Validator (Cert : Type 0) : Type 0 where
  pub wallet_provider_anchor : Option Cert
  pub expected_audience : String

abbrev pub refuse : String → Exception
refuse description = unauthorized invalid_client description

-- `exp, hasExp := …; hasExp && time.Now().After(exp)`
abbrev pub has_expired : ℕ → Option ℕ → Bool
has_expired now none = false
has_expired now (some exp) = ltb exp now

-- The same for `iat` and the window.
abbrev pub is_stale : ℕ → Option ℕ → Bool
is_stale now none = false
is_stale now (some iat) = outside client_attestation_iat_window now iat

-- The subject, or the `client_id` claim where the subject is missing or empty.
unfoldable pub attested_client : Claims → String
attested_client token = elim token.subject [
  | none ↦ token.claim "client_id"
  | some subject ↦ if is_empty subject then token.claim "client_id" else subject
]

module _ {Key Cert : Type 0} (jose : Jose Key Cert) where
  abbrev untrusted : Cert → Option Cert → Bool
  untrusted leaf none = false
  untrusted leaf (some anchor) = not (jose.signed_by leaf anchor)

  -- `resolveWiaKey` where the header has a certificate chain.
  unfoldable pub leaf_key : Option Cert → String → Result Exception Key
  leaf_key anchor leaf_b64 = do
    leaf ←
        or_fail (jose.parse_certificate leaf_b64)
          (refuse "Invalid client attestation: malformed x5c leaf certificate")
    reject_if (untrusted leaf anchor) (refuse "WIA is not issued by a trusted Wallet Provider")
    or_fail (jose.ec_key leaf)
        (refuse "Cannot verify WIA signature: leaf certificate is not an EC key")

  unfoldable pub resolve_wia_key : Validator Cert → Message Key → Result Exception Key
  resolve_wia_key v headers = elim headers.x5c [
    | leaf_b64 ∷ rest ↦ leaf_key v.wallet_provider_anchor leaf_b64
    | [] ↦ or_fail headers.jwk (refuse "Cannot verify WIA signature: no x5c or jwk in header")
  ]

  missing_cnf : Exception
  missing_cnf = refuse "WIA missing cnf key for PoP verification"

  jkt_mismatch : Exception
  jkt_mismatch = refuse "PoP key thumbprint does not match WIA cnf.jkt"

  -- `jkt, _ := cnf["jkt"].(string)`
  unfoldable pub declared_jkt : Assoc Json → String
  declared_jkt cnf = elim (get "jkt" cnf) [
    | none ↦ ""
    | some raw ↦ elim (as_text raw) [ none ↦ "" | some jkt ↦ jkt ]
  ]

  abbrev single_signature : Result String (Message Key) → Option (Message Key)
  single_signature (err reason) = none
  single_signature (ok msg) = if nat_eq msg.signatures 1 then some msg else none

  abbrev pub thumbprint_is : Result String String → String → Bool
  thumbprint_is (err reason) jkt = false
  thumbprint_is (ok thumbprint) jkt = thumbprint == jkt

  -- `resolveCnfKey` where the WIA declares a thumbprint.
  unfoldable pub key_by_thumbprint : String → String → Result Exception Key
  unfolding missing_cnf jkt_mismatch
  key_by_thumbprint jkt pop_jwt = do
    reject_if (is_empty jkt) missing_cnf
    msg ← or_fail (single_signature (jose.parse pop_jwt)) missing_cnf
    key ← or_fail msg.jwk jkt_mismatch
    reject_if (not (thumbprint_is (jose.thumbprint key) jkt)) jkt_mismatch
    ok key

  unfoldable pub resolve_cnf_key : Claims → String → Result Exception Key
  unfolding missing_cnf
  resolve_cnf_key wia_token pop_jwt = do
    cnf ← or_fail wia_token.cnf missing_cnf
    elim (get "jwk" cnf) [
      | some raw ↦ or_fail (jose.parse_key raw) missing_cnf
      | none ↦ key_by_thumbprint (declared_jkt cnf) pop_jwt
    ]

  abbrev parsed : Result String (Message Key) → Result Exception (Message Key)
  parsed (ok msg) = ok msg
  parsed (err reason) = err (refuse ("Invalid client attestation: " <> reason))

  -- The WIA's half: its claims, once its signature and its age are checked.
  unfoldable pub validate_wia : Validator Cert → ℕ → String → Result Exception Claims
  validate_wia v now wia_jwt = do
    wia_msg ← parsed (jose.parse wia_jwt)
    reject_if (not (nat_eq wia_msg.signatures 1))
        (refuse "Invalid client attestation: expected exactly one signature")
    wia_key ← resolve_wia_key v wia_msg
    wia_token ←
        or_fail (jose.verify wia_jwt wia_key)
          (refuse "Client Attestation JWT signature verification failed")
    reject_if (has_expired now wia_token.expiration) (refuse "Client Attestation JWT has expired")
    ok wia_token

  -- The checks of the claims of the proof of possession.
  unfoldable pub check_pop : Validator Cert → ℕ → Claims → Result Exception (Unit {0})
  check_pop v now pop_token = do
    reject_if
        (not (is_empty v.expected_audience) && not (elem v.expected_audience pop_token.audience))
        (unauthorized invalid_client_attestation
          "PoP JWT aud does not match this authorization server")
    reject_if (is_stale now pop_token.issued_at) (refuse "PoP JWT expired (iat too old)")
    reject_if (has_expired now pop_token.expiration) (refuse "PoP JWT has expired")

  unfoldable pub validate_wia_and_pop :
      Validator Cert → ℕ → String → String → Result Exception String
  validate_wia_and_pop v now wia_jwt pop_jwt = do
    wia_token ← validate_wia v now wia_jwt
    cnf_key ← resolve_cnf_key wia_token pop_jwt
    pop_token ← or_fail (jose.verify pop_jwt cnf_key) (refuse "PoP signature verification failed")
    check_pop v now pop_token
    ok (attested_client wia_token)

  unfoldable pub validate_headers : Validator Cert → ℕ → String → String → Result Exception String
  validate_headers v now wia_jwt pop_jwt =
      if is_empty wia_jwt && is_empty pop_jwt
      then ok ""
      else if is_empty wia_jwt
      then err (refuse "Missing OAuth-Client-Attestation header")
      else if is_empty pop_jwt
      then err (refuse "Missing OAuth-Client-Attestation-PoP header")
      else validate_wia_and_pop v now wia_jwt pop_jwt

  -- The parts of a `client_assertion`, which must be two.
  abbrev validate_parts : Validator Cert → ℕ → List String → Result Exception String
  validate_parts v now (wia ∷ pop ∷ []) = validate_wia_and_pop v now wia pop
  validate_parts v now _ =
      err (refuse "client_assertion must contain WIA~PoP (two JWTs separated by ~)")

  unfoldable pub validate_form : Validator Cert → ℕ → String → String → Result Exception String
  validate_form v now assertion_type assertion =
      if is_empty assertion_type && is_empty assertion
      then ok ""
      else if assertion_type /= client_assertion_type
      then err (refuse ("Unsupported client_assertion_type: " <> assertion_type))
      else if is_empty assertion
      then err (refuse "Missing client_assertion")
      else validate_parts v now (split "~" assertion)

  unfoldable pub resolve :
      Validator Cert → ℕ → String → String → String → String → Result Exception String
  resolve v now wia_header pop_header assertion_type assertion =
      elim (validate_headers v now wia_header pop_header) [
        | err e ↦ err e
        | ok client_id ↦
            if is_empty client_id
            then validate_form v now assertion_type assertion
            else ok client_id
      ]
