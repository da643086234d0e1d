-- ===== src/Authz/TokenGrant.antt =====
-- internal/authz/service.go: `HandleAuthCodeToken`, the token endpoint, and the denylist's one.
use fikua_lab_idp.Prelude.{ℕ, String, not, ◌&&◌, ◌||◌, List, ◌/=◌, is_empty, ◌<>◌, if◌then◌else◌}
use fikua_lab_idp.Assoc.{Assoc, text_at}
use fikua_lab_idp.Action.{Result, ok, err, pure, fail, lift, reject_if, ◌>>=◌, ◌>>◌}
use fikua_lab_idp.Session.Types.{Data}
use fikua_lab_idp.Session.Codes.{
  Consumed, redeemed, refused, consume_auth_code, record_issued_jti, revoke_tokens_for_code,
  revoked_jtis_list,
}
use fikua_lab_idp.OAuth2.Error.{Exception, bad_request, unauthorized, invalid_grant, invalid_client}
use fikua_lab_idp.OAuth2.Dpop.{validate_dpop_proof}
use fikua_lab_idp.OAuth2.Attestation.{resolve, thumbprint_is}
use fikua_lab_idp.OAuth2.Token.{TokenRequest, TokenResponse, mint, dpop_token, verify_pkce_s256}
use fikua_lab_idp.Authz.Types.{
  Service, Endpoint, invalid, on_jtis, on_sessions, update_sessions, bound_client_id_key,
}

abbrev pub ungranted : String → Exception
ungranted description = bad_request invalid_grant description

abbrev minted : Result String (String × String) → Result Exception (String × String)
minted (ok signed) = ok signed
minted (err reason) = err (invalid ("Failed to mint access token: " <> reason))

-- The session of a redeemed code; a reused code revokes the token minted from it.
abbrev session_of : String → ℕ → Consumed → Endpoint Data
session_of code now (redeemed session) = pure session
session_of code now (refused reused) = do
  update_sessions (λ s. if reused then revoke_tokens_for_code code now s else s)
  fail (ungranted "Invalid authorization code")

module _ {Key Cert : Type 0} (svc : Service Key Cert) (now : ℕ) where
  -- Client attestation and DPoP proof: the attested client and the proof's key.
  unfoldable pub authenticate : TokenRequest → String → String → String → Endpoint (String × Key)
  authenticate req dpop_header wia_header pop_header = do
    client_id ← lift (
        resolve svc.jose svc.attestations now wia_header pop_header req.client_assertion_type
          req.client_assertion)
    reject_if (is_empty client_id) (invalid "Client attestation is required")
    reject_if (not (is_empty req.client_id) && (req.client_id /= client_id))
        (unauthorized invalid_client "client_id does not match the attested client")
    dpop_key ← on_jtis (
        validate_dpop_proof svc.jose svc.visit now dpop_header "POST"
          (svc.base_url <> "/oid4vci/v1/token") "")
    pure (client_id, dpop_key)

  unfoldable pub redeem_code : String → Endpoint Data
  redeem_code code = do
    reject_if (is_empty code) (ungranted "Missing authorization code")
    consumed ← on_sessions (consume_auth_code code now)
    session_of code now consumed

  -- The bindings of the code: to the client, to the DPoP key and to the PKCE verifier.
  unfoldable pub check_bindings : String → Key → String → Assoc String → Result Exception (Unit {0})
  check_bindings client_id dpop_key code_verifier metadata =
      if not (is_empty (text_at bound_client_id_key metadata))
        && (text_at bound_client_id_key metadata /= client_id)
      then err (ungranted "Authorization code was not issued to this client")
      else if not (is_empty (text_at "dpop_jkt" metadata))
          && not
              (thumbprint_is svc.jose (svc.jose.thumbprint dpop_key) (text_at "dpop_jkt" metadata))
      then err (ungranted "DPoP proof key does not match the one bound at the PAR endpoint")
      else if is_empty code_verifier
      then err (ungranted "Missing code_verifier")
      else if is_empty (text_at "code_challenge" metadata)
          || not (verify_pkce_s256 svc.jose code_verifier (text_at "code_challenge" metadata))
      then err (ungranted "PKCE verification failed")
      else ok tt

  -- `nonce` is what `GenerateNonce` draws, and `jti` what `RandomJTI` draws.
  unfoldable pub handle_auth_code_token :
      String → String → TokenRequest → String → String → String → Endpoint TokenResponse
  handle_auth_code_token nonce jti req dpop_header wia_header pop_header = do
    client ← authenticate req dpop_header wia_header pop_header
    session ← redeem_code req.code
    lift (check_bindings client.0 client.1 req.code_verifier session.metadata)
    token ← lift (
        minted (
          mint svc.jose svc.minter now jti (record {
            issuance_record_id = text_at "issuanceRecordId" session.metadata;
            c_nonce = nonce;
            client_id = client.0;
            dpop_key = client.1;
          })))
    update_sessions (record_issued_jti req.code token.1)
    pure (dpop_token token.0)

unfoldable pub revoked_jtis : ℕ → Endpoint (List String)
revoked_jtis now = on_sessions (revoked_jtis_list now)
