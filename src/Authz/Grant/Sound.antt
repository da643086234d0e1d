-- ===== src/Authz/Grant/Sound.antt =====
-- Every answer of the token endpoint of internal/authz/service.go is a grant.
use fikua_lab_idp.Prelude.{ℕ, ◌≡◌, inl, inr, String, arith}
use fikua_lab_idp.Assoc.{text_at, get-put_self}
use fikua_lab_idp.Action.{ok, Result-cases}
use fikua_lab_idp.Session.Codes.{record_issued_jti}
use fikua_lab_idp.OAuth2.Token.{TokenRequest, TokenResponse, AccessTokenClaims, mint}
use fikua_lab_idp.Authz.Types.{Service, State}
use fikua_lab_idp.Authz.TokenGrant.{
  authenticate, redeem_code, check_bindings, handle_auth_code_token,
}
use fikua_lab_idp.Authz.Grant.{
  IsGrant, authenticate_sound, check_bindings_sound, redeem_code_sound, mint_sound,
}

module _ {Key Cert : Type 0} (svc : Service Key Cert) (now : ℕ) where
  module _ (nonce jti : String) (req : TokenRequest) (dpop wia pop : String) (s : State) where
    -- Every token response of `HandleAuthCodeToken` is a grant: the requester is an attested client
    -- with a fresh DPoP proof for this endpoint; the code was stored, for at most `auth_code_ttl`,
    -- with a session that holds the challenge of this verifier and, where the PAR endpoint bound a
    -- client or a DPoP key, this client and this key (an empty client or thumbprint in the session
    -- binds none); the token that is answered is signed for the
    -- session's record, this client and this key; and afterwards the code is gone and the token's
    -- identifier is recorded against it.
    pub handle_auth_code_token_sound :
        (response : TokenResponse)
        → (handle_auth_code_token svc now nonce jti req dpop wia pop s).0 ≡ ok response
        → IsGrant svc now nonce jti req dpop wia pop s
            (handle_auth_code_token svc now nonce jti req dpop wia pop s).1
            response
    unfolding handle_auth_code_token record_issued_jti
    handle_auth_code_token_sound response h =
        elim (Result-cases (authenticate svc now req dpop wia pop s).0) [
          | inr (e, p) ↦ absurd (ground arith)
          | inl (c, p) ↦
              let a = authenticate_sound svc now req dpop wia pop s c p in
              let s' = (authenticate svc now req dpop wia pop s).1 in
              elim (Result-cases (redeem_code svc now req.code s').0) [
                | inr (e, q) ↦ absurd (ground arith)
                | inl (d, q) ↦
                    let r = redeem_code_sound svc now req.code s' d q in
                    let s'' = (redeem_code svc now req.code s').1 in
                    elim (Result-cases
                      (check_bindings svc now c.0 c.1 req.code_verifier d.metadata)) [
                        | inr (e, b) ↦ absurd (ground arith)
                        | inl (u, b) ↦
                            let claims : AccessTokenClaims Key = record {
                              issuance_record_id = text_at "issuanceRecordId" d.metadata;
                              c_nonce = nonce;
                              client_id = c.0;
                              dpop_key = c.1;
                            } in
                            elim (Result-cases (mint svc.jose svc.minter now jti claims)) [
                              | inr (e, m) ↦ absurd (ground arith)
                              | inl (t, m) ↦
                                  let g = mint_sound svc now jti claims t m in
                                  record {
                                    client_id = c.0;
                                    key = c.1;
                                    thumbprint = g.0;
                                    signed = t.0;
                                    session = d;
                                    authenticated = a.0;
                                    code_given = r.0;
                                    code_held = ground (arith, r.1, a.1);
                                    code_live = r.2;
                                    bound =
                                        check_bindings_sound svc now c.0 c.1 req.code_verifier
                                          d.metadata u b;
                                    key_thumbprint = g.1;
                                    token_signed = g.2;
                                    answered = ground arith;
                                    code_gone = ground (arith, r.3);
                                    jti_recorded = ground (
                                      arith,
                                      get-put_self req.code jti s''.sessions.issued_jti_by_code,
                                      g.3,
                                    );
                                  }
                            ]
                      ]
              ]
        ]
