-- ===== src/Authz/Grant.antt =====
-- What the token endpoint of internal/authz/service.go grants, and what it does on reuse of a code.
pub mod Sound
use fikua_lab_idp.Prelude.{
  ℕ, ◌-◌, ◌≤◌, ◌≡◌, ap, ◌≢◌, ◌⊎◌, inl, inr, String, true, none, some, arith, eq_iff, is_empty, ◌<>◌,
  Option-cases, Bool-cases,
}
use fikua_lab_idp.Assoc.{Assoc, get, text_at, get-put_self, get-delete_self}
use fikua_lab_idp.Action.{Result, ok, err, Result-cases}
use fikua_lab_idp.Session.Types.{Data, auth_code_ttl}
use fikua_lab_idp.Session.Codes.{consume_auth_code, record_issued_jti}
use fikua_lab_idp.OAuth2.Attestation.{resolve, thumbprint_is}
use fikua_lab_idp.OAuth2.Dpop.{validate_dpop_proof}
use fikua_lab_idp.OAuth2.Dpop.Laws.{IsAccepted, validate_dpop_proof_sound}
use fikua_lab_idp.OAuth2.Token.{
  TokenRequest, TokenResponse, AccessTokenClaims, access_token, mint, dpop_token, verify_pkce_s256,
}
use fikua_lab_idp.Authz.Types.{Service, State, bound_client_id_key}
use fikua_lab_idp.Authz.TokenGrant.{
  authenticate, redeem_code, check_bindings, handle_auth_code_token,
}

module _ {Key Cert : Type 0} (svc : Service Key Cert) (now : ℕ) where
  -- The requester is an attested client, and holds the key of a fresh proof for this endpoint.
  pub record IsAuthenticated (req : TokenRequest) (dpop wia pop : String) (s : State)
      (client_id : String) (key : Key) : Type 0 where
    pub attested :
        resolve svc.jose svc.attestations now wia pop req.client_assertion_type req.client_assertion
        ≡ ok client_id
    pub not_anonymous : client_id ≢ ""
    pub claims_itself : (req.client_id ≡ "") ⊎ (req.client_id ≡ client_id)
    pub proof :
        IsAccepted svc.jose dpop "POST" (svc.base_url <> "/oid4vci/v1/token") "" now s.jtis key

  authenticate_sound :
      (req : TokenRequest) (dpop wia pop : String) (s : State) (c : String × Key)
      → (authenticate svc now req dpop wia pop s).0 ≡ ok c
      → IsAuthenticated req dpop wia pop s c.0 c.1
        × ((authenticate svc now req dpop wia pop s).1.sessions ≡ s.sessions)
  unfolding authenticate
  authenticate_sound req dpop wia pop s (client_id, key) h =
      let proof =
        validate_dpop_proof svc.jose svc.visit now dpop "POST" (svc.base_url <> "/oid4vci/v1/token")
          "" s.jtis in
      elim (Result-cases (
        resolve svc.jose svc.attestations now wia pop req.client_assertion_type
          req.client_assertion)) [
            | inr (e, r) ↦ absurd (ground arith)
            | inl (c, r) ↦ elim (Result-cases proof.0) [
              | inr (e, p) ↦ absurd (ground arith)
              | inl (k, p) ↦ (
                record {
                  attested = ground arith;
                  not_anonymous = ground (arith, eq_iff client_id "");
                  claims_itself =
                      ground (arith, eq_iff req.client_id "", eq_iff req.client_id client_id);
                  proof =
                      validate_dpop_proof_sound svc.jose svc.visit now dpop "POST"
                        (svc.base_url <> "/oid4vci/v1/token") "" s.jtis key (ground arith);
                },
                ground arith,
              )
            ]
          ]

  -- The code's session was issued to this client, for this DPoP key (where one was bound at the PAR
  -- endpoint), and for the challenge of this verifier.
  pub record IsBound (client_id : String) (key : Key) (verifier : String) (metadata : Assoc String)
      : Type 0 where
    pub same_client :
        (text_at bound_client_id_key metadata ≡ "")
        ⊎ (text_at bound_client_id_key metadata ≡ client_id)
    pub same_key :
        (text_at "dpop_jkt" metadata ≡ "")
        ⊎ (svc.jose.thumbprint key ≡ ok (text_at "dpop_jkt" metadata))
    pub has_verifier : verifier ≢ ""
    pub has_challenge : text_at "code_challenge" metadata ≢ ""
    pub same_challenge : svc.jose.sha256 verifier ≡ text_at "code_challenge" metadata

  thumbprint_is_sound :
      (r : Result String String) (jkt : String) → thumbprint_is svc.jose r jkt ≡ true → r ≡ ok jkt
  thumbprint_is_sound (ok t) jkt h = ap ok ((eq_iff t jkt).0 h)
  thumbprint_is_sound (err e) jkt h = cc

  check_bindings_sound :
      (client_id : String) (key : Key) (verifier : String) (metadata : Assoc String) (u : Unit {0})
      → check_bindings svc now client_id key verifier metadata ≡ ok u
      → IsBound client_id key verifier metadata
  unfolding check_bindings verify_pkce_s256
  check_bindings_sound client_id key verifier metadata u h =
      let jkt = text_at "dpop_jkt" metadata in
      let challenge = text_at "code_challenge" metadata in
      record {
        same_client = ground (
          arith,
          eq_iff (text_at bound_client_id_key metadata) "",
          eq_iff (text_at bound_client_id_key metadata) client_id,
        );
        same_key = elim (Bool-cases (is_empty jkt)) [
          | inl unbound ↦ inl ((eq_iff jkt "").0 unbound)
          | inr named ↦ inr (thumbprint_is_sound (svc.jose.thumbprint key) jkt (ground arith))
        ];
        has_verifier = ground (arith, eq_iff verifier "");
        has_challenge = ground (arith, eq_iff challenge "");
        same_challenge = ground (arith, eq_iff (svc.jose.sha256 verifier) challenge);
      }

  redeem_code_sound :
      (code : String) (s : State) (d : Data)
      → (redeem_code svc now code s).0 ≡ ok d
      → (code ≢ "")
        × (get code s.sessions.auth_codes ≡ some d)
        × (now - d.created_at ≤ auth_code_ttl)
        × (get code (redeem_code svc now code s).1.sessions.auth_codes ≡ none)
  unfolding redeem_code consume_auth_code
  redeem_code_sound code s d h = elim (Option-cases (get code s.sessions.auth_codes)) [
    | inl e ↦ absurd (ground arith)
    | inr (held, e) ↦ (
      ground (arith, eq_iff code ""),
      ground arith,
      ground arith,
      ground (arith, get-delete_self code s.sessions.auth_codes),
    )
  ]

  mint_sound :
      (jti : String) (claims : AccessTokenClaims Key) (t : String × String)
      → mint svc.jose svc.minter now jti claims ≡ ok t
      → (thumbprint : String) × (svc.jose.thumbprint claims.dpop_key ≡ ok thumbprint)
        × (svc.minter.sign (access_token svc.jose svc.minter now jti thumbprint claims) ≡ ok t.0)
        × (t.1 ≡ jti)
  unfolding mint
  mint_sound jti claims t h = elim (Result-cases (svc.jose.thumbprint claims.dpop_key)) [
    | inr (e, k) ↦ absurd (ground arith)
    | inl (thumbprint, k) ↦
        let token = access_token svc.jose svc.minter now jti thumbprint claims in
        elim (Result-cases (svc.minter.sign token)) [
          | inr (e, g) ↦ absurd (ground arith)
          | inl (signed, g) ↦ (thumbprint, k, ground arith, ground arith)
        ]
  ]

  -- A token response is a grant: an authenticated client redeemed a live code, of which all bindings
  -- hold, for a token with that session's record, client and key; the code is gone and the token's
  -- identifier is recorded against it.
  pub record IsGrant (nonce jti : String) (req : TokenRequest) (dpop wia pop : String) (s t : State)
      (response : TokenResponse) : Type 0 where
    pub client_id : String
    pub key : Key
    pub thumbprint : String
    pub signed : String
    pub session : Data
    pub authenticated : IsAuthenticated req dpop wia pop s client_id key
    pub code_given : req.code ≢ ""
    pub code_held : get req.code s.sessions.auth_codes ≡ some session
    pub code_live : now - session.created_at ≤ auth_code_ttl
    pub bound : IsBound client_id key req.code_verifier session.metadata
    pub key_thumbprint : svc.jose.thumbprint key ≡ ok thumbprint
    pub token_signed :
        svc.minter.sign (
          access_token svc.jose svc.minter now jti thumbprint (record {
            issuance_record_id = text_at "issuanceRecordId" session.metadata;
            c_nonce = nonce;
            client_id = client_id;
            dpop_key = key;
          }))
        ≡ ok signed
    pub answered : response ≡ dpop_token signed
    pub code_gone : get req.code t.sessions.auth_codes ≡ none
    pub jti_recorded : get req.code t.sessions.issued_jti_by_code ≡ some jti
