-- ===== src/Verifier/Served.antt =====
-- The request that internal/verifier/service.go serves for a session that it created.
use fikua_lab_idp.Prelude.{ℕ, ◌-◌, ◌≤◌, ◌≡◌, refl, String, List, some, arith, inl, inr}
use fikua_lab_idp.Assoc.{get, get-put_self}
use fikua_lab_idp.Action.{ok, Result-cases}
use fikua_lab_idp.Session.Types.{Store, VerificationSession, verification_session_ttl}
use fikua_lab_idp.Session.Verifications.{store_verification, find_verification}
use fikua_lab_idp.Verifier.Types.{Service, CredentialRequest, CreateSessionResult}
use fikua_lab_idp.Verifier.Tokens.{build_dcql_query}
use fikua_lab_idp.Verifier.Response.{get_request_object}
use fikua_lab_idp.Verifier.Create.{
  Signer, Draws, AuthorizationRequest, cert_hash, new_key, build_client_metadata,
  authorization_request, new_session, create_session,
}

module _ {Key : Type 0} (svc : Service Key) (signer : Signer) where
  -- What a created session leaves: a stored, pending session with the request's state, nonce and
  -- query, whose request is signed.
  pub record IsCreated (now : ℕ) (draws : Draws) (credentials : List CredentialRequest) (t : Store)
      (r : CreateSessionResult) : Type 0 where
    pub request : AuthorizationRequest
    pub v : VerificationSession
    pub signed : signer.sign request ≡ ok v.request_jwt
    pub stored : get r.session_id t.verifications ≡ some v
    pub same_nonce : (request.nonce ≡ draws.nonce) × (v.nonce ≡ draws.nonce)
    pub same_state : (request.state ≡ r.state) × (v.state ≡ r.state)
    pub same_query :
        (request.dcql_query ≡ v.dcql_query)
        × (v.dcql_query ≡ build_dcql_query svc.library.normalise credentials)
    pub same_client : (request.client_id ≡ r.client_id) × (v.client_id ≡ r.client_id)
    pub same_uri : request.response_uri ≡ v.response_uri
    pub pending : v.status ≡ "pending"
    pub created : v.created_at ≡ now

  -- Every session that `CreateSession` answers is stored and pending, and the request that was
  -- signed for it carries the session's own nonce, state, query, client id and response URI.
  pub create_session_sound :
      (now : ℕ) (draws : Draws) (credentials : List CredentialRequest) (s : Store)
      (r : CreateSessionResult)
      → (create_session svc signer now draws credentials s).0 ≡ ok r
      → IsCreated now draws credentials (create_session svc signer now draws credentials s).1 r
  unfolding create_session store_verification
  create_session_sound now draws credentials s r h =
      elim (Result-cases (cert_hash signer.leaf_hash)) [
        | inr (x, c) ↦ absurd (ground arith)
        | inl (client_id, c) ↦ elim (Result-cases (new_key svc signer)) [
          | inr (x, k) ↦ absurd (ground arith)
          | inl (key, k) ↦
              let dcql = build_dcql_query svc.library.normalise credentials in
              elim (Result-cases (build_client_metadata svc signer dcql key)) [
                | inr (x, m) ↦ absurd (ground arith)
                | inl (metadata, m) ↦
                    let request =
                      authorization_request svc signer draws credentials client_id metadata in
                    elim (Result-cases (signer.sign request)) [
                      | inr (x, g) ↦ absurd (ground arith)
                      | inl (jwt, g) ↦
                          let v : VerificationSession =
                            record (new_session svc signer draws credentials client_id jwt key) {
                              created_at = now;
                            } in
                          record {
                            request = request;
                            v = v;
                            signed = g;
                            stored =
                                ground (arith, get-put_self draws.session_id v s.verifications);
                            same_nonce = (refl, refl);
                            same_state = (ground arith, ground arith);
                            same_query = (refl, refl);
                            same_client = (ground arith, ground arith);
                            same_uri = refl;
                            pending = refl;
                            created = refl;
                          }
                    ]
              ]
        ]
      ]

  -- While it lives, a created session's request object is the JWT that was signed for it.
  pub created_request_is_served :
      (now later : ℕ) (draws : Draws) (credentials : List CredentialRequest) (s : Store)
      (r : CreateSessionResult)
      → (create_session svc signer now draws credentials s).0 ≡ ok r
      → later - now ≤ verification_session_ttl
      → (request : AuthorizationRequest) × (jwt : String) × (request.state ≡ r.state)
        × (signer.sign request ≡ ok jwt)
        × ((get_request_object svc later r.session_id
              (create_session svc signer now draws credentials s).1).0
            ≡ ok jwt)
  unfolding get_request_object find_verification
  created_request_is_served now later draws credentials s r h live =
      let c = create_session_sound now draws credentials s r h in
      (c.request, c.v.request_jwt, c.same_state.0, c.signed, ground (arith, c.stored, c.created))
