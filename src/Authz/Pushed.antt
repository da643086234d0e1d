-- ===== src/Authz/Pushed.antt =====
-- What a successful pushed authorization request of internal/authz/service.go leaves in the store.
use fikua_lab_idp.Prelude.{
  ℕ, ◌≡◌, ◌≢◌, ◌⊎◌, inl, inr, String, false, Option, none, some, arith, eq_iff, is_empty, ◌<>◌,
  Bool-cases, refl,
}
use fikua_lab_idp.Assoc.{get, put, text_at}
use fikua_lab_idp.Action.{ok, Result-cases}
use fikua_lab_idp.Session.Types.{Params}
use fikua_lab_idp.Session.Requests.{store_par_request}
use fikua_lab_idp.OAuth2.Attestation.{resolve}
use fikua_lab_idp.OAuth2.Dpop.{validate_dpop_proof}
use fikua_lab_idp.OAuth2.Dpop.Laws.{IsAccepted, validate_dpop_proof_sound}
use fikua_lab_idp.Authz.Types.{Service, State, bound_client_id_key, request_uri_prefix}
use fikua_lab_idp.Authz.Par.{wrong_response_type, bind_dpop, check_pushed, handle_par}

module _ {Key Cert : Type 0} (svc : Service Key Cert) (now : ℕ) where
  -- The parameters are for the code flow with an S256 challenge.
  pub record IsCodeFlow (params : Params) : Type 0 where
    pub code_only : (get "response_type" params ≡ none) ⊎ (get "response_type" params ≡ some "code")
    pub challenged : text_at "code_challenge" params ≢ ""
    pub s256 : text_at "code_challenge_method" params ≡ "S256"

  response_type_sound :
      (o : Option String) (params : Params)
      → get "response_type" params ≡ o
      → wrong_response_type params ≡ false
      → (o ≡ none) ⊎ (o ≡ some "code")
  unfolding wrong_response_type
  response_type_sound none params e h = inl refl
  response_type_sound (some t) params e h = inr (ground (arith, eq_iff t "code"))

  check_pushed_sound :
      (params : Params) (s : State) (u : Unit {0})
      → (check_pushed svc now params s).0 ≡ ok u
      → IsCodeFlow params × ((check_pushed svc now params s).1 ≡ s)
  unfolding check_pushed
  check_pushed_sound params s u h = (
    record {
      code_only = response_type_sound (get "response_type" params) params refl (ground arith);
      challenged = ground (arith, eq_iff (text_at "code_challenge" params) "");
      s256 = ground (arith, eq_iff (text_at "code_challenge_method" params) "S256");
    },
    ground arith,
  )

  -- The parameters are bound to the key of the DPoP proof, if there was one.
  pub data IsDpopBound (params : Params) (dpop : String) (s : State) (bound : Params) : Type 0 where
    no_proof : dpop ≡ "" → bound ≡ params → IsDpopBound params dpop s bound
    by_proof :
        (key : Key) (thumbprint : String)
        → IsAccepted svc.jose dpop "POST" (svc.base_url <> "/oid4vci/v1/par") "" now s.jtis key
        → svc.jose.thumbprint key ≡ ok thumbprint
        → (text_at "dpop_jkt" params ≡ "") ⊎ (text_at "dpop_jkt" params ≡ thumbprint)
        → bound ≡ put "dpop_jkt" thumbprint params
        → IsDpopBound params dpop s bound

  bind_dpop_sound :
      (params : Params) (dpop : String) (s : State) (bound : Params)
      → (bind_dpop svc now params dpop s).0 ≡ ok bound
      → IsDpopBound params dpop s bound
        × ((bind_dpop svc now params dpop s).1.sessions ≡ s.sessions)
  unfolding bind_dpop
  bind_dpop_sound params dpop s bound h =
      let htu = svc.base_url <> "/oid4vci/v1/par" in
      elim (Bool-cases (is_empty dpop)) [
        | inl e ↦ (no_proof ((eq_iff dpop "").0 e) (ground arith), ground arith)
        | inr e ↦
            elim (Result-cases
              (validate_dpop_proof svc.jose svc.visit now dpop "POST" htu "" s.jtis).0) [
                | inr (x, p) ↦ absurd (ground arith)
                | inl (key, p) ↦ elim (Result-cases (svc.jose.thumbprint key)) [
                  | inr (x, t) ↦ absurd (ground arith)
                  | inl (thumbprint, t) ↦ (
                    by_proof key thumbprint
                        (validate_dpop_proof_sound svc.jose svc.visit now dpop "POST" htu "" s.jtis
                          key p)
                        t
                        (ground (
                          arith,
                          eq_iff (text_at "dpop_jkt" params) "",
                          eq_iff (text_at "dpop_jkt" params) thumbprint,
                        ))
                        (ground arith),
                    ground arith,
                  )
                ]
              ]
      ]

  -- The outcome of a pushed request: who pushed it, and the entry under the new request URI.
  pub record IsPushed (token : String) (params : Params) (wia pop dpop : String) (s t : State)
      (uri : String) (lifetime : ℕ) : Type 0 where
    pub client_id : String
    pub bound : Params
    pub attested :
        resolve svc.jose svc.attestations now wia pop
          (text_at "client_assertion_type" params)
          (text_at "client_assertion" params)
        ≡ ok client_id
    pub not_anonymous : client_id ≢ ""
    pub no_nesting : text_at "request_uri" params ≡ ""
    pub code_flow : IsCodeFlow (put bound_client_id_key client_id params)
    pub dpop_bound : IsDpopBound (put bound_client_id_key client_id params) dpop s bound
    pub named : uri ≡ request_uri_prefix <> token
    pub seconds : lifetime ≡ 60
    pub stored : t.sessions ≡ store_par_request uri bound now s.sessions

  -- Every success of `HandlePar` is for an attested client and a code flow request with an S256
  -- challenge that holds no `request_uri`; it stores, under the prefix and the drawn token, the
  -- pushed parameters with the client's id put in and, where a DPoP proof was given, the thumbprint
  -- of its key, and changes nothing else in the store of sessions.
  pub handle_par_sound :
      (token : String) (params : Params) (wia pop dpop : String) (s : State) (uri : String)
      (lifetime : ℕ)
      → (handle_par svc now token params wia pop dpop s).0 ≡ ok (uri, lifetime)
      → IsPushed token params wia pop dpop s
          (handle_par svc now token params wia pop dpop s).1
          uri
          lifetime
  unfolding handle_par
  handle_par_sound token params wia pop dpop s uri lifetime h =
      elim (Result-cases (
        resolve svc.jose svc.attestations now wia pop (text_at "client_assertion_type" params)
          (text_at "client_assertion" params))) [
            | inr (x, r) ↦ absurd (ground arith)
            | inl (client_id, r) ↦
                let pushed = put bound_client_id_key client_id params in
                elim (Result-cases (check_pushed svc now pushed s).0) [
                  | inr (x, c) ↦ absurd (ground arith)
                  | inl (u, c) ↦
                      let checked = check_pushed_sound pushed s u c in
                      elim (Result-cases (bind_dpop svc now pushed dpop s).0) [
                        | inr (x, b) ↦ absurd (ground (arith, checked.1))
                        | inl (bound, b) ↦
                            let binding = bind_dpop_sound pushed dpop s bound b in
                            record {
                              client_id = client_id;
                              bound = bound;
                              attested = r;
                              not_anonymous = ground (arith, eq_iff client_id "");
                              no_nesting = ground (arith, eq_iff (text_at "request_uri" params) "");
                              code_flow = checked.0;
                              dpop_bound = binding.0;
                              named = ground (arith, checked.1);
                              seconds = ground (arith, checked.1);
                              stored = ground (arith, checked.1, binding.1);
                            }
                      ]
                ]
          ]
