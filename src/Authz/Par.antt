-- ===== src/Authz/Par.antt =====
-- internal/authz/service.go: `HandlePar`, the pushed authorization request endpoint.
use fikua_lab_idp.Prelude.{
  ℕ, String, Bool, false, not, ◌&&◌, none, some, ◌/=◌, is_empty, ◌<>◌, if◌then◌else◌,
}
use fikua_lab_idp.Assoc.{get, put, text_at}
use fikua_lab_idp.Action.{Result, ok, err, pure, lift, reject_if, ◌>>=◌, ◌>>◌}
use fikua_lab_idp.Session.Types.{Params}
use fikua_lab_idp.Session.Requests.{store_par_request}
use fikua_lab_idp.OAuth2.Error.{Exception, bad_request, unsupported_response_type}
use fikua_lab_idp.OAuth2.Dpop.{validate_dpop_proof}
use fikua_lab_idp.OAuth2.Attestation.{resolve}
use fikua_lab_idp.Authz.Types.{
  Service, Endpoint, invalid, on_jtis, update_sessions, bound_client_id_key, request_uri_prefix,
}

-- `responseType, ok := params["response_type"]; ok && responseType != "code"`
unfoldable pub wrong_response_type : Params → Bool
wrong_response_type params = elim (get "response_type" params) [
  | none ↦ false
  | some response_type ↦ response_type /= "code"
]

abbrev pub computed : Result String String → Result Exception String
computed (ok thumbprint) = ok thumbprint
computed (err reason) = err (invalid ("Failed to compute DPoP thumbprint: " <> reason))

module _ {Key Cert : Type 0} (svc : Service Key Cert) (now : ℕ) where
  -- The DPoP binding: the parameters with the key's thumbprint under `dpop_jkt`.
  unfoldable pub bind_dpop : Params → String → Endpoint Params
  bind_dpop params dpop_header = if is_empty dpop_header then pure params else do
    dpop_key ← on_jtis (
        validate_dpop_proof svc.jose svc.visit now dpop_header "POST"
          (svc.base_url <> "/oid4vci/v1/par") "")
    thumbprint ← lift (computed (svc.jose.thumbprint dpop_key))
    reject_if
        (not (is_empty (text_at "dpop_jkt" params)) && (text_at "dpop_jkt" params /= thumbprint))
        (invalid "dpop_jkt does not match the DPoP proof's key")
    pure (put "dpop_jkt" thumbprint params)

  -- The checks on the pushed parameters that follow the client attestation.
  unfoldable pub check_pushed : Params → Endpoint (Unit {0})
  unfolding wrong_response_type
  check_pushed params = do
    reject_if (wrong_response_type params)
        (bad_request unsupported_response_type "Only response_type=code is supported")
    reject_if (is_empty (text_at "code_challenge" params)) (invalid "code_challenge is required")
    reject_if (text_at "code_challenge_method" params /= "S256")
        (invalid "Only S256 code_challenge_method is supported")

  -- `token` is what `RandomToken` draws; the result is the request URI and its lifetime in seconds.
  unfoldable pub handle_par : String → Params → String → String → String → Endpoint (String × ℕ)
  handle_par token params wia_header pop_header dpop_header = do
    reject_if (not (is_empty (text_at "request_uri" params)))
        (invalid "request_uri must not be provided in a pushed authorization request")
    client_id ← lift (
        resolve svc.jose svc.attestations now wia_header pop_header
          (text_at "client_assertion_type" params) (text_at "client_assertion" params))
    reject_if (is_empty client_id) (invalid "Client attestation is required")
    check_pushed (put bound_client_id_key client_id params)
    bound ← bind_dpop (put bound_client_id_key client_id params) dpop_header
    update_sessions (store_par_request (request_uri_prefix <> token) bound now)
    pure (request_uri_prefix <> token, 60)
