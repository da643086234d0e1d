-- ===== src/Authz/Authorize.antt =====
-- internal/authz/service.go: `HandleAuthorize`, the front channel.
use fikua_lab_idp.Prelude.{
  ℕ, String, not, ◌&&◌, Option, none, some, ◌/=◌, is_empty, ◌<>◌, [], if◌then◌else◌,
}
use fikua_lab_idp.Assoc.{Assoc, put, text_at}
use fikua_lab_idp.Action.{Result, ok, err, pure, gets, lift, or_fail, reject_if, ◌>>=◌, ◌>>◌}
use fikua_lab_idp.Session.Types.{Params}
use fikua_lab_idp.Session.Requests.{
  peek_par_request, consume_par_request, check_identified, store_pending_auth,
}
use fikua_lab_idp.Session.Codes.{create_auth_code}
use fikua_lab_idp.OAuth2.Error.{Exception, service_unavailable, invalid_request}
use fikua_lab_idp.Authz.Types.{
  Service, Endpoint, AuthorizeResult, invalid, on_sessions, update_sessions, bound_client_id_key,
  pending_request_uri_key,
}

-- The random tokens of one visit.
pub record Draws : Type 0 where
  pub code : String
  pub session_id : String
  pub pending : String

-- `if v := params[key]; v != "" { metadata[key] = v }`
abbrev pub carry : String → Params → Assoc String → Assoc String
carry key params metadata =
    if is_empty (text_at key params) then metadata else put key (text_at key params) metadata

unfoldable pub auth_code_metadata : String → Params → Assoc String
auth_code_metadata record_id params = carry "dpop_jkt" params (
    carry "code_challenge" params (
      put bound_client_id_key (text_at bound_client_id_key params)
        (put "issuanceRecordId" record_id [])))

abbrev unknown_request : Exception
unknown_request = invalid "Invalid or expired request_uri"

-- What `FindByIssuerState` answers: a transport error, no record, or a record's id.
abbrev pub IssuerLookup : Type 0
IssuerLookup = String → Result String (Option String)

abbrev found_record : Result String (Option String) → Result Exception String
found_record (err reason) =
    err (service_unavailable invalid_request ("Credential Issuer unreachable: " <> reason))
found_record (ok none) = ok ""
found_record (ok (some id)) = ok id

-- The id of the issuance record that `issuer_state` names, or the empty text.
unfoldable pub resolve_record : IssuerLookup → Params → Result Exception String
resolve_record find params =
    if is_empty (text_at "issuer_state" params)
    then ok ""
    else found_record (find (text_at "issuer_state" params))

unfoldable pub issue_code : Draws → ℕ → String → Params → Endpoint AuthorizeResult
issue_code draws now record_id params = do
  update_sessions (
      create_auth_code draws.code
        (record {
          session_id = draws.session_id;
          created_at = 0;
          metadata = auth_code_metadata record_id params;
        })
        now)
  pure (record {
    code = draws.code;
    redirect_uri = text_at "redirect_uri" params;
    state = text_at "state" params;
    identify_redirect = "";
  })

module _ {Key Cert : Type 0} (svc : Service Key Cert) where
  -- The visit up to the call of the Credential Issuer, at `peeked`.
  unfoldable pub look_up_request : ℕ → String → String → Endpoint Params
  look_up_request peeked request_uri query_client_id = do
    reject_if (is_empty request_uri) (invalid "Missing request_uri")
    looked ← on_sessions (peek_par_request request_uri peeked)
    params ← or_fail looked unknown_request
    reject_if
        (not (is_empty query_client_id)
          && (not (is_empty (text_at "client_id" params))
              && (query_client_id /= text_at "client_id" params)))
        (invalid "request_uri is bound to a different client")
    pure params

  unfoldable pub defer_to_identification : Draws → String → Params → Endpoint AuthorizeResult
  defer_to_identification draws request_uri params = do
    update_sessions
        (store_pending_auth draws.pending (put pending_request_uri_key request_uri params))
    pure (record {
      code = "";
      redirect_uri = "";
      state = "";
      identify_redirect = svc.base_url <> "/identify/?session=" <> draws.pending;
    })

  abbrev finish_unrecorded :
      Option (String × Params) → Draws → ℕ → String → Params → Endpoint AuthorizeResult
  finish_unrecorded (some (record_id, identified_params)) draws now request_uri params =
      issue_code draws now record_id identified_params
  finish_unrecorded none draws now request_uri params =
      defer_to_identification draws request_uri params

  -- The rest of the visit, at `now`, once the record is resolved.
  unfoldable pub finish_visit :
      Draws → ℕ → String → String → Params → String → Endpoint AuthorizeResult
  finish_visit draws now request_uri identified_cookie params record_id =
      if is_empty record_id
      then (do
        identified ← gets (λ s. check_identified identified_cookie request_uri now s.sessions)
        finish_unrecorded identified draws now request_uri params)
      else do
        looked ← on_sessions (consume_par_request request_uri now)
        consumed ← or_fail looked unknown_request
        issue_code draws now record_id consumed

  unfoldable pub handle_authorize :
      IssuerLookup → Draws → ℕ → ℕ → String → String → String → Endpoint AuthorizeResult
  handle_authorize find draws peeked now request_uri query_client_id identified_cookie = do
    params ← look_up_request peeked request_uri query_client_id
    record_id ← lift (resolve_record find params)
    finish_visit draws now request_uri identified_cookie params record_id
