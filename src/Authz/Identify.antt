-- ===== src/Authz/Identify.antt =====
-- internal/authz/service.go: the end-user identification that an authorization may be deferred to.
use fikua_lab_idp.Prelude.{ℕ, String, Option, none, some, ◌<>◌, is_empty}
use fikua_lab_idp.Assoc.{Assoc, text_at}
use fikua_lab_idp.Json.{Json}
use fikua_lab_idp.Action.{Result, ok, err, pure, gets, lift, or_fail, reject_if, ◌>>=◌, ◌>>◌}
use fikua_lab_idp.Session.Types.{Params}
use fikua_lab_idp.Session.Requests.{
  get_pending_auth, consume_pending_auth, mark_identified, store_identify_replay,
  get_identify_replay,
}
use fikua_lab_idp.OAuth2.Error.{Exception, service_unavailable, invalid_request}
use fikua_lab_idp.Authz.Types.{
  Service, Endpoint, CreateRequest, Target, invalid, on_sessions, update_sessions, set_query,
  set_if_given, identified_scope, pending_request_uri_key,
}

abbrev unknown_session : Exception
unknown_session = invalid "Invalid or expired identification session"

unfoldable pub resolve_identify_scope : String → Endpoint String
unfolding identified_scope
resolve_identify_scope session_token = do
  found ← gets (λ s. get_pending_auth session_token s.sessions)
  params ← or_fail found unknown_session
  lift (identified_scope params)

-- What the Credential Issuer's `Create` answers: an error, or the new record's id.
abbrev pub IssuerCreate : Type 0
IssuerCreate = CreateRequest → Result String String

abbrev created : Result String String → Result Exception String
created (err reason) =
    err (service_unavailable invalid_request ("Credential Issuer unreachable: " <> reason))
created (ok id) = ok id

abbrev parsed_target : Result String Target → Result Exception Target
parsed_target (err reason) = err (invalid ("Invalid redirect_uri: " <> reason))
parsed_target (ok u) = ok u

-- The redirect of a denied request.
unfoldable pub denied : Target → Params → Target
unfolding set_query
denied u params = set_if_given "state" (text_at "state" params) (
    set_query "error_description" "The end-user denied the authorization request"
      (set_query "error" "access_denied" u))

module _ {Key Cert : Type 0} (svc : Service Key Cert) where
  -- The redirect back to `/authorize` for this request URI.
  unfoldable pub resume_redirect : String → String
  resume_redirect request_uri =
      svc.base_url <> "/oid4vci/v1/authorize?request_uri=" <> svc.urls.query_escape request_uri

  -- Up to the call of the Credential Issuer: the request URI, the scope and the parameters of the
  -- deferred authorization, which is taken out of the store.
  unfoldable pub resume_pending : String → Endpoint (String × String × Params)
  resume_pending session_token = do
    looked ← on_sessions (consume_pending_auth session_token)
    params ← or_fail looked unknown_session
    reject_if (is_empty (text_at pending_request_uri_key params))
        (invalid "Identification session is missing its request_uri")
    scope ← lift (identified_scope params)
    pure (text_at pending_request_uri_key params, scope, params)

  abbrev replayed_or : Option String → Endpoint (String × String) → Endpoint (String × String)
  replayed_or (some cached) rest = pure (cached, "")
  replayed_or none rest = rest

  -- `started` is the time before and `now` the time after the call of the Credential Issuer;
  -- `cookie` is the token that `MarkIdentified` draws. The result is the redirect and the cookie's
  -- value, empty on a replay.
  unfoldable pub complete_identification :
      IssuerCreate
      → String
      → ℕ
      → ℕ
      → String
      → Assoc Json
      → String
      → String
      → Endpoint (String × String)
  complete_identification create cookie started now session_token credential_data source_type
        source_ref =
      do
        cached ← gets (λ s. get_identify_replay session_token started s.sessions)
        replayed_or cached (do
          resumed ← resume_pending session_token
          record_id ← lift (
              created (
                create (record {
                  credential_type = resumed.1;
                  credential_data = credential_data;
                  source_type = source_type;
                  source_ref = source_ref;
                })))
          update_sessions (mark_identified cookie resumed.0 record_id resumed.2 now)
          update_sessions (store_identify_replay session_token (resume_redirect resumed.0) now)
          pure (resume_redirect resumed.0, cookie))

  abbrev replayed_redirect_or : Option String → Endpoint String → Endpoint String
  replayed_redirect_or (some cached) rest = pure cached
  replayed_redirect_or none rest = rest

  unfoldable pub reject_identification : ℕ → String → Endpoint String
  unfolding denied
  reject_identification now session_token = do
    cached ← gets (λ s. get_identify_replay session_token now s.sessions)
    replayed_redirect_or cached (do
      looked ← on_sessions (consume_pending_auth session_token)
      params ← or_fail looked unknown_session
      u ← lift (parsed_target (svc.urls.parse (text_at "redirect_uri" params)))
      update_sessions (store_identify_replay session_token (svc.urls.print (denied u params)) now)
      pure (svc.urls.print (denied u params)))
