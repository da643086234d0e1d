-- ===== src/Authz/RoundTrip.antt =====
-- The whole way through `/authorize`, the identification form and back, in internal/authz/service.go.
use fikua_lab_idp.Prelude.{
  ℕ, ◌+◌, ◌-◌, ◌≤◌, ◌≡◌, refl, ◌≢◌, String, none, some, arith, eq_iff, eq_refl, ltb, if◌then◌else◌,
}
use fikua_lab_idp.Assoc.{Assoc, get, put, text_at, get-put_self, get-delete_self, text_at-put}
use fikua_lab_idp.Json.{Json}
use fikua_lab_idp.Action.{ok, err}
use fikua_lab_idp.Session.Types.{
  Params, ParRequestEntry, IdentifiedSessionEntry, IdentifyReplayEntry, par_request_ttl,
  identified_session_ttl, identify_replay_ttl,
}
use fikua_lab_idp.Session.Requests.{
  check_identified, store_pending_auth, consume_pending_auth, mark_identified,
  store_identify_replay, get_identify_replay,
}
use fikua_lab_idp.Session.Codes.{create_auth_code}
use fikua_lab_idp.Authz.Types.{Service, State, invalid, pending_request_uri_key, identified_scope}
use fikua_lab_idp.Authz.Authorize.{Draws, IssuerLookup, resolve_record, handle_authorize}
use fikua_lab_idp.Authz.Identify.{
  IssuerCreate, resume_redirect, resume_pending, complete_identification, reject_identification,
}
use fikua_lab_idp.Authz.Visits.{SameClient, issued_session, code_response}
use fikua_lab_idp.Authz.Identification.{
  deferred, first_visit_defers, identified_visit, metadata_of_deferred, complete_identification_lem,
}

module _ {Key Cert : Type 0} (svc : Service Key Cert) where
  -- After a completed identification, a repeated submission of the form, and a rejection, get the
  -- same redirect with no new cookie for `identify_replay_ttl`, and are refused after that; neither
  -- changes anything.
  pub completion_is_final :
      (create again : IssuerCreate) (cookie cookie' token scope record_id : String)
      (started now later later' : ℕ) (form form' : Assoc Json) (source_type source_ref : String)
      (params : Params) (s : State)
      → get_identify_replay token started s.sessions ≡ none
      → get token s.sessions.pending_auth ≡ some params
      → text_at pending_request_uri_key params ≢ ""
      → identified_scope params ≡ ok scope
      → create (record {
        credential_type = scope;
        credential_data = form;
        source_type = source_type;
        source_ref = source_ref;
      })
        ≡ ok record_id
      → let redirect = resume_redirect svc (text_at pending_request_uri_key params) in
        let t =
          (complete_identification svc create cookie started now token form source_type source_ref
            s).1 in
        let late = ltb (now + identify_replay_ttl) later in
        (complete_identification svc again cookie' later later' token form' source_type source_ref t
          ≡ (if late
              then (err (invalid "Invalid or expired identification session"), t)
              else (ok (redirect, ""), t)))
        × (reject_identification svc later token t ≡ (
            if late
            then (err (invalid "Invalid or expired identification session"), t)
            else (ok redirect, t)))
  unfolding complete_identification reject_identification resume_pending consume_pending_auth
      mark_identified store_identify_replay get_identify_replay
  completion_is_final create again cookie cookie' token scope record_id started now later later'
        form form' source_type source_ref params s fresh held bound scoped created =
      let redirect = resume_redirect svc (text_at pending_request_uri_key params) in
      let entry : IdentifyReplayEntry = record {
        redirect = redirect;
        expiry = now + identify_replay_ttl;
      } in
      let first =
        complete_identification_lem svc create cookie token scope record_id started now form
          source_type source_ref params s fresh held bound scoped created in
      let cached = get-put_self token entry s.sessions.identify_replay in
      let gone = get-delete_self token s.sessions.pending_auth in
      (ground (arith, first, cached, gone), ground (arith, first, cached, gone))

module _ {Key Cert : Type 0} (svc : Service Key Cert) (find : IssuerLookup) (create : IssuerCreate)
    (first second : Draws) (uri query_client_id cookie scope record_id : String)
    (pushed peeked asked started now peeked' now' : ℕ) (form : Assoc Json)
    (source_type source_ref : String) (params : Params) (s : State) where
  abbrev visited : State
  visited = record s { sessions = deferred first uri params s.sessions }

  abbrev marked : State
  marked = record visited {
    sessions = store_identify_replay first.pending (resume_redirect svc uri) now (
        mark_identified cookie uri record_id (put pending_request_uri_key uri params) now
          (consume_pending_auth first.pending visited.sessions).1);
  }

  identified-eq-marked :
      uri ≢ ""
      → get first.pending s.sessions.identify_replay ≡ none
      → text_at "scope" params ≡ scope
      → scope ≢ ""
      → create (record {
        credential_type = scope;
        credential_data = form;
        source_type = source_type;
        source_ref = source_ref;
      })
        ≡ ok record_id
      → complete_identification svc create cookie started now first.pending form source_type
          source_ref visited
        ≡ (ok (resume_redirect svc uri, cookie), marked)
  unfolding get_identify_replay store_pending_auth identified_scope
  identified-eq-marked named unused scoped given created =
      let p' = put pending_request_uri_key uri params in
      let same : text_at pending_request_uri_key p' ≡ uri =
        simp (text_at-put pending_request_uri_key pending_request_uri_key uri params) in
      rw same at (
        complete_identification_lem svc create cookie first.pending scope record_id started now form
          source_type source_ref p' visited (ground arith)
          (get-put_self first.pending p' s.sessions.pending_auth) (ground (arith, same))
          (ground (arith, text_at-put pending_request_uri_key "scope" uri params, eq_iff scope ""))
          created)

  marked_holds :
      (e : ParRequestEntry)
      → get uri s.sessions.par_requests ≡ some e
      → get uri marked.sessions.par_requests ≡ some e
  unfolding consume_pending_auth mark_identified store_identify_replay store_pending_auth
  marked_holds e held = ground arith

  marked_knows :
      cookie ≢ ""
      → now' - now ≤ identified_session_ttl
      → check_identified cookie uri now' marked.sessions
        ≡ some (record_id, put pending_request_uri_key uri params)
  unfolding consume_pending_auth mark_identified store_identify_replay store_pending_auth
      check_identified
  marked_knows marks recent =
      let p' = put pending_request_uri_key uri params in
      let entry : IdentifiedSessionEntry = record {
        request_uri = uri;
        record_id = record_id;
        params = p';
        created_at = now;
      } in
      ground (
        arith,
        get-put_self cookie entry s.sessions.identified_sessions,
        eq_iff cookie "",
        eq_refl uri,
      )

  -- The whole way of an authorization through identification: a live request with no issuance
  -- record, visited without a cookie, is deferred; its identification is completed within the scope
  -- that was pushed; and the visit that comes back with the cookie to the same URI, at most
  -- `par_request_ttl` after the push and `identified_session_ttl` after the identification, is
  -- answered with the drawn code, whose session is bound to the record that the issuer created and
  -- to the parameters that were pushed.
  pub identification_round_trip :
      uri ≢ ""
      → get uri s.sessions.par_requests ≡ some (record { params = params; created_at = pushed })
      → peeked - pushed ≤ par_request_ttl
      → peeked' - pushed ≤ par_request_ttl
      → SameClient query_client_id params
      → resolve_record find params ≡ ok ""
      → get first.pending s.sessions.identify_replay ≡ none
      → text_at "scope" params ≡ scope
      → scope ≢ ""
      → create (record {
        credential_type = scope;
        credential_data = form;
        source_type = source_type;
        source_ref = source_ref;
      })
        ≡ ok record_id
      → cookie ≢ ""
      → now' - now ≤ identified_session_ttl
      → let s₁ = (handle_authorize svc find first peeked asked uri query_client_id "" s).1 in
        let s₂ =
          (complete_identification svc create cookie started now first.pending form source_type
            source_ref s₁).1 in
        let visit = handle_authorize svc find second peeked' now' uri query_client_id cookie s₂ in
        (visit.0 ≡ ok (code_response second params))
        × (get second.code visit.1.sessions.auth_codes
            ≡ some (issued_session second now' record_id params))
  unfolding create_auth_code
  identification_round_trip named held live live' same unrecorded unused scoped given created marks
        recent =
      let e : ParRequestEntry = record { params = params; created_at = pushed } in
      let p' = put pending_request_uri_key uri params in
      let d = issued_session second now' record_id p' in
      rw
        (first_visit_defers svc find first peeked asked uri query_client_id "" s e named held live
          same unrecorded (unfold check_identified in refl))
        (rw (identified-eq-marked named unused scoped given created) (
          rw
            (identified_visit svc find second peeked' now' uri query_client_id cookie record_id p'
              marked e named (marked_holds e held) live' same unrecorded
              (marked_knows marks recent))
            (
              ground (
                arith,
                text_at-put pending_request_uri_key "redirect_uri" uri params,
                text_at-put pending_request_uri_key "state" uri params,
              ),
              rw (← metadata_of_deferred uri record_id params)
                  (get-put_self second.code d marked.sessions.auth_codes),
            )))
