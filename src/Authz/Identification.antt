-- ===== src/Authz/Identification.antt =====
-- Authorizations that go through the end-user identification of internal/authz/service.go.
use fikua_lab_idp.Prelude.{ℕ, ◌-◌, ◌≤◌, ◌≡◌, refl, ◌≢◌, String, none, some, arith, eq_iff, ◌<>◌}
use fikua_lab_idp.Assoc.{Assoc, get, put, text_at, get-put, get-put_self, text_at-put}
use fikua_lab_idp.Json.{Json}
use fikua_lab_idp.Action.{ok}
use fikua_lab_idp.Session.Types.{Store, Params, ParRequestEntry, par_request_ttl}
use fikua_lab_idp.Session.Requests.{
  check_identified, store_pending_auth, consume_pending_auth, mark_identified,
  store_identify_replay, get_identify_replay,
}
use fikua_lab_idp.Session.Codes.{create_auth_code}
use fikua_lab_idp.Authz.Types.{Service, State, pending_request_uri_key, identified_scope}
use fikua_lab_idp.Authz.Authorize.{
  Draws, IssuerLookup, auth_code_metadata, resolve_record, issue_code, defer_to_identification,
  finish_visit, handle_authorize,
}
use fikua_lab_idp.Authz.Identify.{
  IssuerCreate, resume_redirect, resume_pending, complete_identification,
}
use fikua_lab_idp.Authz.Visits.{SameClient, issued_session, code_response, look_up_live}

abbrev pub deferred : Draws → String → Params → Store → Store
deferred draws uri params s =
    store_pending_auth draws.pending (put pending_request_uri_key uri params) s

module _ {Key Cert : Type 0} (svc : Service Key Cert) (find : IssuerLookup) where
  -- A visit to a live request with no issuance record, and with no cookie that identifies it,
  -- answers with no code: it sends the browser to the identification page and stores the parameters
  -- with the URI, and leaves the request, and every code, as it was.
  pub first_visit_defers :
      (draws : Draws) (peeked now : ℕ) (uri query_client_id cookie : String) (s : State)
      (e : ParRequestEntry)
      → uri ≢ ""
      → get uri s.sessions.par_requests ≡ some e
      → peeked - e.created_at ≤ par_request_ttl
      → SameClient query_client_id e.params
      → resolve_record find e.params ≡ ok ""
      → check_identified cookie uri now s.sessions ≡ none
      → handle_authorize svc find draws peeked now uri query_client_id cookie s ≡ (
        ok (record {
          code = "";
          redirect_uri = "";
          state = "";
          identify_redirect = svc.base_url <> "/identify/?session=" <> draws.pending;
        }),
        record s { sessions = deferred draws uri e.params s.sessions },
      )
  unfolding handle_authorize finish_visit defer_to_identification
  first_visit_defers draws peeked now uri query_client_id cookie s e named held live same unrecorded
        unknown =
      ground (arith, look_up_live svc find peeked uri query_client_id s e named held live same)

  -- A visit with no issuance record whose cookie names a live identification for this URI answers
  -- with the drawn code, for the record and the parameters of that identification.
  pub identified_visit :
      (draws : Draws) (peeked now : ℕ) (uri query_client_id cookie record_id : String)
      (params : Params) (s : State) (e : ParRequestEntry)
      → uri ≢ ""
      → get uri s.sessions.par_requests ≡ some e
      → peeked - e.created_at ≤ par_request_ttl
      → SameClient query_client_id e.params
      → resolve_record find e.params ≡ ok ""
      → check_identified cookie uri now s.sessions ≡ some (record_id, params)
      → handle_authorize svc find draws peeked now uri query_client_id cookie s ≡ (
        ok (code_response draws params),
        record s {
          sessions =
              create_auth_code draws.code (issued_session draws 0 record_id params) now s.sessions;
        },
      )
  unfolding handle_authorize finish_visit issue_code
  identified_visit draws peeked now uri query_client_id cookie record_id params s e named held live
        same unrecorded known =
      ground (arith, look_up_live svc find peeked uri query_client_id s e named held live same)

  -- A visit with no issuance record whose cookie names a live identification does not use the
  -- request URI up: a second one with the same cookie, while the request and the identification
  -- live, is answered with a second code, and both codes are stored.
  pub identified_visit_repeats :
      (first second : Draws) (peeked now peeked' now' : ℕ)
      (uri query_client_id cookie record_id : String) (params : Params) (s : State)
      (e : ParRequestEntry)
      → uri ≢ ""
      → get uri s.sessions.par_requests ≡ some e
      → peeked - e.created_at ≤ par_request_ttl
      → peeked' - e.created_at ≤ par_request_ttl
      → SameClient query_client_id e.params
      → resolve_record find e.params ≡ ok ""
      → check_identified cookie uri now s.sessions ≡ some (record_id, params)
      → check_identified cookie uri now' s.sessions ≡ some (record_id, params)
      → first.code ≢ second.code
      → let s₁ = (handle_authorize svc find first peeked now uri query_client_id cookie s).1 in
        let outcome = handle_authorize svc find second peeked' now' uri query_client_id cookie s₁ in
        (outcome.0 ≡ ok (code_response second params))
        × (get first.code outcome.1.sessions.auth_codes
            ≡ some (issued_session first now record_id params))
        × (get second.code outcome.1.sessions.auth_codes
            ≡ some (issued_session second now' record_id params))
  unfolding create_auth_code check_identified
  identified_visit_repeats first second peeked now peeked' now' uri query_client_id cookie record_id
        params s e named held live live' same unrecorded known known' differ =
      let d₁ = issued_session first now record_id params in
      let d₂ = issued_session second now' record_id params in
      let s₁ = record s {
        sessions =
            create_auth_code first.code (issued_session first 0 record_id params) now s.sessions;
      } in
      let codes₁ = put first.code d₁ s.sessions.auth_codes in
      rw
        (identified_visit first peeked now uri query_client_id cookie record_id params s e named
          held live same unrecorded known)
        (rw
          (identified_visit second peeked' now' uri query_client_id cookie record_id params s₁ e
            named held live' same unrecorded known')
          (
            refl,
            ground (
              arith,
              get-put second.code first.code d₂ codes₁,
              get-put_self first.code d₁ s.sessions.auth_codes,
              eq_iff second.code first.code,
            ),
            get-put_self second.code d₂ codes₁,
          ))

-- What the deferral adds to the parameters does not show in the session of a code.
pub metadata_of_deferred :
    (uri record_id : String) (params : Params)
    → auth_code_metadata record_id (put pending_request_uri_key uri params)
      ≡ auth_code_metadata record_id params
unfolding auth_code_metadata
metadata_of_deferred uri record_id params = simp text_at-put

module _ {Key Cert : Type 0} (svc : Service Key Cert) where
  resume_pending_lem :
      (token scope : String) (params : Params) (s : State)
      → get token s.sessions.pending_auth ≡ some params
      → text_at pending_request_uri_key params ≢ ""
      → identified_scope params ≡ ok scope
      → resume_pending svc token s ≡ (
        ok (text_at pending_request_uri_key params, scope, params),
        record s { sessions = (consume_pending_auth token s.sessions).1 },
      )
  unfolding resume_pending consume_pending_auth
  resume_pending_lem token scope params s held bound scoped =
      ground (arith, eq_iff (text_at pending_request_uri_key params) "")

  module _ (create : IssuerCreate) (cookie token scope record_id : String) (started now : ℕ)
      (credential_data : Assoc Json) (source_type source_ref : String) (params : Params)
      (s : State) where
    abbrev pub completed : State
    completed =
        (complete_identification svc create cookie started now token credential_data source_type
          source_ref s).1

    -- Completing a deferred authorization records the issuance with the credential that its scope
    -- names, marks its request URI as identified under the drawn cookie, sends the browser back to
    -- `/authorize` for that URI, and uses the deferred authorization up.
    pub complete_identification_lem :
        get_identify_replay token started s.sessions ≡ none
        → get token s.sessions.pending_auth ≡ some params
        → text_at pending_request_uri_key params ≢ ""
        → identified_scope params ≡ ok scope
        → create (record {
          credential_type = scope;
          credential_data = credential_data;
          source_type = source_type;
          source_ref = source_ref;
        })
          ≡ ok record_id
        → let uri = text_at pending_request_uri_key params in
          complete_identification svc create cookie started now token credential_data source_type
            source_ref s
          ≡ (
            ok (resume_redirect svc uri, cookie),
            record s {
              sessions = store_identify_replay token (resume_redirect svc uri) now (
                  mark_identified cookie uri record_id params now
                    (consume_pending_auth token s.sessions).1);
            },
          )
    unfolding complete_identification
    complete_identification_lem fresh held bound scoped created =
        ground (arith, resume_pending_lem token scope params s held bound scoped)
