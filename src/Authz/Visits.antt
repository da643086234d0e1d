-- ===== src/Authz/Visits.antt =====
-- Visits to `/authorize` of internal/authz/service.go.
use fikua_lab_idp.Prelude.{
  ℕ, ◌-◌, ◌≤◌, ◌<◌, ◌≡◌, ◌≢◌, String, false, none, some, List, All, arith, eq_iff, is_empty, ◌/=◌,
  not, ◌&&◌,
}
use fikua_lab_idp.Assoc.{get, text_at, get-put, get-put_self, get-delete_self, get-delete}
use fikua_lab_idp.Action.{ok, err}
use fikua_lab_idp.Session.Types.{Store, Params, ParRequestEntry, Data, par_request_ttl}
use fikua_lab_idp.Session.Requests.{peek_par_request, consume_par_request, check_identified}
use fikua_lab_idp.Session.Codes.{create_auth_code}
use fikua_lab_idp.Session.Trace.{Op, store_par_request, step, run, run_keeps}
use fikua_lab_idp.Authz.Types.{Service, State, AuthorizeResult, invalid}
use fikua_lab_idp.Authz.Authorize.{
  Draws, IssuerLookup, auth_code_metadata, resolve_record, issue_code, look_up_request,
  finish_visit, handle_authorize,
}

-- The session that `issue_code` stores.
abbrev pub issued_session : Draws → ℕ → String → Params → Data
issued_session draws now record_id params = record {
  session_id = draws.session_id;
  created_at = now;
  metadata = auth_code_metadata record_id params;
}

abbrev pub code_response : Draws → Params → AuthorizeResult
code_response draws params = record {
  code = draws.code;
  redirect_uri = text_at "redirect_uri" params;
  state = text_at "state" params;
  identify_redirect = "";
}

-- The client that the visit names is the one that the request was pushed for, if both are given.
abbrev pub SameClient : String → Params → Type 0
SameClient query_client_id params =
    (not (is_empty query_client_id)
      && (not (is_empty (text_at "client_id" params))
          && (query_client_id /= text_at "client_id" params)))
    ≡ false

module _ {Key Cert : Type 0} (svc : Service Key Cert) (find : IssuerLookup) where
  pub look_up_live :
      (peeked : ℕ) (uri query_client_id : String) (s : State) (e : ParRequestEntry)
      → uri ≢ ""
      → get uri s.sessions.par_requests ≡ some e
      → peeked - e.created_at ≤ par_request_ttl
      → SameClient query_client_id e.params
      → look_up_request svc peeked uri query_client_id s ≡ (ok e.params, s)
  unfolding look_up_request peek_par_request
  look_up_live peeked uri query_client_id s e named held live same = ground (arith, eq_iff uri "")

  look_up_absent :
      (peeked : ℕ) (uri query_client_id : String) (s : State)
      → uri ≢ ""
      → get uri s.sessions.par_requests ≡ none
      → look_up_request svc peeked uri query_client_id s
        ≡ (err (invalid "Invalid or expired request_uri"), s)
  unfolding look_up_request peek_par_request
  look_up_absent peeked uri query_client_id s named gone = ground (arith, eq_iff uri "")

  -- A visit more than `par_request_ttl` after the push is refused, also when its cookie names a
  -- live identification for this very request URI.
  pub identified_visit_expires :
      (draws : Draws) (peeked now : ℕ) (uri query_client_id cookie : String) (s : State)
      (e : ParRequestEntry) (identified : String × Params)
      → uri ≢ ""
      → get uri s.sessions.par_requests ≡ some e
      → par_request_ttl < peeked - e.created_at
      → check_identified cookie uri now s.sessions ≡ some identified
      → (handle_authorize svc find draws peeked now uri query_client_id cookie s).0
        ≡ err (invalid "Invalid or expired request_uri")
  unfolding handle_authorize look_up_request peek_par_request
  identified_visit_expires draws peeked now uri query_client_id cookie s e identified named held
        late known =
      ground (arith, eq_iff uri "")

  -- A visit to a live request that names another client than the `client_id` that was pushed is
  -- refused, and leaves the request usable.
  pub other_client_refused :
      (draws : Draws) (peeked now : ℕ) (uri query_client_id cookie : String) (s : State)
      (e : ParRequestEntry)
      → uri ≢ ""
      → get uri s.sessions.par_requests ≡ some e
      → peeked - e.created_at ≤ par_request_ttl
      → query_client_id ≢ ""
      → text_at "client_id" e.params ≢ ""
      → query_client_id ≢ text_at "client_id" e.params
      → handle_authorize svc find draws peeked now uri query_client_id cookie s
        ≡ (err (invalid "request_uri is bound to a different client"), s)
  unfolding handle_authorize look_up_request peek_par_request
  other_client_refused draws peeked now uri query_client_id cookie s e named held live asks bound
        differs =
      ground (
        arith,
        eq_iff uri "",
        eq_iff query_client_id "",
        eq_iff (text_at "client_id" e.params) "",
        eq_iff query_client_id (text_at "client_id" e.params),
      )

  -- A visit to a live request whose `issuer_state` names an issuance record answers with the drawn
  -- code, stores the code's session, and uses the request URI up.
  pub recorded_visit :
      (draws : Draws) (peeked now : ℕ) (uri query_client_id cookie record_id : String) (s : State)
      (e : ParRequestEntry)
      → uri ≢ ""
      → get uri s.sessions.par_requests ≡ some e
      → peeked - e.created_at ≤ par_request_ttl
      → now - e.created_at ≤ par_request_ttl
      → SameClient query_client_id e.params
      → resolve_record find e.params ≡ ok record_id
      → record_id ≢ ""
      → let outcome = handle_authorize svc find draws peeked now uri query_client_id cookie s in
        (outcome.0 ≡ ok (code_response draws e.params))
        × (get draws.code outcome.1.sessions.auth_codes
            ≡ some (issued_session draws now record_id e.params))
        × (get uri outcome.1.sessions.par_requests ≡ none)
  unfolding handle_authorize finish_visit issue_code consume_par_request create_auth_code
  recorded_visit draws peeked now uri query_client_id cookie record_id s e named held live still
        same found recorded =
      let looked = look_up_live peeked uri query_client_id s e named held live same in
      (
        ground (arith, looked, eq_iff record_id ""),
        ground (
          arith,
          looked,
          eq_iff record_id "",
          get-put_self draws.code (issued_session draws now record_id e.params)
              s.sessions.auth_codes,
        ),
        ground (arith, looked, eq_iff record_id "", get-delete_self uri s.sessions.par_requests),
      )

  -- The step does not push a request under this URI.
  abbrev pub DoesNotPush : String → Op → Type 0
  DoesNotPush uri (store_par_request u params at) = u ≢ uri
  DoesNotPush uri _ = Unit {0}

  step_keeps_gone :
      (uri : String) (op : Op) (s : Store)
      → DoesNotPush uri op
      → get uri s.par_requests ≡ none
      → get uri (step op s).par_requests ≡ none
  unfolding step
  step_keeps_gone uri (store_par_request u params at) s other gone = ground (
    arith,
    eq_iff u uri,
    get-put u uri (record { params = params; created_at = at }) s.par_requests,
  )
  step_keeps_gone uri (Op.consume_par_request u at) s other gone =
      ground (arith, get-delete u uri s.par_requests)
  step_keeps_gone uri (Op.peek_par_request u at) s other gone =
      ground (arith, get-delete u uri s.par_requests)
  step_keeps_gone uri _ s other gone = ground arith

  -- Once a request URI is used up, every later visit with it is refused, whatever its cookie and
  -- whatever happened to the store in between other than a push under the same URI.
  pub used_request_refused :
      (draws : Draws) (peeked now : ℕ) (uri query_client_id cookie : String) (s : State)
      (ops : List Op)
      → uri ≢ ""
      → get uri s.sessions.par_requests ≡ none
      → All (DoesNotPush uri) ops
      → let later = record s { sessions = run ops s.sessions } in
        handle_authorize svc find draws peeked now uri query_client_id cookie later
        ≡ (err (invalid "Invalid or expired request_uri"), later)
  unfolding handle_authorize
  used_request_refused draws peeked now uri query_client_id cookie s ops named gone others =
      let later = record s { sessions = run ops s.sessions } in
      let still =
        run_keeps (λ t. get uri t.par_requests ≡ none) (DoesNotPush uri) (step_keeps_gone uri) ops
          s.sessions others gone in
      rw (look_up_absent peeked uri query_client_id later named still)
