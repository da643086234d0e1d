-- ===== src/Session/Lifetimes.antt =====
-- How long what internal/session/store.go holds stays usable, whatever else happens to the store.
use fikua_lab_idp.Prelude.{
  ℕ, ◌-◌, ◌≤◌, ◌≡◌, ◌≢◌, ◌⊎◌, ◌||◌, inl, true, false, String, List, none, some, All, arith, eq_iff,
  ltb, ◌/=◌, if◌then◌else◌,
}
use fikua_lab_idp.Assoc.{get, get-put, get-delete, get-put_self}
use fikua_lab_idp.Session.Types.{
  Store, Data, Params, ParRequestEntry, IdentifiedSessionEntry, auth_code_ttl, par_request_ttl,
  identified_session_ttl,
}
use fikua_lab_idp.Session.Codes.{Consumed, redeemed, refused}
use fikua_lab_idp.Session.Codes
use fikua_lab_idp.Session.Requests
use fikua_lab_idp.Session.Trace.{
  Op, create_auth_code, consume_auth_code, store_par_request, consume_par_request, peek_par_request,
  mark_identified, step, run, run_keeps,
}

-- The step neither issues nor presents `code`.
abbrev pub LeavesCode : String → Op → Type 0
LeavesCode code (create_auth_code c d now) = c ≢ code
LeavesCode code (consume_auth_code c now) = c ≢ code
LeavesCode code _ = Unit {0}

step_keeps_code :
    (code : String) (d : Data) (op : Op) (s : Store)
    → LeavesCode code op
    → get code s.auth_codes ≡ some d
    → get code (step op s).auth_codes ≡ some d
unfolding step
step_keeps_code code d (create_auth_code c e now) s leaves held =
    ground (arith, eq_iff c code, get-put c code (record e { created_at = now }) s.auth_codes)
step_keeps_code code d (consume_auth_code c now) s leaves held =
    ground (arith, eq_iff c code, get-delete c code s.auth_codes)
step_keeps_code code d _ s leaves held = ground arith

-- An authorization code issued at `issued` and presented for the first time at `now`, whatever
-- happens to the rest of the store in between, gives back the session that it was issued for,
-- stamped with the time of issue, when at most `auth_code_ttl` has passed, and is refused (not as
-- reused) when more has.
pub consume-create_auth_code :
    (code : String) (d : Data) (issued now : ℕ) (ops : List Op) (s : Store)
    → All (LeavesCode code) ops
    → (Codes.consume_auth_code code now (run ops (Codes.create_auth_code code d issued s))).0 ≡ (
        if ltb auth_code_ttl (now - issued)
        then refused false
        else redeemed (record d { created_at = issued }))
unfolding Codes.consume_auth_code Codes.create_auth_code
consume-create_auth_code code d issued now ops s leaves =
    let d' = record d { created_at = issued } in
    let held =
      run_keeps (λ t. get code t.auth_codes ≡ some d') (LeavesCode code) (step_keeps_code code d')
        ops (Codes.create_auth_code code d issued s) leaves (get-put_self code d' s.auth_codes) in
    ground (arith, held)

-- The step neither pushes nor consumes the request, and looks at it no later than `now`.
abbrev pub LeavesRequest : String → ℕ → Op → Type 0
LeavesRequest uri now (store_par_request u params at) = u ≢ uri
LeavesRequest uri now (consume_par_request u at) = u ≢ uri
LeavesRequest uri now (peek_par_request u at) = at ≤ now
LeavesRequest uri now _ = Unit {0}

-- The entry is there, or it has expired and was dropped.
abbrev Lingers : String → ℕ → ParRequestEntry → Store → Type 0
Lingers uri now e s =
    (get uri s.par_requests ≡ some e)
    ⊎ ((get uri s.par_requests ≡ none) × (ltb par_request_ttl (now - e.created_at) ≡ true))

step_keeps_request :
    (uri : String) (now : ℕ) (e : ParRequestEntry) (op : Op) (s : Store)
    → LeavesRequest uri now op
    → Lingers uri now e s
    → Lingers uri now e (step op s)
unfolding step
step_keeps_request uri now e (store_par_request u params at) s leaves h = ground (
  arith,
  eq_iff u uri,
  get-put u uri (record { params = params; created_at = at }) s.par_requests,
)
step_keeps_request uri now e (consume_par_request u at) s leaves h =
    ground (arith, eq_iff u uri, get-delete u uri s.par_requests)
step_keeps_request uri now e (peek_par_request u at) s leaves h =
    ground (arith, eq_iff u uri, get-delete u uri s.par_requests)
step_keeps_request uri now e _ s leaves h = ground arith

module _ (uri : String) (params : Params) (pushed now : ℕ) (ops : List Op) (s : Store) where
  lingers :
      All (LeavesRequest uri now) ops
      → Lingers uri now
          (record { params = params; created_at = pushed })
          (run ops (Requests.store_par_request uri params pushed s))
  unfolding Requests.store_par_request
  lingers leaves =
      let e : ParRequestEntry = record { params = params; created_at = pushed } in
      run_keeps (Lingers uri now e) (LeavesRequest uri now) (step_keeps_request uri now e) ops
        (Requests.store_par_request uri params pushed s) leaves
        (inl (get-put_self uri e s.par_requests))

  -- A request pushed at `pushed` is found at `now` exactly while at most `par_request_ttl` has
  -- passed, with the parameters that were pushed, by the look-up that consumes it and by the one
  -- that does not, whatever happens in between that neither pushes nor consumes this request URI:
  -- earlier look-ups at the same URI do not use it up.
  pub par_request_lifetime :
      All (LeavesRequest uri now) ops
      → let t = run ops (Requests.store_par_request uri params pushed s) in
        let found = if ltb par_request_ttl (now - pushed) then none else some params in
        ((Requests.consume_par_request uri now t).0 ≡ found)
        × ((Requests.peek_par_request uri now t).0 ≡ found)
  unfolding Requests.consume_par_request Requests.peek_par_request
  par_request_lifetime leaves = let h = lingers leaves in (ground (arith, h), ground (arith, h))

-- The step does not draw the same cookie value again.
abbrev pub LeavesCookie : String → Op → Type 0
LeavesCookie cookie (mark_identified c uri id params at) = c ≢ cookie
LeavesCookie cookie _ = Unit {0}

step_keeps_cookie :
    (cookie : String) (e : IdentifiedSessionEntry) (op : Op) (s : Store)
    → LeavesCookie cookie op
    → get cookie s.identified_sessions ≡ some e
    → get cookie (step op s).identified_sessions ≡ some e
unfolding step
step_keeps_cookie cookie e (mark_identified c uri id params at) s leaves held = ground (
  arith,
  eq_iff c cookie,
  get-put c cookie (record { request_uri = uri; record_id = id; params = params; created_at = at })
      s.identified_sessions,
)
step_keeps_cookie cookie e _ s leaves held = ground arith

-- A cookie, not empty, that names the identification of one request URI is accepted at `now` for
-- exactly that URI and for `identified_session_ttl`, and gives back the record and the parameters
-- that it was marked with, whatever other identifications and requests are in flight, as long as
-- none draws the same cookie.
pub check-mark_identified :
    (cookie uri id : String) (params : Params) (marked : ℕ) (asked : String) (now : ℕ)
    (ops : List Op) (s : Store)
    → cookie ≢ ""
    → All (LeavesCookie cookie) ops
    → Requests.check_identified cookie asked now
        (run ops (Requests.mark_identified cookie uri id params marked s))
      ≡ (if ltb identified_session_ttl (now - marked) || uri /= asked
          then none
          else some (id, params))
unfolding Requests.check_identified Requests.mark_identified
check-mark_identified cookie uri id params marked asked now ops s named leaves =
    let e : IdentifiedSessionEntry = record {
      request_uri = uri;
      record_id = id;
      params = params;
      created_at = marked;
    } in
    let held =
      run_keeps (λ t. get cookie t.identified_sessions ≡ some e) (LeavesCookie cookie)
        (step_keeps_cookie cookie e) ops (Requests.mark_identified cookie uri id params marked s)
        leaves (get-put_self cookie e s.identified_sessions) in
    ground (arith, held, eq_iff cookie "")
