-- ===== src/Session/Requests.antt =====
-- internal/session/store.go: pushed requests, deferred authorizations and identifications.
-- Each operation runs under the store's mutex: it is one step. `now` is the clock at that step, and
-- a token that `RandomToken` draws is an argument.
use fikua_lab_idp.Prelude.{
  ℕ, ◌+◌, ◌-◌, String, ◌||◌, Option, none, some, ltb, ◌/=◌, is_empty, if◌then◌else◌,
}
use fikua_lab_idp.Assoc.{get, put, delete}
use fikua_lab_idp.Session.Types.{
  Params, Store, par_request_ttl, identified_session_ttl, identify_replay_ttl,
}

unfoldable pub store_par_request : String → Params → ℕ → Store → Store
store_par_request request_uri params now s = record s {
  par_requests = put request_uri (record { params = params; created_at = now }) s.par_requests;
}

unfoldable pub consume_par_request : String → ℕ → Store → Option Params × Store
consume_par_request request_uri now s = elim (get request_uri s.par_requests) [
  | none ↦ (none, s)
  | some entry ↦ (
    if ltb par_request_ttl (now - entry.created_at) then none else some entry.params,
    record s { par_requests = delete request_uri s.par_requests },
  )
]

unfoldable pub peek_par_request : String → ℕ → Store → Option Params × Store
peek_par_request request_uri now s = elim (get request_uri s.par_requests) [
  | none ↦ (none, s)
  | some entry ↦
      if ltb par_request_ttl (now - entry.created_at)
      then (none, record s { par_requests = delete request_uri s.par_requests })
      else (some entry.params, s)
]

-- `token` is the fresh token that the method returns.
unfoldable pub store_pending_auth : String → Params → Store → Store
store_pending_auth token params s = record s { pending_auth = put token params s.pending_auth }

unfoldable pub get_pending_auth : String → Store → Option Params
get_pending_auth token s = get token s.pending_auth

unfoldable pub consume_pending_auth : String → Store → Option Params × Store
consume_pending_auth token s = elim (get token s.pending_auth) [
  | none ↦ (none, s)
  | some params ↦ (some params, record s { pending_auth = delete token s.pending_auth })
]

-- `cookie_value` is the fresh token that the method returns.
unfoldable pub mark_identified : String → String → String → Params → ℕ → Store → Store
mark_identified cookie_value request_uri record_id params now s = record s {
  identified_sessions =
      put cookie_value
        (record {
          request_uri = request_uri;
          record_id = record_id;
          params = params;
          created_at = now;
        })
        s.identified_sessions;
}

unfoldable pub check_identified : String → String → ℕ → Store → Option (String × Params)
check_identified cookie_value request_uri now s =
    if is_empty cookie_value then none else elim (get cookie_value s.identified_sessions) [
      | none ↦ none
      | some entry ↦
          if ltb identified_session_ttl (now - entry.created_at) || entry.request_uri /= request_uri
          then none
          else some (entry.record_id, entry.params)
    ]

unfoldable pub store_identify_replay : String → String → ℕ → Store → Store
store_identify_replay token redirect now s = record s {
  identify_replay =
      put token (record { redirect = redirect; expiry = now + identify_replay_ttl })
        s.identify_replay;
}

unfoldable pub get_identify_replay : String → ℕ → Store → Option String
get_identify_replay token now s = elim (get token s.identify_replay) [
  | none ↦ none
  | some entry ↦ if ltb entry.expiry now then none else some entry.redirect
]
