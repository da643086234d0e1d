-- ===== src/OidcServer/Store.antt =====
-- internal/oidcserver/store.go: the operations on its three maps.
use fikua_lab_idp.Prelude.{ℕ, ◌+◌, String, Option, none, some, List, ltb, is_empty, if◌then◌else◌}
use fikua_lab_idp.Assoc.{get, put, delete}
use fikua_lab_idp.OidcServer.Types.{
  AuthRequest, AuthRequestEntry, AuthCodeEntry, RefreshTokenEntry, OidcStore, auth_request_ttl,
  auth_code_ttl, refresh_token_ttl,
}

unfoldable pub put_auth_request : AuthRequest → ℕ → OidcStore → OidcStore
put_auth_request req now s = record s {
  auth_requests =
      put req.id
        (record { req = req; expires_at = now + auth_request_ttl; verification_session_id = "" })
        s.auth_requests;
}

unfoldable pub get_auth_request : String → ℕ → OidcStore → Option AuthRequest × OidcStore
get_auth_request id now s = elim (get id s.auth_requests) [
  | none ↦ (none, record s { auth_requests = delete id s.auth_requests })
  | some entry ↦
      if ltb entry.expires_at now
      then (none, record s { auth_requests = delete id s.auth_requests })
      else (some entry.req, s)
]

unfoldable pub delete_auth_request : String → OidcStore → OidcStore
delete_auth_request id s = record s { auth_requests = delete id s.auth_requests }

-- A write through the entry's pointer, where there is one under the id.
abbrev pub change_entry : (AuthRequestEntry → AuthRequestEntry) → String → OidcStore → OidcStore
change_entry f id s = elim (get id s.auth_requests) [
  | none ↦ s
  | some entry ↦ record s { auth_requests = put id (f entry) s.auth_requests }
]

unfoldable pub link_verification_session : String → String → OidcStore → OidcStore
link_verification_session auth_request_id verification_session_id s =
    change_entry (λ entry. record entry { verification_session_id = verification_session_id })
      auth_request_id s

unfoldable pub get_verification_session : String → OidcStore → Option String
get_verification_session auth_request_id s = elim (get auth_request_id s.auth_requests) [
  | none ↦ none
  | some entry ↦
      if is_empty entry.verification_session_id then none else some entry.verification_session_id
]

unfoldable pub put_auth_code : String → String → ℕ → OidcStore → OidcStore
put_auth_code code auth_request_id now s = record s {
  auth_codes =
      put code (record { auth_request_id = auth_request_id; expires_at = now + auth_code_ttl })
        s.auth_codes;
}

abbrev live_code : ℕ → Option AuthCodeEntry → Option String
live_code now none = none
live_code now (some entry) = if ltb entry.expires_at now then none else some entry.auth_request_id

unfoldable pub consume_auth_code : String → ℕ → OidcStore → Option String × OidcStore
consume_auth_code code now s =
    (live_code now (get code s.auth_codes), record s { auth_codes = delete code s.auth_codes })

unfoldable pub put_refresh_token :
    String → String → String → List String → ℕ → OidcStore → OidcStore
put_refresh_token token subject client_id scopes now s = record s {
  refresh_tokens =
      put token
        (record {
          subject = subject;
          client_id = client_id;
          scopes = scopes;
          expires_at = now + refresh_token_ttl;
        })
        s.refresh_tokens;
}

unfoldable pub get_refresh_token : String → ℕ → OidcStore → Option RefreshTokenEntry × OidcStore
get_refresh_token token now s = elim (get token s.refresh_tokens) [
  | none ↦ (none, record s { refresh_tokens = delete token s.refresh_tokens })
  | some entry ↦
      if ltb entry.expires_at now
      then (none, record s { refresh_tokens = delete token s.refresh_tokens })
      else (some entry, s)
]

unfoldable pub delete_refresh_token : String → OidcStore → OidcStore
delete_refresh_token token s = record s { refresh_tokens = delete token s.refresh_tokens }
