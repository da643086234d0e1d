-- ===== src/OidcServer/Storage.antt =====
-- internal/oidcserver/storage.go and client.go: the storage behind the OpenID library.
use fikua_lab_idp.Prelude.{
  ℕ, ◌+◌, String, Bool, ◌&&◌, Option, none, some, ◌==◌, ◌/=◌, is_empty, ◌<>◌, if◌then◌else◌,
}
use fikua_lab_idp.Action.{
  Result, ok, err, Action, pure, reject_if, modify, or_fail, steps, ◌>>=◌, ◌>>◌,
}
use fikua_lab_idp.OidcClients
use fikua_lab_idp.OidcClients.{Registry, lookup, is_credential_scope}
use fikua_lab_idp.OidcServer.Types.{
  AuthRequest, Authorize, TokenRequest, RefreshTokenRequest, OidcStore, StorageError,
  invalid_client, invalid_request, invalid_grant, auth_request_not_found, invalid_refresh_token,
  access_token_lifetime,
}
use fikua_lab_idp.OidcServer.Store.{
  put_auth_request, get_auth_request, put_auth_code, consume_auth_code, put_refresh_token,
  get_refresh_token, delete_refresh_token,
}

abbrev pub method_plain : String
method_plain = "plain"

abbrev pub method_s256 : String
method_s256 = "S256"

-- `client`, which adapts a registered client for the OpenID library.
pub record ClientAdapter : Type 0 where
  pub cfg : OidcClients.Client
  pub login_base_path : String
  pub registry : Registry

unfoldable pub client : Registry → String → String → Result StorageError ClientAdapter
client registry login_base_path client_id = elim (lookup registry client_id) [
  | none ↦ err (invalid_client "unknown client_id")
  | some cfg ↦ ok (record { cfg = cfg; login_base_path = login_base_path; registry = registry })
]

unfoldable pub login_url : ClientAdapter → String → String
login_url c auth_request_id = c.login_base_path <> "?id=" <> auth_request_id

unfoldable pub is_scope_allowed : ClientAdapter → String → Bool
is_scope_allowed c scope = is_credential_scope c.registry scope

abbrev unsupported_method : StorageError
unsupported_method = invalid_request "only S256 code_challenge_method is supported"

-- `method`, after the two assignments; `none` where the method is neither.
abbrev pub method_of : String → Option String
method_of asked =
    if asked == method_s256
    then some method_s256
    else if asked /= "" && asked /= method_plain
    then none
    else some method_plain

-- `id` is the random token.
abbrev pub new_auth_request : String → ℕ → Authorize → String → AuthRequest
new_auth_request id now req method = record {
  id = id;
  client_id = req.client_id;
  redirect_uri = req.redirect_uri;
  state = req.state;
  nonce = req.nonce;
  scopes = req.scopes;
  response_type = req.response_type;
  code_challenge = some (record { challenge = req.code_challenge; method = method });
  created_at = now;
  subject = "";
  done_at = 0;
}

unfoldable pub create_auth_request :
    String → ℕ → Authorize → Action OidcStore StorageError AuthRequest
create_auth_request id now req = do
  reject_if (is_empty req.code_challenge) (invalid_request "code_challenge is required")
  method ← or_fail (method_of req.code_challenge_method) unsupported_method
  reject_if (method /= method_s256) unsupported_method
  modify (put_auth_request (new_auth_request id now req method) now)
  pure (new_auth_request id now req method)

unfoldable pub auth_request_by_id : String → ℕ → Action OidcStore StorageError AuthRequest
auth_request_by_id id now = do
  found ← steps (get_auth_request id now)
  or_fail found auth_request_not_found

unfoldable pub auth_request_by_code : String → ℕ → Action OidcStore StorageError AuthRequest
auth_request_by_code code now = do
  consumed ← steps (consume_auth_code code now)
  id ← or_fail consumed (invalid_grant "invalid or expired authorization code")
  found ← steps (get_auth_request id now)
  or_fail found (invalid_grant "authorization request expired")

unfoldable pub save_auth_code : String → String → ℕ → OidcStore → OidcStore
save_auth_code id code now s = put_auth_code code id now s

-- The token's id and its expiry.
unfoldable pub create_access_token : String → ℕ → String × ℕ
create_access_token token_id now = (token_id, now + access_token_lifetime)

abbrev pub client_id_from_token_request : TokenRequest → String
client_id_from_token_request req = elim req.client_id [ none ↦ "" | some client_id ↦ client_id ]

abbrev pub rotate_out : String → OidcStore → OidcStore
rotate_out current s = if current /= "" then delete_refresh_token current s else s

-- `token_id` and `new_refresh_token` are the random tokens; the answer is both and the expiry.
unfoldable pub create_access_and_refresh_tokens :
    String → String → ℕ → TokenRequest → String → OidcStore → (String × String × ℕ) × OidcStore
create_access_and_refresh_tokens token_id new_refresh_token now req current s = (
  (token_id, new_refresh_token, now + access_token_lifetime),
  put_refresh_token new_refresh_token req.subject (client_id_from_token_request req) req.scopes now
      (rotate_out current s),
)

unfoldable pub token_request_by_refresh_token :
    String → ℕ → Action OidcStore StorageError RefreshTokenRequest
token_request_by_refresh_token refresh_token now = do
  found ← steps (get_refresh_token refresh_token now)
  entry ← or_fail found invalid_refresh_token
  pure (record { subject = entry.subject; client_id = entry.client_id; scopes = entry.scopes })

unfoldable pub revoke_token : String → OidcStore → OidcStore
revoke_token token s = delete_refresh_token token s

-- The user's id and the token's.
unfoldable pub get_refresh_token_info :
    String → String → ℕ → Action OidcStore StorageError (String × String)
get_refresh_token_info client_id token now = do
  found ← steps (get_refresh_token token now)
  entry ← or_fail found invalid_refresh_token
  reject_if (entry.client_id /= client_id) invalid_refresh_token
  pure (entry.subject, token)
