-- ===== src/OidcServer/Types.antt =====
-- internal/oidcserver/store.go, authrequest.go and refreshtoken.go: what the provider keeps.
use fikua_lab_idp.Prelude.{ℕ, ◌*◌, String, Bool, not, Option, List, [], minute, is_empty}
use fikua_lab_idp.Assoc.{Assoc}

abbrev pub auth_request_ttl : ℕ
auth_request_ttl = 5 * minute

abbrev pub auth_code_ttl : ℕ
auth_code_ttl = minute

abbrev pub refresh_token_ttl : ℕ
refresh_token_ttl = 30 * minute

abbrev pub access_token_lifetime : ℕ
access_token_lifetime = 5 * minute

pub record CodeChallenge : Type 0 where
  pub challenge : String
  pub method : String

-- `done_at` is 0 for the zero time.
pub record AuthRequest : Type 0 where
  pub id : String
  pub client_id : String
  pub redirect_uri : String
  pub state : String
  pub nonce : String
  pub scopes : List String
  pub response_type : String
  pub code_challenge : Option CodeChallenge
  pub created_at : ℕ
  pub subject : String
  pub done_at : ℕ

abbrev pub is_done : AuthRequest → Bool
is_done ar = not (is_empty ar.subject)

pub record AuthRequestEntry : Type 0 where
  pub req : AuthRequest
  pub expires_at : ℕ
  pub verification_session_id : String

pub record AuthCodeEntry : Type 0 where
  pub auth_request_id : String
  pub expires_at : ℕ

pub record RefreshTokenEntry : Type 0 where
  pub subject : String
  pub client_id : String
  pub scopes : List String
  pub expires_at : ℕ

pub record OidcStore : Type 0 where
  pub auth_requests : Assoc AuthRequestEntry
  pub auth_codes : Assoc AuthCodeEntry
  pub refresh_tokens : Assoc RefreshTokenEntry

abbrev pub new_store : OidcStore
new_store = record { auth_requests = []; auth_codes = []; refresh_tokens = [] }

-- `oidc.AuthRequest`, as far as it is read.
pub record Authorize : Type 0 where
  pub client_id : String
  pub redirect_uri : String
  pub state : String
  pub nonce : String
  pub scopes : List String
  pub response_type : String
  pub code_challenge : String
  pub code_challenge_method : String

-- `op.TokenRequest`; `client_id` is `none` for a request with no `GetClientID`.
pub record TokenRequest : Type 0 where
  pub subject : String
  pub client_id : Option String
  pub scopes : List String

pub record RefreshTokenRequest : Type 0 where
  pub subject : String
  pub client_id : String
  pub scopes : List String

-- The errors of the OpenID library that the storage answers with, and its own.
pub data StorageError : Type 0 where
  invalid_client : String → StorageError
  invalid_request : String → StorageError
  invalid_grant : String → StorageError
  auth_request_not_found : StorageError
  invalid_refresh_token : StorageError
  unsupported : String → StorageError
