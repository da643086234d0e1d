-- ===== src/OidcServer/Trace.antt =====
-- Sequences of calls of internal/oidcserver's storage and login handlers.
use fikua_lab_idp.Prelude.{ℕ, String, Option, List, [], ◌∷◌}
use fikua_lab_idp.Action.{Result}
use fikua_lab_idp.OidcServer.Types.{
  AuthRequest, Authorize, TokenRequest, RefreshTokenRequest, OidcStore, StorageError,
}
use fikua_lab_idp.OidcServer.Store.{get_auth_request, link_verification_session}
use fikua_lab_idp.OidcServer.Storage.{
  create_auth_request, auth_request_by_code, save_auth_code, create_access_and_refresh_tokens,
  token_request_by_refresh_token, revoke_token,
}
use fikua_lab_idp.OidcServer.Store.{delete_auth_request}
use fikua_lab_idp.OidcServer.Login.{complete}

-- `read` is each read of a request by its id; `finish` is what a poll writes.
pub data Op : Type 0 where
  create : String → Authorize → Op
  read : String → Op
  save_code : String → String → Op
  redeem : String → Op
  forget : String → Op
  link : String → String → Op
  finish : String → String → Op
  issue : String → String → TokenRequest → String → Op
  refresh : String → Op
  revoke : String → Op

pub data Reply : Type 0 where
  created : Result StorageError AuthRequest → Reply
  found : Option AuthRequest → Reply
  redeemed : Result StorageError AuthRequest → Reply
  issued : String × String × ℕ → Reply
  refreshed : Result StorageError RefreshTokenRequest → Reply
  no_reply : Reply

abbrev pub tag : {A : Type 0} → (A → Reply) → A × OidcStore → Reply × OidcStore
tag f (a, s) = (f a, s)

unfoldable pub perform : ℕ → Op → OidcStore → Reply × OidcStore
perform now (create id req) s = tag created (create_auth_request id now req s)
perform now (read id) s = tag found (get_auth_request id now s)
perform now (save_code id code) s = (no_reply, save_auth_code id code now s)
perform now (redeem code) s = tag redeemed (auth_request_by_code code now s)
perform now (forget id) s = (no_reply, delete_auth_request id s)
perform now (link id session_id) s = (no_reply, link_verification_session id session_id s)
perform now (finish id subject) s = (no_reply, complete id subject now s)
perform now (issue token_id new req current) s =
    tag issued (create_access_and_refresh_tokens token_id new now req current s)
perform now (refresh token) s = tag refreshed (token_request_by_refresh_token token now s)
perform now (revoke token) s = (no_reply, revoke_token token s)

-- The store after the calls, each at its time.
unfoldable pub run : List (ℕ × Op) → OidcStore → OidcStore
run [] s = s
run ((now, op) ∷ ops) s = run ops (perform now op s).1

-- Their replies.
unfoldable pub replies : List (ℕ × Op) → OidcStore → List Reply
unfolding run
replies [] s = []
replies ((now, op) ∷ ops) s = let (reply, s') = perform now op s in reply ∷ replies ops s'
