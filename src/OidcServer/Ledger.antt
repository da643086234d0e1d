-- ===== src/OidcServer/Ledger.antt =====
-- What internal/oidcserver's store promises: maps from which nothing is removed for its age, and
-- whose entries count until they expire.
use fikua_lab_idp.Prelude.{
  ℕ, ◌+◌, String, Option, none, some, List, [], ◌∷◌, ltb, ◌==◌, is_empty, if◌then◌else◌,
}
use fikua_lab_idp.Action.{Result, ok, err}
use fikua_lab_idp.OidcServer.Types.{
  AuthRequest, AuthRequestEntry, AuthCodeEntry, RefreshTokenEntry, Authorize, RefreshTokenRequest,
  StorageError, invalid_request, invalid_grant, invalid_refresh_token, auth_request_ttl,
  auth_code_ttl, refresh_token_ttl, access_token_lifetime,
}
use fikua_lab_idp.OidcServer.Storage.{method_s256, new_auth_request}
use fikua_lab_idp.OidcServer.Trace.{
  Op, create, read, save_code, redeem, forget, link, finish, issue, refresh, revoke, Reply, created,
  found, redeemed, issued, refreshed, no_reply,
}

abbrev pub Table : Type 0 → Type 0
Table V = String → Option V

pub record Ledger : Type 0 where
  pub requests : Table AuthRequestEntry
  pub codes : Table AuthCodeEntry
  pub tokens : Table RefreshTokenEntry

abbrev pub empty : Ledger
empty = record { requests = λ id. none; codes = λ code. none; tokens = λ token. none }

module _ {V : Type 0} where
  abbrev pub set : String → Option V → Table V → Table V
  set k o f j = if k == j then o else f j

  abbrev pub live : (V → ℕ) → ℕ → Option V → Option V
  live expiry now none = none
  live expiry now (some v) = if ltb (expiry v) now then none else some v

  abbrev pub change : (V → V) → Option V → Option V
  change f none = none
  change f (some v) = some (f v)

abbrev pub request_at : String → ℕ → Ledger → Option AuthRequest
request_at id now l = elim (live (λ e. e.expires_at) now (l.requests id)) [
  | none ↦ none
  | some entry ↦ some entry.req
]

abbrev pub code_at : String → ℕ → Ledger → Option String
code_at code now l = elim (live (λ e. e.expires_at) now (l.codes code)) [
  | none ↦ none
  | some entry ↦ some entry.auth_request_id
]

abbrev pub token_at : String → ℕ → Ledger → Option RefreshTokenEntry
token_at token now l = live (λ e. e.expires_at) now (l.tokens token)

-- PKCE with S256 is mandatory.
abbrev pub admitted : String → ℕ → Authorize → Result StorageError AuthRequest
admitted id now req =
    if is_empty req.code_challenge
    then err (invalid_request "code_challenge is required")
    else if req.code_challenge_method == method_s256
    then ok (new_auth_request id now req method_s256)
    else err (invalid_request "only S256 code_challenge_method is supported")

abbrev pub record_request : ℕ → Result StorageError AuthRequest → Ledger → Ledger
record_request now (err e) l = l
record_request now (ok ar) l = record l {
  requests =
      set ar.id
        (some
          (record { req = ar; expires_at = now + auth_request_ttl; verification_session_id = "" }))
        l.requests;
}

abbrev pub owner : Option String → String
owner none = ""
owner (some client_id) = client_id

abbrev pub redemption : ℕ → Option String → Ledger → Result StorageError AuthRequest
redemption now none l = err (invalid_grant "invalid or expired authorization code")
redemption now (some id) l = elim (request_at id now l) [
  | none ↦ err (invalid_grant "authorization request expired")
  | some ar ↦ ok ar
]

abbrev pub refreshing : Option RefreshTokenEntry → Result StorageError RefreshTokenRequest
refreshing none = err invalid_refresh_token
refreshing (some e) =
    ok (record { subject = e.subject; client_id = e.client_id; scopes = e.scopes })

abbrev pub retired : String → Table RefreshTokenEntry → Table RefreshTokenEntry
retired current f = if current == "" then f else set current none f

unfoldable pub perform : ℕ → Op → Ledger → Reply × Ledger
perform now (create id req) l =
    (created (admitted id now req), record_request now (admitted id now req) l)
perform now (read id) l = (found (request_at id now l), l)
perform now (save_code id code) l = (
  no_reply,
  record l {
    codes =
        set code (some (record { auth_request_id = id; expires_at = now + auth_code_ttl })) l.codes;
  },
)
perform now (redeem code) l =
    (redeemed (redemption now (code_at code now l) l), record l { codes = set code none l.codes })
perform now (forget id) l = (no_reply, record l { requests = set id none l.requests })
perform now (link id session_id) l = (
  no_reply,
  record l {
    requests =
        set id (change (λ e. record e { verification_session_id = session_id }) (l.requests id))
          l.requests;
  },
)
perform now (finish id subject) l = (
  no_reply,
  record l {
    requests =
        set id
          (change (λ e. record e { req = record e.req { subject = subject; done_at = now } })
            (l.requests id))
          l.requests;
  },
)
perform now (issue token_id new req current) l = (
  issued (token_id, new, now + access_token_lifetime),
  record l {
    tokens =
        set new
          (some (record {
            subject = req.subject;
            client_id = owner req.client_id;
            scopes = req.scopes;
            expires_at = now + refresh_token_ttl;
          }))
          (retired current l.tokens);
  },
)
perform now (refresh token) l = (refreshed (refreshing (token_at token now l)), l)
perform now (revoke token) l = (no_reply, record l { tokens = set token none l.tokens })

unfoldable pub run : List (ℕ × Op) → Ledger → Ledger
run [] l = l
run ((now, op) ∷ ops) l = run ops (perform now op l).1

unfoldable pub replies : List (ℕ × Op) → Ledger → List Reply
replies [] l = []
replies ((now, op) ∷ ops) l = let (reply, l') = perform now op l in reply ∷ replies ops l'
