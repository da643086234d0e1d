-- ===== src/Session/SingleUse.antt =====
-- Codes, request URIs and deferred authorizations of internal/session/store.go are used once each,
-- however the requests interleave.
use fikua_lab_idp.Prelude.{
  ℕ, ◌+◌, ◌≤◌, ◌≡◌, ap, String, List, Option, none, some, arith, eq_iff, ◌==◌, if◌then◌else◌,
}
use fikua_lab_idp.Assoc.{get, get-put, get-delete}
use fikua_lab_idp.Session.Types.{Store}
use fikua_lab_idp.Session.Requests
use fikua_lab_idp.Session.Codes.{Consumed, redeemed, refused}
use fikua_lab_idp.Session.Codes
use fikua_lab_idp.Session.Trace.{
  Op, create_auth_code, consume_auth_code, store_par_request, consume_par_request, peek_par_request,
  store_pending_auth, consume_pending_auth, step, total, total_balance,
}

abbrev is_redeemed : Consumed → ℕ
is_redeemed (redeemed d) = 1
is_redeemed (refused r) = 0

-- 1 where the step redeems `code`.
unfoldable pub redemptions : String → Op → Store → ℕ
unfolding Codes.consume_auth_code
redemptions code (consume_auth_code c now) s =
    if c == code then is_redeemed (Codes.consume_auth_code c now s).0 else 0
redemptions code _ s = 0

-- 1 where the step issues `code`.
unfoldable pub issues : String → Op → Store → ℕ
issues code (create_auth_code c d now) s = if c == code then 1 else 0
issues code _ s = 0

abbrev present {ℓ} : {A : Type ℓ} → Option A → ℕ
present none = 0
present (some a) = 1

abbrev held : String → Store → ℕ
held code s = present (get code s.auth_codes)

code_balance :
    (code : String) (op : Op) (s : Store)
    → redemptions code op s + held code (step op s) ≤ issues code op s + held code s
unfolding redemptions issues step
code_balance code (create_auth_code c d now) s =
    ground (arith, get-put c code (record d { created_at = now }) s.auth_codes)
code_balance code (consume_auth_code c now) s =
    ground (arith, eq_iff c code, get-delete c code s.auth_codes)
code_balance code _ s = ground arith

-- Along any sequence of store operations, a code that the store does not hold at the start is
-- redeemed at most as often as it is issued afterwards: one issue, at most one redemption.
pub redemptions-le-issues :
    (code : String) (ops : List Op) (s : Store)
    → get code s.auth_codes ≡ none
    → total (redemptions code) ops s ≤ total (issues code) ops s
redemptions-le-issues code ops s fresh = omega (
  arith,
  total_balance (redemptions code) (issues code) (held code) (code_balance code) ops s,
  ap present fresh,
)

-- 1 where the step consumes the pushed request `uri` with success.
unfoldable pub request_uses : String → Op → Store → ℕ
unfolding Requests.consume_par_request
request_uses uri (consume_par_request u now) s =
    if u == uri then present (Requests.consume_par_request u now s).0 else 0
request_uses uri _ s = 0

-- 1 where the step pushes a request under `uri`.
unfoldable pub pushes : String → Op → Store → ℕ
pushes uri (store_par_request u params now) s = if u == uri then 1 else 0
pushes uri _ s = 0

request_balance :
    (uri : String) (op : Op) (s : Store)
    → request_uses uri op s + present (get uri (step op s).par_requests)
      ≤ pushes uri op s + present (get uri s.par_requests)
unfolding request_uses pushes step
request_balance uri (store_par_request u params now) s =
    ground (arith, get-put u uri (record { params = params; created_at = now }) s.par_requests)
request_balance uri (consume_par_request u now) s =
    ground (arith, eq_iff u uri, get-delete u uri s.par_requests)
request_balance uri (peek_par_request u now) s =
    ground (arith, eq_iff u uri, get-delete u uri s.par_requests)
request_balance uri _ s = ground arith

-- Along any sequence of store operations, a request URI that the store does not hold at the start
-- is consumed with success at most as often as a request is pushed under it.
pub request_uses-le-pushes :
    (uri : String) (ops : List Op) (s : Store)
    → get uri s.par_requests ≡ none
    → total (request_uses uri) ops s ≤ total (pushes uri) ops s
request_uses-le-pushes uri ops s fresh = omega (
  arith,
  total_balance (request_uses uri) (pushes uri) (λ t. present (get uri t.par_requests))
      (request_balance uri) ops s,
  ap present fresh,
)

-- 1 where the step takes the deferred authorization `token` out of the store.
unfoldable pub resumptions : String → Op → Store → ℕ
unfolding Requests.consume_pending_auth
resumptions token (consume_pending_auth t) s =
    if t == token then present (Requests.consume_pending_auth t s).0 else 0
resumptions token _ s = 0

-- 1 where the step defers an authorization under `token`.
unfoldable pub deferrals : String → Op → Store → ℕ
deferrals token (store_pending_auth t params) s = if t == token then 1 else 0
deferrals token _ s = 0

pending_balance :
    (token : String) (op : Op) (s : Store)
    → resumptions token op s + present (get token (step op s).pending_auth)
      ≤ deferrals token op s + present (get token s.pending_auth)
unfolding resumptions deferrals step
pending_balance token (store_pending_auth t params) s =
    ground (arith, get-put t token params s.pending_auth)
pending_balance token (consume_pending_auth t) s =
    ground (arith, eq_iff t token, get-delete t token s.pending_auth)
pending_balance token _ s = ground arith

-- Along any sequence of store operations, a deferred authorization is resumed at most as often as
-- it was deferred.
pub resumptions-le-deferrals :
    (token : String) (ops : List Op) (s : Store)
    → get token s.pending_auth ≡ none
    → total (resumptions token) ops s ≤ total (deferrals token) ops s
resumptions-le-deferrals token ops s fresh = omega (
  arith,
  total_balance (resumptions token) (deferrals token) (λ t. present (get token t.pending_auth))
      (pending_balance token) ops s,
  ap present fresh,
)
