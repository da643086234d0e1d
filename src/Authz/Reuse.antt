-- ===== src/Authz/Reuse.antt =====
-- A second use of an authorization code at the token endpoint of internal/authz/service.go.
use fikua_lab_idp.Prelude.{
  ℕ, ◌+◌, ◌*◌, ◌≤◌, ◌≡◌, ◌≢◌, String, true, none, some, List, All, elem, arith, eq_iff, refl,
}
use fikua_lab_idp.Assoc.{get}
use fikua_lab_idp.Action.{ok, err}
use fikua_lab_idp.Session.Types.{revoked_jti_retention}
use fikua_lab_idp.Session.Codes.{consume_auth_code, revoke_tokens_for_code, revoked_jtis_list}
use fikua_lab_idp.Session.Trace.{Op, run}
use fikua_lab_idp.Session.Revocation.{Within, revoked_stays_published}
use fikua_lab_idp.OAuth2.Token.{TokenRequest}
use fikua_lab_idp.Authz.Types.{Service, State}
use fikua_lab_idp.Authz.TokenGrant.{ungranted, authenticate, redeem_code, handle_auth_code_token}

module _ {Key Cert : Type 0} (svc : Service Key Cert) (now : ℕ) where
  reuse_revokes :
      (code jti : String) (s : State)
      → code ≢ ""
      → get code s.sessions.auth_codes ≡ none
      → get code s.sessions.issued_jti_by_code ≡ some jti
      → redeem_code svc now code s ≡ (
        err (ungranted "Invalid authorization code"),
        record s { sessions = revoke_tokens_for_code code now s.sessions },
      )
  unfolding redeem_code consume_auth_code
  reuse_revokes code jti s named gone issued = ground (arith, eq_iff code "")

  -- When an authenticated client presents a code that is gone and against which the token `jti` is
  -- recorded (as a successful token request leaves them), it gets `invalid_grant`; and the
  -- denylist, downloaded at any `later` up to twice the retention after this request, names `jti`,
  -- whatever operations on the store come in between, of which no download of the list is later
  -- than that either.
  pub reused_code_revokes_token :
      (nonce fresh_jti jti : String) (req : TokenRequest) (dpop wia pop : String)
      (client : String × Key) (s s' : State) (later : ℕ) (ops : List Op)
      → authenticate svc now req dpop wia pop s ≡ (ok client, s')
      → req.code ≢ ""
      → get req.code s'.sessions.auth_codes ≡ none
      → get req.code s'.sessions.issued_jti_by_code ≡ some jti
      → All (Within now) ops
      → later ≤ now + 2 * revoked_jti_retention
      → let outcome = handle_auth_code_token svc now nonce fresh_jti req dpop wia pop s in
        (outcome.0 ≡ err (ungranted "Invalid authorization code"))
        × (elem jti (revoked_jtis_list later (run ops outcome.1.sessions)).0 ≡ true)
  unfolding handle_auth_code_token
  reused_code_revokes_token nonce fresh_jti jti req dpop wia pop client s s' later ops auth named
        gone issued within early =
      rw (auth, reuse_revokes req.code jti s' named gone issued)
        (refl, revoked_stays_published req.code jti now later ops s'.sessions issued within early)
