-- ===== src/OidcServer/Tests.antt =====
-- Logins through internal/oidcserver, and calls on its store.
use fikua_lab_idp.Prelude.{
  Among, ℕ, ◌≡◌, ◌≢◌, ◌⊎◌, refl, String, true, none, some, List, [], ◌∷◌, ◌<>◌, arith, second,
  minute, ne_of_test, ◌*◌,
}
use fikua_lab_idp.Assoc.{get, put}
use fikua_lab_idp.Action.{ok, err}
use fikua_lab_idp.Session.Types.{VerificationSession, new_store as no_sessions}
use fikua_lab_idp.OidcServer.Types.{
  AuthRequest, AuthRequestEntry, Authorize, TokenRequest, new_store, is_done, invalid_grant,
  invalid_refresh_token,
}
use fikua_lab_idp.OidcServer.Store.{get_auth_request}
use fikua_lab_idp.OidcServer.Storage.{
  create_auth_request, auth_request_by_code, save_auth_code, create_access_and_refresh_tokens,
  token_request_by_refresh_token, new_auth_request,
}
use fikua_lab_idp.OidcServer.Login.{World, done, complete, poll_handler}
use fikua_lab_idp.OidcServer.Trace.{
  Op, create, read, save_code, redeem, link, finish, issue, refresh, run, replies,
}
use fikua_lab_idp.OidcServer.Ledger
use fikua_lab_idp.OidcServer.Replies.{IsOrdered, replies_refine}
use fikua_lab_idp.OidcServer.SingleUse.{rotated_token_refused, redeemed_code_refused}
use fikua_lab_idp.OidcServer.Logins.{
  IsCompletion, poll_handler_sound, completed_by_finish, login_round_trip,
}

abbrev authorize : Authorize
authorize = record {
  client_id = "decidim";
  redirect_uri = "https://decidim/callback";
  state = "st";
  nonce = "n";
  scopes = "openid" ∷ "padro" ∷ [];
  response_type = "code";
  code_challenge = "challenge";
  code_challenge_method = "S256";
}

abbrev token_request : TokenRequest
token_request = record { subject = "sub"; client_id = some "decidim"; scopes = "openid" ∷ [] }

-- A login that is completed, redeemed twice, and looked up once more when it has expired.
abbrev calls : List (ℕ × Op)
calls =
    (0, create "r1" authorize)
    ∷ (second, link "r1" "v1")
    ∷ (2 * second, finish "r1" "sub")
    ∷ (2 * second, save_code "r1" "c1")
    ∷ (3 * second, redeem "c1")
    ∷ (4 * second, redeem "c1")
    ∷ (4 * second, issue "t1" "f1" token_request "")
    ∷ (5 * second, refresh "f1")
    ∷ (6 * minute, read "r1")
    ∷ []

ordered : IsOrdered 0 calls
ordered = (
  omega arith,
  (
    omega arith,
    (
      omega arith,
      (omega arith, (omega arith, (omega arith, (omega arith, (omega arith, (omega arith, tt)))))),
    ),
  ),
)

replies_refine_example : replies calls new_store ≡ Ledger.replies calls Ledger.empty
replies_refine_example = replies_refine calls ordered

rotated_token_refused_example :
    (token_request_by_refresh_token "f1" second (
      run
        ((0, refresh "f2") ∷ [])
        (create_access_and_refresh_tokens "t2" "f2" 0 token_request "f1" new_store).1)).0
    ≡ err invalid_refresh_token
rotated_token_refused_example =
    rotated_token_refused "t2" "f2" "f1" 0 second token_request ((0, refresh "f2") ∷ []) new_store
      (ne_of_test "f1" "" refl) (ne_of_test "f2" "f1" refl) tt

redeemed_code_refused_example :
    (auth_request_by_code "c1" second
      (run ((0, save_code "r1" "c2") ∷ []) (auth_request_by_code "c1" 0 new_store).1)).0
    ≡ err (invalid_grant "invalid or expired authorization code")
redeemed_code_refused_example =
    redeemed_code_refused "c1" 0 second ((0, save_code "r1" "c2") ∷ []) new_store
      (ne_of_test "c2" "c1" refl, tt)

abbrev finished_entry : AuthRequestEntry
finished_entry = record {
  req = record (new_auth_request "r1" 0 authorize "S256") { subject = "sub"; done_at = second };
  expires_at = 5 * minute;
  verification_session_id = "";
}

abbrev finishing : List (ℕ × Op)
finishing = (0, create "r1" authorize) ∷ (second, finish "r1" "sub") ∷ []

finishes : get "r1" (run finishing new_store).auth_requests ≡ some finished_entry
unfolding run get fikua_lab_idp.OidcServer.Trace.perform complete create_auth_request
    fikua_lab_idp.OidcServer.Store.put_auth_request put
finishes = refl

completed_by_finish_example : (now : ℕ) × Among (now, finish "r1" "sub") finishing
completed_by_finish_example =
    completed_by_finish finishing "r1" finished_entry finishes (ne_of_test "sub" "" refl)

login_round_trip_example :
    (auth_request_by_code "c1" (3 * second) (
      save_auth_code "r1" "c1"
        (2 * second)
        (complete "r1" "sub" second (create_auth_request "r1" 0 authorize new_store).1))).0
    ≡ ok (record (new_auth_request "r1" 0 authorize "S256") { subject = "sub"; done_at = second })
login_round_trip_example =
    login_round_trip "r1" "c1" "sub" 0 second (2 * second) (3 * second) authorize new_store
      (ne_of_test "challenge" "" refl) refl (omega arith) (omega arith)

abbrev verified_session : VerificationSession
verified_session = record {
  session_id = "v1";
  state = "st";
  nonce = "n";
  dcql_query = record { credentials = []; credential_sets = [] };
  response_mode = "direct_post.jwt";
  client_id = "x509_hash:abc";
  response_uri = "https://verifier/oid4vp/v1/response";
  request_jwt = "jwt";
  encryption_key = none;
  status = "verified";
  vp_tokens = [];
  verified_claims = [];
  subject_id = "sub";
  error = "";
  created_at = 0;
}

abbrev waiting : World
waiting = record {
  oidc = run ((0, create "r1" authorize) ∷ (0, link "r1" "v1") ∷ []) new_store;
  sessions = record no_sessions { verifications = ("v1", verified_session) ∷ [] };
}

abbrev callback : String → String
callback id = "https://idp/callback?id=" <> id

polls_done : (poll_handler callback second "r1" waiting).0 ≡ done "https://idp/callback?id=r1"
unfolding poll_handler get_auth_request get run fikua_lab_idp.OidcServer.Trace.perform
    fikua_lab_idp.OidcServer.Store.link_verification_session create_auth_request
    fikua_lab_idp.OidcServer.Store.put_auth_request put
    fikua_lab_idp.OidcServer.Store.get_verification_session
    fikua_lab_idp.Session.Verifications.find_verification
polls_done = refl

poll_handler_sound_example :
    ((ar : AuthRequest) × ((poll_handler callback second "r1" waiting).0 ≡ done (callback ar.id))
      × IsCompletion callback second "r1" waiting ar (poll_handler callback second "r1" waiting).1)
    ⊎ (((poll_handler callback second "r1" waiting).1.oidc
          ≡ (get_auth_request "r1" second waiting.oidc).1)
        × (((url : String) → (poll_handler callback second "r1" waiting).0 ≢ done url)
            ⊎ ((ar : AuthRequest) × ((get_auth_request "r1" second waiting.oidc).0 ≡ some ar)
                × (is_done ar ≡ true))))
poll_handler_sound_example = poll_handler_sound callback second "r1" waiting
