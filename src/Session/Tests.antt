-- ===== src/Session/Tests.antt =====
-- Concrete runs of the store of internal/session/store.go.
use fikua_lab_idp.Prelude.{
  ◌*◌, ◌≤◌, ◌≡◌, refl, String, true, List, [], ◌∷◌, some, elem, arith, second, minute, ◌≢◌,
  ne_of_test,
}
use fikua_lab_idp.Assoc.{get, put, delete}
use fikua_lab_idp.Session.Types.{Store, Data, Params, VerificationSession, new_store}
use fikua_lab_idp.Session.Codes
use fikua_lab_idp.Session.Codes.{redeemed, refused}
use fikua_lab_idp.Session.Trace.{Op, run, total}
use fikua_lab_idp.Session.SingleUse.{
  redemptions, issues, request_uses, pushes, redemptions-le-issues, request_uses-le-pushes,
}
use fikua_lab_idp.Session.Lifetimes.{consume-create_auth_code}
use fikua_lab_idp.Session.Revocation.{revoked_stays_published}
use fikua_lab_idp.Session.Index.{IsIndexed, IsFresh}
use fikua_lab_idp.Session.Index.Always.{IsIndexed-always}

abbrev session : Data
session = record { session_id = "s"; created_at = 0; metadata = [] }

abbrev params : Params
params = ("scope", "pid") ∷ []

-- A code is issued, presented twice, and another one is issued.
abbrev two_presentations : List Op
two_presentations =
    Op.create_auth_code "c" session 0
    ∷ Op.consume_auth_code "c" second
    ∷ Op.create_auth_code "d" session second
    ∷ Op.consume_auth_code "c" (2 * second)
    ∷ []

redemptions-le-issues_example :
    total (redemptions "c") two_presentations new_store
    ≤ total (issues "c") two_presentations new_store
unfolding new_store get
redemptions-le-issues_example = redemptions-le-issues "c" two_presentations new_store refl

one_redemption : total (redemptions "c") two_presentations new_store ≡ 1
unfolding total redemptions new_store get put delete
one_redemption = refl

abbrev two_visits : List Op
two_visits =
    Op.store_par_request "u" params 0
    ∷ Op.peek_par_request "u" second
    ∷ Op.consume_par_request "u" second
    ∷ Op.consume_par_request "u" second
    ∷ []

request_uses-le-pushes_example :
    total (request_uses "u") two_visits new_store ≤ total (pushes "u") two_visits new_store
unfolding new_store get
request_uses-le-pushes_example = request_uses-le-pushes "u" two_visits new_store refl

one_use : total (request_uses "u") two_visits new_store ≡ 1
unfolding total request_uses new_store get put delete
one_use = refl

abbrev two_submissions : List Op
two_submissions =
    Op.store_pending_auth "t" params
    ∷ Op.consume_pending_auth "t"
    ∷ Op.consume_pending_auth "t"
    ∷ []

abbrev others : List Op
others = Op.create_auth_code "d" session second ∷ Op.consume_auth_code "d" (2 * second) ∷ []

d-ne-c : ◌≢◌ {A = String} "d" "c"
d-ne-c = ne_of_test "d" "c" refl

consume-create_auth_code_example :
    (Codes.consume_auth_code "c"
      (30 * second)
      (run others (Codes.create_auth_code "c" session 0 new_store))).0
    ≡ redeemed session
consume-create_auth_code_example =
    consume-create_auth_code "c" session 0 (30 * second) others new_store (d-ne-c, (d-ne-c, tt))

abbrev peeks : List Op
peeks = Op.peek_par_request "u" second ∷ Op.peek_par_request "u" (2 * second) ∷ []

abbrev marks_another : List Op
marks_another = Op.mark_identified "d" "v" "r2" params second ∷ []

abbrev issued : Store
issued = record new_store { issued_jti_by_code = ("c", "j") ∷ ("d", "k") ∷ [] }

abbrev busy : List Op
busy =
    Op.revoke_tokens_for_code "d" minute
    ∷ Op.revoked_jtis_list (5 * minute)
    ∷ Op.revoked_jtis_list (10 * minute)
    ∷ []

revoked_stays_published_example :
    elem "j"
      (Codes.revoked_jtis_list
        (20 * minute)
        (run busy (Codes.revoke_tokens_for_code "c" 0 issued))).0
    ≡ true
unfolding get
revoked_stays_published_example =
    revoked_stays_published "c" "j" 0 (20 * minute) busy issued refl
      (omega arith, (omega arith, (omega arith, tt))) (omega arith)

abbrev wallet_session : VerificationSession
wallet_session = record {
  session_id = "v1";
  state = "st";
  nonce = "n";
  dcql_query = record { credentials = []; credential_sets = [] };
  response_mode = "direct_post.jwt";
  client_id = "x509_hash:abc";
  response_uri = "https://verifier/response";
  request_jwt = "jwt";
  encryption_key = some (record { private_key = "d"; kid = "k" });
  status = "pending";
  vp_tokens = [];
  verified_claims = [];
  subject_id = "";
  error = "";
  created_at = 0;
}

abbrev one_session : List Op
one_session =
    Op.store_verification wallet_session 0
    ∷ Op.update_verification_status "v1" "request_sent" second
    ∷ []

abbrev sent : VerificationSession
sent = record wallet_session { status = "request_sent" }

new_store-IsFresh : IsFresh wallet_session new_store
unfolding new_store get
new_store-IsFresh = record { new_id = refl; new_state = refl; new_kid = λ key e. refl }

IsIndexed-always_example : IsIndexed (run one_session new_store)
unfolding new_store get
IsIndexed-always_example = IsIndexed-always one_session (new_store-IsFresh, (tt, tt))
