-- ===== src/Authz/VisitTests.antt =====
-- Concrete visits to `/authorize` and its identification form, of internal/authz.
use fikua_lab_idp.Prelude.{
  ◌+◌, ◌*◌, ◌≡◌, refl, [], ◌∷◌, some, none, arith, second, minute, ne_of_test,
}
use fikua_lab_idp.Assoc.{get, text_at}
use fikua_lab_idp.Action.{ok, err}
use fikua_lab_idp.Session.Types.{Params, ParRequestEntry, new_store}
use fikua_lab_idp.Session.Requests.{check_identified, get_identify_replay}
use fikua_lab_idp.Authz.Types.{State, invalid, pending_request_uri_key}
use fikua_lab_idp.Authz.Authorize.{Draws, IssuerLookup, handle_authorize, resolve_record}
use fikua_lab_idp.Authz.Identify.{IssuerCreate, complete_identification}
use fikua_lab_idp.Authz.Visits.{identified_visit_expires, issued_session, code_response}
use fikua_lab_idp.Authz.Identification.{identified_visit_repeats}
use fikua_lab_idp.Authz.RoundTrip.{identification_round_trip}
use fikua_lab_idp.Fixtures.{clock, pushed_params, toy_service, idle}

abbrev draws : Draws
draws = record { code = "c1"; session_id = "s1"; pending = "p1" }

abbrev draws_again : Draws
draws_again = record { code = "c2"; session_id = "s2"; pending = "p2" }

-- The Credential Issuer, with no record and with the record "rec", and its creation of that record.
abbrev no_record : IssuerLookup
no_record s = ok none

abbrev one_record : IssuerLookup
one_record s = ok (some "rec")

abbrev creates : IssuerCreate
creates r = ok "rec"

abbrev pushed_entry : ParRequestEntry
pushed_entry = record { params = pushed_params; created_at = clock }

abbrev request_pushed : State
request_pushed = record idle {
  sessions = record new_store { par_requests = ("u", pushed_entry) ∷ [] };
}

identification_round_trip_example :
    let s₁ =
      (handle_authorize toy_service no_record draws
        (clock + second)
        (clock + 2 * second)
        "u"
        "wallet"
        ""
        request_pushed).1 in
    let s₂ =
      (complete_identification toy_service creates "ck"
        (clock + 20 * second)
        (clock + 21 * second)
        "p1"
        []
        "form"
        ""
        s₁).1 in
    let visit =
      handle_authorize toy_service no_record draws_again
        (clock + 25 * second)
        (clock + 26 * second)
        "u"
        "wallet"
        "ck"
        s₂ in
    (visit.0 ≡ ok (code_response draws_again pushed_params))
    × (get "c2" visit.1.sessions.auth_codes
        ≡ some (issued_session draws_again (clock + 26 * second) "rec" pushed_params))
unfolding get text_at resolve_record get_identify_replay new_store
identification_round_trip_example =
    identification_round_trip toy_service no_record creates draws draws_again "u" "wallet" "ck"
      "pid" "rec" clock (clock + second) (clock + 2 * second) (clock + 20 * second)
      (clock + 21 * second) (clock + 25 * second) (clock + 26 * second) [] "form" "" pushed_params
      request_pushed (ne_of_test "u" "" refl) refl (omega arith) (omega arith) refl refl refl refl
      (ne_of_test "pid" "" refl) refl (ne_of_test "ck" "" refl) (omega arith)

-- A request that carries an `issuer_state`.
abbrev offered_params : Params
offered_params = ("issuer_state", "offer") ∷ pushed_params

abbrev offer_pushed : State
offer_pushed = record idle {
  sessions = record new_store {
    par_requests = ("u", record { params = offered_params; created_at = clock }) ∷ [];
  };
}

-- The pushed request, and its identification 20 seconds later under the cookie "ck".
abbrev request_identified : State
request_identified = record idle {
  sessions = record new_store {
    par_requests = ("u", pushed_entry) ∷ [];
    identified_sessions =
        (
          "ck",
          record {
            request_uri = "u";
            record_id = "rec";
            params = pushed_params;
            created_at = clock + 20 * second;
          },
        )
        ∷ [];
  };
}

identified_visit_expires_example :
    (handle_authorize toy_service no_record draws
      (clock + 2 * minute)
      (clock + 2 * minute)
      "u"
      "wallet"
      "ck"
      request_identified).0
    ≡ err (invalid "Invalid or expired request_uri")
unfolding get check_identified
identified_visit_expires_example =
    identified_visit_expires toy_service no_record draws (clock + 2 * minute) (clock + 2 * minute)
      "u" "wallet" "ck" request_identified pushed_entry ("rec", pushed_params)
      (ne_of_test "u" "" refl) refl (omega arith) refl

identified_visit_repeats_example :
    let s₁ =
      (handle_authorize toy_service no_record draws
        (clock + 30 * second)
        (clock + 30 * second)
        "u"
        "wallet"
        "ck"
        request_identified).1 in
    let outcome =
      handle_authorize toy_service no_record draws_again
        (clock + 31 * second)
        (clock + 31 * second)
        "u"
        "wallet"
        "ck"
        s₁ in
    (outcome.0 ≡ ok (code_response draws_again pushed_params))
    × (get "c1" outcome.1.sessions.auth_codes
        ≡ some (issued_session draws (clock + 30 * second) "rec" pushed_params))
    × (get "c2" outcome.1.sessions.auth_codes
        ≡ some (issued_session draws_again (clock + 31 * second) "rec" pushed_params))
unfolding get text_at resolve_record check_identified
identified_visit_repeats_example =
    identified_visit_repeats toy_service no_record draws draws_again (clock + 30 * second)
      (clock + 30 * second) (clock + 31 * second) (clock + 31 * second) "u" "wallet" "ck" "rec"
      pushed_params request_identified pushed_entry (ne_of_test "u" "" refl) refl (omega arith)
      (omega arith) refl refl refl refl (ne_of_test "c1" "c2" refl)

-- A deferred authorization, whose form is open.
abbrev pending_params : Params
pending_params = (pending_request_uri_key, "u") ∷ pushed_params

abbrev form_open : State
form_open = record idle {
  sessions = record new_store { pending_auth = ("p1", pending_params) ∷ [] };
}
