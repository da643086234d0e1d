-- ===== src/Authz/Tests.antt =====
-- Concrete runs of internal/authz.
use fikua_lab_idp.Prelude.{◌+◌, ◌*◌, ◌≡◌, refl, true, [], ◌∷◌, arith, minute, ne_of_test, elem}
use fikua_lab_idp.Assoc.{get, put, text_at}
use fikua_lab_idp.Action.{ok, err}
use fikua_lab_idp.Session.Types.{Data, new_store}
use fikua_lab_idp.OAuth2.Jti.{accept}
use fikua_lab_idp.Session.Codes.{consume_auth_code, revoked_jtis_list}
use fikua_lab_idp.Session.Trace.{run}
use fikua_lab_idp.OAuth2.Dpop.{
  check_headers, check_claims, check_replay, lower_ascii, same_letters, validate_dpop_proof,
}
use fikua_lab_idp.OAuth2.Attestation.{
  resolve, validate_headers, validate_wia_and_pop, validate_wia, check_pop, resolve_wia_key,
  resolve_cnf_key, attested_client,
}
use fikua_lab_idp.OAuth2.Token.{TokenRequest, dpop_token, mint, verify_pkce_s256}
use fikua_lab_idp.Authz.Types.{State, bound_client_id_key}
use fikua_lab_idp.Authz.Par.{wrong_response_type, handle_par, check_pushed, bind_dpop}
use fikua_lab_idp.Authz.Pushed.{IsPushed, handle_par_sound}
use fikua_lab_idp.Authz.TokenGrant.{
  ungranted, authenticate, redeem_code, check_bindings, handle_auth_code_token,
}
use fikua_lab_idp.Authz.Grant.{IsGrant}
use fikua_lab_idp.Authz.Grant.Sound.{handle_auth_code_token_sound}
use fikua_lab_idp.Authz.Reuse.{reused_code_revokes_token}
use fikua_lab_idp.Fixtures.{clock, pushed_params, toy_service, idle}

-- The session of a code for the client "wallet", bound to the key "key" and the verifier "verifier".
abbrev code_session : Data
code_session = record {
  session_id = "sid";
  created_at = clock;
  metadata =
      ("code_challenge", "#verifier")
      ∷ ("dpop_jkt", "key")
      ∷ (bound_client_id_key, "wallet")
      ∷ ("issuanceRecordId", "rec")
      ∷ [];
}

abbrev code_issued : State
code_issued = record idle { sessions = record new_store { auth_codes = ("c", code_session) ∷ [] } }

abbrev redemption : TokenRequest
redemption = record {
  grant_type = "authorization_code";
  code = "c";
  redirect_uri = "cb";
  code_verifier = "verifier";
  client_id = "wallet";
  client_assertion_type = "";
  client_assertion = "";
}

token_granted :
    (handle_auth_code_token toy_service clock "n" "j" redemption "proof" "wia" "pop" code_issued).0
    ≡ ok (dpop_token "jwt:j")
unfolding handle_auth_code_token authenticate redeem_code check_bindings consume_auth_code mint
    resolve validate_headers validate_wia_and_pop validate_wia check_pop resolve_wia_key
    resolve_cnf_key attested_client validate_dpop_proof check_headers check_claims check_replay
    lower_ascii same_letters get elem text_at verify_pkce_s256
token_granted = refl

handle_auth_code_token_sound_example :
    IsGrant toy_service clock "n" "j" redemption "proof" "wia" "pop" code_issued
      (handle_auth_code_token toy_service clock "n" "j" redemption "proof" "wia" "pop"
        code_issued).1
      (dpop_token "jwt:j")
handle_auth_code_token_sound_example =
    handle_auth_code_token_sound toy_service clock "n" "j" redemption "proof" "wia" "pop"
      code_issued (dpop_token "jwt:j") token_granted

-- The same code once it is redeemed.
abbrev code_redeemed : State
code_redeemed = record idle { sessions = record new_store { issued_jti_by_code = ("c", "j") ∷ [] } }

abbrev proof_seen : State → State
proof_seen s = record s { jtis = record { set = "proof" ∷ [] } }

client_known :
    authenticate toy_service clock redemption "proof" "wia" "pop" code_redeemed
    ≡ (ok ("wallet", "key"), proof_seen code_redeemed)
unfolding authenticate resolve validate_headers validate_wia_and_pop validate_wia check_pop
    resolve_wia_key resolve_cnf_key attested_client validate_dpop_proof check_headers check_claims
    check_replay lower_ascii same_letters get elem accept put
client_known = refl

reused_code_revokes_token_example :
    let outcome =
      handle_auth_code_token toy_service clock "n" "k" redemption "proof" "wia" "pop"
        code_redeemed in
    (outcome.0 ≡ err (ungranted "Invalid authorization code"))
    × (elem "j" (revoked_jtis_list (clock + 19 * minute) (run [] outcome.1.sessions)).0 ≡ true)
unfolding get new_store
reused_code_revokes_token_example =
    reused_code_revokes_token toy_service clock "n" "k" "j" redemption "proof" "wia" "pop"
      ("wallet", "key") code_redeemed (proof_seen code_redeemed) (clock + 19 * minute) []
      client_known (ne_of_test "c" "" refl) refl refl tt (omega arith)

par_accepted :
    (handle_par toy_service clock "t" pushed_params "wia" "pop" "par-proof" idle).0
    ≡ ok ("urn:ietf:params:oauth:request_uri:t", 60)
unfolding handle_par bind_dpop check_pushed wrong_response_type resolve validate_headers
    validate_wia_and_pop validate_wia check_pop resolve_wia_key resolve_cnf_key attested_client
    validate_dpop_proof check_headers check_claims check_replay lower_ascii same_letters get elem
    text_at put accept
par_accepted = refl

handle_par_sound_example :
    IsPushed toy_service clock "t" pushed_params "wia" "pop" "par-proof" idle
      (handle_par toy_service clock "t" pushed_params "wia" "pop" "par-proof" idle).1
      "urn:ietf:params:oauth:request_uri:t"
      60
handle_par_sound_example =
    handle_par_sound toy_service clock "t" pushed_params "wia" "pop" "par-proof" idle
      "urn:ietf:params:oauth:request_uri:t" 60 par_accepted
