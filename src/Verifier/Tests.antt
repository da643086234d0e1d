-- ===== src/Verifier/Tests.antt =====
-- Concrete runs of internal/verifier and internal/statuslistcheck.
use fikua_lab_idp.Prelude.{
  ◌+◌, ◌*◌, ◌^◌, ◌≡◌, refl, ◌⊎◌, String, none, some, [], ◌∷◌, arith, second, ◌<>◌,
}
use fikua_lab_idp.Assoc.{Assoc, get, put, delete}
use fikua_lab_idp.Json.{Json, text, as_text}
use fikua_lab_idp.Action.{ok, err}
use fikua_lab_idp.Session.Types.{DcqlCredentialQuery, new_store}
use fikua_lab_idp.Session.Verifications.{find_verification_by_encryption_kid, store_verification}
use fikua_lab_idp.Session.Trace.{Op, run, step}
use fikua_lab_idp.Session.Index.{IsIndexed}
use fikua_lab_idp.Session.Index.Always.{IsIndexed-always}
use fikua_lab_idp.StatusList.{
  StatusListRef, entry_at, get_elem?, check_valid, fetch, status_at, bits_of, decompress_lst,
  bits_at, status_name,
}
use fikua_lab_idp.StatusList.Entries.{entry_at_wraps, IsValidEntry, check_valid_sound}
use fikua_lab_idp.Verifier.Types.{
  ResponseRequest, VpResult, success_result, error_result, format_sd_jwt_vc,
}
use fikua_lab_idp.Verifier.Tokens.{parse_vp_token, all_vp_tokens, build_dcql_query}
use fikua_lab_idp.Verifier.Presentation.{merge_claims}
use fikua_lab_idp.Verifier.Response.{
  open_response, open_encrypted, handle_response, get_result, vp_tokens_of, get_request_object,
}
use fikua_lab_idp.Verifier.Outcome.{poll_after_response}
use fikua_lab_idp.Verifier.Opening.{IsOpened, open_encrypted_sound}
use fikua_lab_idp.Verifier.Create.{Signer, Draws, AuthorizationRequest, create_session}
use fikua_lab_idp.Verifier.Served.{IsCreated, create_session_sound, created_request_is_served}
use fikua_lab_idp.Verifier.Examples.{net, svc, session, asked, encrypted, credentials}

entry_at_wraps_example : entry_at (2 ^ 62 + 0) 4 (7 ∷ []) ≡ entry_at 0 4 (7 ∷ [])
entry_at_wraps_example = entry_at_wraps 0 (7 ∷ []) (omega arith)

abbrev valid_ref : StatusListRef
valid_ref = record { idx = 0; uri = "lists/1" }

abbrev revoked_ref : StatusListRef
revoked_ref = record { idx = 1; uri = "lists/1" }

valid_checked : check_valid net valid_ref ≡ ok tt
unfolding check_valid fetch status_at bits_of decompress_lst entry_at bits_at get_elem? get as_text
valid_checked = refl

revoked_checked :
    check_valid net revoked_ref ≡ err "statuslistcheck: credential status is INVALID, not VALID"
unfolding check_valid fetch status_at bits_of decompress_lst entry_at bits_at get_elem? get as_text
    status_name
revoked_checked = refl

check_valid_sound_example : IsValidEntry net valid_ref
check_valid_sound_example = check_valid_sound net valid_ref tt (omega arith) valid_checked

opens : open_response svc second encrypted asked ≡ (ok (session, text "token"), asked)
unfolding open_response open_encrypted vp_tokens_of parse_vp_token all_vp_tokens build_dcql_query
    find_verification_by_encryption_kid get
opens = refl

asked-IsIndexed : IsIndexed asked
unfolding new_store get put delete run step store_verification
asked-IsIndexed =
    IsIndexed-always (Op.store_verification session 0 ∷ [])
      (record { new_id = refl; new_state = refl; new_kid = λ key e. refl }, tt)

open_encrypted_sound_example : IsOpened svc second "token" asked session (text "token")
unfolding open_encrypted vp_tokens_of parse_vp_token all_vp_tokens build_dcql_query
    find_verification_by_encryption_kid get
open_encrypted_sound_example =
    open_encrypted_sound svc second "token" asked session (text "token") asked-IsIndexed refl

poll_after_response_example :
    ((claims : Assoc (Assoc Json)) × ((handle_response svc second (2 * second) encrypted asked).0
        ≡ ok (success_result (merge_claims svc (2 * second) claims), some session))
      × ((get_result svc
            (3 * second)
            "v1"
            (handle_response svc second (2 * second) encrypted asked).1).0
          ≡ ok (success_result (merge_claims svc (3 * second) claims))))
    ⊎ ((reason : String) × ((handle_response svc second (2 * second) encrypted asked).0
          ≡ ok (error_result "invalid_presentation" reason, some session))
        × ((get_result svc
              (3 * second)
              "v1"
              (handle_response svc second (2 * second) encrypted asked).1).0
            ≡ ok (error_result "verification_failed" reason)))
unfolding get
poll_after_response_example =
    poll_after_response svc second (2 * second) (3 * second) encrypted asked asked (text "token")
      session opens refl (omega arith) (omega arith)

abbrev given : VpResult
given = success_result (("given_name", text "token") ∷ [])

abbrev stateless : ResponseRequest
stateless = record { vp_token = "token"; state = ""; response = "" }

abbrev pid_query : DcqlCredentialQuery
pid_query = record { id = "pid"; format = format_sd_jwt_vc; meta = none; claims = [] }

abbrev signer : Signer
signer = record {
  leaf_hash = some "abc";
  generate = ok (record { private_key = "private"; kid = "kid" });
  public_jwk = λ key. ok (text key.kid);
  sign = λ request. ok ("signed:" <> request.state);
}

abbrev tokens : Draws
tokens = record { session_id = "v1"; state = "st"; nonce = "n" }

created_request_is_served_example :
    (request : AuthorizationRequest) × (jwt : String) × (request.state ≡ "st")
    × (signer.sign request ≡ ok jwt)
    × ((get_request_object svc
          (2 * second)
          "v1"
          (create_session svc signer second tokens credentials new_store).1).0
        ≡ ok jwt)
unfolding create_session
created_request_is_served_example =
    created_request_is_served svc signer second (2 * second) tokens credentials new_store
      (record {
        session_id = "v1";
        request_uri = "https://verifier/oid4vp/v1/request/v1";
        client_id = "x509_hash:abc";
        state = "st";
      })
      refl (omega arith)

create_session_sound_example :
    IsCreated svc signer second tokens credentials
      (create_session svc signer second tokens credentials new_store).1
      (record {
        session_id = "v1";
        request_uri = "https://verifier/oid4vp/v1/request/v1";
        client_id = "x509_hash:abc";
        state = "st";
      })
unfolding create_session
create_session_sound_example =
    create_session_sound svc signer second tokens credentials new_store
      (record {
        session_id = "v1";
        request_uri = "https://verifier/oid4vp/v1/request/v1";
        client_id = "x509_hash:abc";
        state = "st";
      })
      refl
