-- ===== src/Verifier/Outcome.antt =====
-- What an answer of `HandleResponse` and a later poll mean, for internal/verifier/service.go.
use fikua_lab_idp.Prelude.{ℕ, ◌-◌, ◌≤◌, ◌≡◌, ◌⊎◌, inl, inr, String, some, [], All, arith}
use fikua_lab_idp.Assoc.{Assoc, get, get-put_self}
use fikua_lab_idp.Json.{Json}
use fikua_lab_idp.Action.{ok, Result-cases}
use fikua_lab_idp.Session.Types.{Store, VerificationSession, verification_session_ttl}
use fikua_lab_idp.Session.Verifications.{find_verification, update_verification_result, write_back}
use fikua_lab_idp.Verifier.Types.{Service, ResponseRequest, VpResult, success_result, error_result}
use fikua_lab_idp.Verifier.Presentation.{merge_claims}
use fikua_lab_idp.Verifier.Response.{
  tokens_or_nil, vp_tokens_of, open_response, judge, record_outcome, handle_response, poll_result,
  get_result,
}
use fikua_lab_idp.Verifier.Verified.{IsVerified}

module _ {Key : Type 0} (svc : Service Key) where
  -- The response was opened for this session, every credential that the session asked for was
  -- verified, all by one holder, and the claims and the subject were recorded.
  pub record IsAcceptance (started now : ℕ) (req : ResponseRequest) (s t : Store) (r : VpResult)
      (v : VerificationSession) : Type 0 where
    pub raw : Json
    pub vp_tokens : Assoc String
    pub claims : Assoc (Assoc Json)
    pub holder_keys : Assoc Key
    pub thumbprint : String
    pub opened : (open_response svc started req s).0 ≡ ok (v, raw)
    pub all_verified : All (IsVerified svc v vp_tokens claims holder_keys) v.dcql_query.credentials
    pub one_thumbprint :
        (id : String) (key : Key)
        → get id holder_keys ≡ some key
        → svc.library.thumbprint key ≡ ok thumbprint
    pub answered : r ≡ success_result (merge_claims svc now claims)
    pub recorded :
        t
        ≡ update_verification_result v.session_id "verified" vp_tokens claims
            (svc.library.sha256_hex thumbprint)
            ""
            now
            (open_response svc started req s).1

  -- Whatever `HandleResponse` answers for a stored session, a poll of that session finds, as long as
  -- the session lives: after a success, the claims of the same credentials, merged anew (in the order
  -- of the poll's own loop), and after a failure the same reason.
  pub poll_after_response :
      (started now later : ℕ) (req : ResponseRequest) (s s' : Store) (raw : Json)
      (v : VerificationSession)
      → open_response svc started req s ≡ (ok (v, raw), s')
      → get v.session_id s'.verifications ≡ some v
      → now - v.created_at ≤ verification_session_ttl
      → later - v.created_at ≤ verification_session_ttl
      → ((claims : Assoc (Assoc Json)) × ((handle_response svc started now req s).0
            ≡ ok (success_result (merge_claims svc now claims), some v))
          × ((get_result svc later v.session_id (handle_response svc started now req s).1).0
              ≡ ok (success_result (merge_claims svc later claims))))
        ⊎ ((reason : String) × ((handle_response svc started now req s).0
              ≡ ok (error_result "invalid_presentation" reason, some v))
            × ((get_result svc later v.session_id (handle_response svc started now req s).1).0
                ≡ ok (error_result "verification_failed" reason)))
  unfolding handle_response record_outcome get_result update_verification_result find_verification
      write_back poll_result
  poll_after_response started now later req s s' raw v opened held live still =
      let tokens = tokens_or_nil (vp_tokens_of svc v raw) in
      elim (Result-cases (judge svc v tokens)) [
        | inr (reason, j) ↦ inr (
          reason,
          ground (arith, opened, j),
          ground (
            arith,
            opened,
            j,
            get-put_self v.session_id
                (record v {
                  status = "failed";
                  vp_tokens = tokens;
                  verified_claims = [];
                  subject_id = "";
                  error = reason;
                })
                s'.verifications,
          ),
        )
        | inl ((claims, subject), j) ↦ inl (
          claims,
          ground (arith, opened, j),
          ground (
            arith,
            opened,
            j,
            get-put_self v.session_id
                (record v {
                  status = "verified";
                  vp_tokens = tokens;
                  verified_claims = claims;
                  subject_id = subject;
                  error = "";
                })
                s'.verifications,
          ),
        )
      ]
