-- ===== src/Verifier/Response.antt =====
-- internal/verifier/service.go: `HandleResponse`, `GetRequestObject` and `GetResult`.
use fikua_lab_idp.Prelude.{
  ℕ, String, Bool, true, false, Option, none, some, [], ◌==◌, ◌/=◌, is_empty, ◌<>◌, if◌then◌else◌,
}
use fikua_lab_idp.Assoc.{Assoc}
use fikua_lab_idp.Json.{Json, text}
use fikua_lab_idp.Action.{
  Result, ok, err, Action, pure, lift, steps, or_fail, reject_if, ◌>>=◌, ◌>>◌,
}
use fikua_lab_idp.Session.Types.{Store, VerificationSession, ResponseEncryptionKey}
use fikua_lab_idp.Session.Verifications.{
  find_verification, find_verification_by_state, find_verification_by_encryption_kid,
  update_verification_status, update_verification_result,
}
use fikua_lab_idp.OAuth2.Error.{Exception, bad_request, not_found, invalid_request}
use fikua_lab_idp.Verifier.Types.{
  Service, Endpoint, ResponseRequest, VpResult, success_result, error_result, api_prefix,
}
use fikua_lab_idp.Verifier.Tokens.{parse_vp_token, all_vp_tokens}
use fikua_lab_idp.Verifier.Presentation.{
  verify_presentations, subject_id_from_holder_keys, merge_claims,
}

-- Why a response was not judged: a protocol error, or an `invalid_request` result.
pub data Refusal : Type 0 where
  protocol : Exception → Refusal
  unacceptable : String → Refusal

abbrev unacceptable_if_failed : {A : Type 0} → String → Result String A → Result Refusal A
unacceptable_if_failed prefix (ok a) = ok a
unacceptable_if_failed prefix (err reason) = err (unacceptable (prefix <> reason))

abbrev has_tokens : Option (Assoc String) → Bool
has_tokens none = false
has_tokens (some tokens) = true

abbrev pub tokens_or_nil : Option (Assoc String) → Assoc String
tokens_or_nil none = []
tokens_or_nil (some tokens) = tokens

module _ {Key : Type 0} (svc : Service Key) where
  unfoldable pub vp_tokens_of : VerificationSession → Json → Option (Assoc String)
  vp_tokens_of v raw = all_vp_tokens (parse_vp_token svc.library.unmarshal raw) v.dcql_query

  -- A session that is found by the `kid` of its key has that key: with none, Go panics.
  abbrev decrypt_response : Option ResponseEncryptionKey → String → Result Refusal (Json × String)
  decrypt_response none jwe = err (unacceptable "panic: nil response encryption key")
  decrypt_response (some key) jwe = elim (svc.library.decrypt key jwe) [
    | err reason ↦ err (unacceptable ("failed to decrypt response: " <> reason))
    | ok plaintext ↦
        unacceptable_if_failed "decrypted response is not JSON: "
          (svc.library.read_payload plaintext)
  ]

  -- direct_post.jwt: the session is the one whose key the JWE names.
  unfoldable pub open_encrypted : ℕ → String → Action Store Refusal (VerificationSession × Json)
  unfolding vp_tokens_of
  open_encrypted started response = do
    kid ← lift (
        unacceptable_if_failed "crypto: parsing direct_post.jwt response: "
          (svc.library.jwe_kid response))
    looked ← steps (find_verification_by_encryption_kid kid started)
    v ← or_fail looked (unacceptable "Unknown or expired encryption key")
    decrypted ← lift (decrypt_response v.encryption_key response)
    reject_if (is_empty decrypted.1)
        (unacceptable "Decrypted response is missing state or vp_token")
    reject_if (if has_tokens (vp_tokens_of v decrypted.0) then false else true)
        (unacceptable "Decrypted response is missing state or vp_token")
    reject_if (decrypted.1 /= v.state)
        (unacceptable "Decrypted state does not match this encryption key's session")
    pure (v, decrypted.0)

  -- direct_post: the session is the one that the form names by its state.
  unfoldable pub open_plain :
      ℕ → String → String → Action Store Refusal (VerificationSession × Json)
  open_plain started state vp_token = do
    reject_if (is_empty state) (protocol (bad_request invalid_request "Missing state parameter"))
    reject_if (is_empty vp_token)
        (protocol (bad_request invalid_request "Missing vp_token or response parameter"))
    looked ← steps (find_verification_by_state state started)
    v ← or_fail looked (unacceptable "Unknown or expired state parameter")
    pure (v, text vp_token)

  unfoldable pub open_response :
      ℕ → ResponseRequest → Action Store Refusal (VerificationSession × Json)
  open_response started req =
      if is_empty req.response
      then open_plain started req.state req.vp_token
      else open_encrypted started req.response

  -- The claims of each credential, and the subject.
  unfoldable pub judge :
      VerificationSession → Assoc String → Result String (Assoc (Assoc Json) × String)
  judge v vp_tokens = elim (verify_presentations svc v vp_tokens) [
    | err reason ↦ err reason
    | ok (claims, holder_keys) ↦ elim (subject_id_from_holder_keys svc holder_keys) [
      | err reason ↦ err reason
      | ok subject_id ↦ ok (claims, subject_id)
    ]
  ]

  -- The outcome of the judgement, recorded against the session.
  unfoldable pub record_outcome :
      ℕ
      → VerificationSession
      → Assoc String
      → Result String (Assoc (Assoc Json) × String)
      → Endpoint (VpResult × Option VerificationSession)
  record_outcome now v vp_tokens (err reason) s = (
    ok (error_result "invalid_presentation" reason, some v),
    update_verification_result v.session_id "failed" vp_tokens [] "" reason now s,
  )
  record_outcome now v vp_tokens (ok (claims, subject_id)) s = (
    ok (success_result (merge_claims svc now claims), some v),
    update_verification_result v.session_id "verified" vp_tokens claims subject_id "" now s,
  )

  abbrev answer :
      ℕ
      → Result Refusal (VerificationSession × Json)
      → Endpoint (VpResult × Option VerificationSession)
  answer now (err (protocol e)) s = (err e, s)
  answer now (err (unacceptable reason)) s = (ok (error_result "invalid_request" reason, none), s)
  answer now (ok (v, raw)) s =
      let vp_tokens = tokens_or_nil (vp_tokens_of v raw) in
      record_outcome now v vp_tokens (judge v vp_tokens) s

  -- `started` is the time of the look-up and `now` that of the recording: status lists are fetched
  -- in between. The result's session is `none` where the code returns the zero session.
  unfoldable pub handle_response :
      ℕ → ℕ → ResponseRequest → Endpoint (VpResult × Option VerificationSession)
  unfolding vp_tokens_of
  handle_response started now req s =
      let (opened, s') = open_response started req s in answer now opened s'

  unfoldable pub get_request_object : ℕ → String → Endpoint String
  get_request_object now session_id = do
    looked ← steps (find_verification session_id now)
    v ← or_fail looked (not_found invalid_request "Session not found or expired")
    steps (λ s. (tt, update_verification_status session_id "request_sent" now s))
    pure v.request_jwt

  -- `switch v.Status { … }`
  unfoldable pub poll_result : ℕ → VerificationSession → VpResult
  poll_result now v =
      if v.status == "verified"
      then success_result (merge_claims svc now v.verified_claims)
      else if v.status == "failed"
      then error_result "verification_failed" v.error
      else error_result "pending" "Verification not yet completed"

  unfoldable pub get_result : ℕ → String → Endpoint VpResult
  unfolding poll_result
  get_result now session_id = do
    looked ← steps (find_verification session_id now)
    v ← or_fail looked (not_found "not_found" "Session not found")
    pure (poll_result now v)

  unfoldable pub result_uri : String → String
  result_uri session_id = svc.base_url <> api_prefix <> "/result/" <> session_id
