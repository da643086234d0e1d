-- ===== src/Verifier/Presentation.antt =====
-- internal/verifier/service.go: checking the presentations of a response.
use fikua_lab_idp.Prelude.{
  ℕ, String, true, false, Option, none, some, List, [], ◌∷◌, ltb, ◌==◌, is_empty, ◌<>◌,
  if◌then◌else◌, length,
}
use fikua_lab_idp.Assoc.{Assoc, get, put}
use fikua_lab_idp.Json.{Json}
use fikua_lab_idp.Action.{Result, ok, err}
use fikua_lab_idp.Fallible.{◌>>=◌, wrapped}
use fikua_lab_idp.StatusList.{StatusListRef, parse_ref, check_valid}
use fikua_lab_idp.Session.Types.{
  VerificationSession, DcqlCredentialQuery, DcqlMeta, ResponseEncryptionKey,
}
use fikua_lab_idp.Verifier.Types.{
  Service, SdJwtResult, format_mso_mdoc, response_mode_direct_post_jwt,
}

abbrev pub doc_type_of : Option DcqlMeta → String
doc_type_of none = ""
doc_type_of (some meta) = meta.doctype_value

module _ {Key : Type 0} (svc : Service Key) where
  -- `v.EncryptionKey.ThumbprintSHA256()`; a session with no key has a nil pointer there, at which
  -- Go panics.
  abbrev session_thumbprint : Option ResponseEncryptionKey → Result String (Option String)
  session_thumbprint none = err "panic: nil response encryption key"
  session_thumbprint (some key) = elim (svc.library.encryption_thumbprint key) [
    | err reason ↦ err reason
    | ok thumbprint ↦ ok (some thumbprint)
  ]

  unfoldable pub verify_mdoc_presentation :
      VerificationSession → DcqlCredentialQuery → String → Result String (Assoc Json × Option Key)
  verify_mdoc_presentation v cred vp_token = do
    thumbprint ←
        (if v.response_mode == response_mode_direct_post_jwt
          then session_thumbprint v.encryption_key
          else ok none)
    claims ←
        svc.presentations.verify_mdoc vp_token (doc_type_of cred.meta) v.client_id v.nonce
          thumbprint v.response_uri
    ok (claims, none)

  -- The status list is consulted also where the presentation is refused already.
  abbrev status_error : Option StatusListRef → Option String → Option String
  status_error none verify_err = verify_err
  status_error (some ref) (some reason) = some reason
  status_error (some ref) none = elim (check_valid svc.network ref) [
    | ok u ↦ none
    | err reason ↦ some reason
  ]

  abbrev accepted : SdJwtResult Key → Option String → Result String (Assoc Json × Option Key)
  accepted result (some reason) = err reason
  accepted result none = ok (result.claims, result.holder_key)

  unfoldable pub verify_presentation :
      VerificationSession → DcqlCredentialQuery → String → Result String (Assoc Json × Option Key)
  unfolding verify_mdoc_presentation
  verify_presentation v cred vp_token =
      if cred.format == format_mso_mdoc
      then verify_mdoc_presentation v cred vp_token
      else (let (result, verify_err) =
            svc.presentations.verify_with_status vp_token v.client_id v.nonce in
          accepted result (status_error (parse_ref svc.network result.status) verify_err))

  abbrev pub keep_key : String → Option Key → Assoc Key → Assoc Key
  keep_key id none holder_keys = holder_keys
  keep_key id (some key) holder_keys = put id key holder_keys

  abbrev token_of : String → Assoc String → Result String String
  token_of id vp_tokens = elim (get id vp_tokens) [
    | none ↦ err ("no presentation received for requested credential " <> svc.library.quote id)
    | some vp_token ↦
        if is_empty vp_token
        then err ("no presentation received for requested credential " <> svc.library.quote id)
        else ok vp_token
  ]

  -- The loop over the session's credential queries, with the two maps that it fills.
  unfoldable pub verify_each :
      VerificationSession
      → Assoc String
      → List DcqlCredentialQuery
      → Assoc (Assoc Json)
      → Assoc Key
      → Result String (Assoc (Assoc Json) × Assoc Key)
  verify_each v vp_tokens [] claims holder_keys = ok (claims, holder_keys)
  verify_each v vp_tokens (cred ∷ rest) claims holder_keys = do
    vp_token ← token_of cred.id vp_tokens
    (cred_claims, holder_key) ←
        wrapped ("credential " <> svc.library.quote cred.id <> ": ")
          (verify_presentation v cred vp_token)
    verify_each v vp_tokens rest (put cred.id cred_claims claims)
        (keep_key cred.id holder_key holder_keys)

  -- The loop of `verifyCrossCredentialBinding`, with the first entry that it has met.
  unfoldable pub bound_to : String → String → Assoc Key → Result String (Unit {0})
  bound_to first_id first_thumb [] = ok tt
  bound_to first_id first_thumb ((id, key) ∷ rest) = elim (svc.library.thumbprint key) [
    | err reason ↦
        err
          ("credential " <> svc.library.quote id <> ": computing holder key thumbprint: " <> reason)
    | ok thumb ↦ elim (is_empty first_thumb) [
      | true ↦ bound_to id thumb rest
      | false ↦ elim (thumb == first_thumb) [
        | true ↦ bound_to first_id first_thumb rest
        | false ↦ err (
            "credential "
            <> svc.library.quote id
            <> " is not bound to the same holder key as credential "
            <> svc.library.quote first_id)
      ]
    ]
  ]

  unfoldable pub verify_cross_credential_binding : Assoc Key → Result String (Unit {0})
  unfolding bound_to
  verify_cross_credential_binding holder_keys = bound_to "" "" (svc.visit_keys holder_keys)

  unfoldable pub verify_presentations :
      VerificationSession → Assoc String → Result String (Assoc (Assoc Json) × Assoc Key)
  unfolding verify_each verify_cross_credential_binding
  verify_presentations v vp_tokens = elim (verify_each v vp_tokens v.dcql_query.credentials [] []) [
    | err reason ↦ err reason
    | ok (claims, holder_keys) ↦
        if ltb 1 (length v.dcql_query.credentials)
        then (elim (verify_cross_credential_binding holder_keys) [
          | err reason ↦ err reason
          | ok u ↦ ok (claims, holder_keys)
        ])
        else ok (claims, holder_keys)
  ]

  -- The first key that the loop meets decides.
  abbrev subject_of : Assoc Key → Result String String
  subject_of [] = err "no holder-bound credential in this presentation to derive a subject id from"
  subject_of ((id, key) ∷ rest) = elim (svc.library.thumbprint key) [
    | err reason ↦ err ("computing subject id: " <> reason)
    | ok thumb ↦ ok (svc.library.sha256_hex thumb)
  ]

  unfoldable pub subject_id_from_holder_keys : Assoc Key → Result String String
  subject_id_from_holder_keys holder_keys = subject_of (svc.visit_holders holder_keys)

  put_all : Assoc Json → Assoc Json → Assoc Json
  put_all [] merged = merged
  put_all ((k, v) ∷ claims) merged = put_all claims (put k v merged)

  merge_each : Assoc (Assoc Json) → Assoc Json → Assoc Json
  unfolding put_all
  merge_each [] merged = merged
  merge_each ((id, claims) ∷ rest) merged = merge_each rest (put_all claims merged)

  unfoldable pub merge_claims : ℕ → Assoc (Assoc Json) → Assoc Json
  unfolding merge_each
  merge_claims now per_credential = merge_each (svc.visit_claims now per_credential) []
