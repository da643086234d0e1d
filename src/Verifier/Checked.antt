-- ===== src/Verifier/Checked.antt =====
-- How one presentation of a response is checked, by internal/verifier/service.go.
use fikua_lab_idp.Prelude.{
  ◌≡◌, refl, ◌∙◌, ap, ◌≢◌, ◌⊎◌, inl, inr, ne_of_test, ◌==◌, String, Option, none, some, arith,
  eq_iff, Option-cases, Bool-cases,
}
use fikua_lab_idp.Assoc.{Assoc}
use fikua_lab_idp.Json.{Json}
use fikua_lab_idp.Action.{Result, ok, Result-cases}
use fikua_lab_idp.Session.Types.{VerificationSession, DcqlCredentialQuery, ResponseEncryptionKey}
use fikua_lab_idp.StatusList.{StatusListRef, parse_ref, check_valid}
use fikua_lab_idp.Verifier.Types.{
  Service, SdJwtResult, format_mso_mdoc, response_mode_direct_post_jwt,
}
use fikua_lab_idp.Verifier.Presentation.{doc_type_of, verify_mdoc_presentation, verify_presentation}

module _ {Key : Type 0} (svc : Service Key) (v : VerificationSession) where
  -- The key thumbprint that an mdoc is checked with: that of the session's key, where the response
  -- is encrypted.
  pub data IsThumbprint (thumbprint : Option String) : Type 0 where
    in_the_clear :
        v.response_mode ≢ response_mode_direct_post_jwt
        → thumbprint ≡ none
        → IsThumbprint thumbprint
    of_session :
        (key : ResponseEncryptionKey) (t : String)
        → v.encryption_key ≡ some key
        → svc.library.encryption_thumbprint key ≡ ok t
        → thumbprint ≡ some t
        → IsThumbprint thumbprint

  -- The status of a credential: it names none, or the entry that it names is valid.
  abbrev IsStatusValid : Assoc Json → Type 0
  IsStatusValid status =
      (parse_ref svc.network status ≡ none)
      ⊎ ((ref : StatusListRef) × (parse_ref svc.network status ≡ some ref)
          × (check_valid svc.network ref ≡ ok tt))

  -- A presentation was checked for this session's client id and nonce, as an mdoc of the type asked
  -- for, which has no holder key, or as an SD-JWT whose status is valid.
  pub data IsChecked (cred : DcqlCredentialQuery) (vp_token : String) (claims : Assoc Json)
      (key : Option Key) : Type 0 where
    mdoc_checked :
        (thumbprint : Option String)
        → cred.format ≡ format_mso_mdoc
        → IsThumbprint thumbprint
        → svc.presentations.verify_mdoc vp_token
            (doc_type_of cred.meta)
            v.client_id
            v.nonce
            thumbprint
            v.response_uri
          ≡ ok claims
        → key ≡ none
        → IsChecked cred vp_token claims key
    sd_jwt_checked :
        (result : SdJwtResult Key)
        → cred.format ≢ format_mso_mdoc
        → svc.presentations.verify_with_status vp_token v.client_id v.nonce ≡ (result, none)
        → IsStatusValid result.status
        → result.claims ≡ claims
        → result.holder_key ≡ key
        → IsChecked cred vp_token claims key

  mdoc-IsChecked :
      (cred : DcqlCredentialQuery) (vp_token : String) (claims : Assoc Json) (key : Option Key)
      → cred.format ≡ format_mso_mdoc
      → verify_mdoc_presentation svc v cred vp_token ≡ ok (claims, key)
      → IsChecked cred vp_token claims key
  unfolding verify_mdoc_presentation
  mdoc-IsChecked cred vp_token claims key f h =
      let verify : Option String → Result String (Assoc Json) = λ thumbprint.
        svc.presentations.verify_mdoc vp_token (doc_type_of cred.meta) v.client_id v.nonce
          thumbprint v.response_uri in
      elim (Bool-cases (v.response_mode == response_mode_direct_post_jwt)) [
        | inr clear ↦ elim (Result-cases (verify none)) [
          | inr (x, m) ↦ absurd (ground arith)
          | inl (c, m) ↦
              mdoc_checked none f
                (in_the_clear (ne_of_test v.response_mode response_mode_direct_post_jwt clear) refl)
                (m ∙ ap ok (ground arith)) (ground arith)
        ]
        | inl coded ↦ elim (Option-cases v.encryption_key) [
          | inl e ↦ absurd (ground arith)
          | inr (own, e) ↦ elim (Result-cases (svc.library.encryption_thumbprint own)) [
            | inr (x, t) ↦ absurd (ground arith)
            | inl (t', t) ↦ elim (Result-cases (verify (some t'))) [
              | inr (x, m) ↦ absurd (ground arith)
              | inl (c, m) ↦
                  mdoc_checked (some t') f (of_session own t' e t refl) (m ∙ ap ok (ground arith))
                    (ground arith)
            ]
          ]
        ]
      ]

  pub verify_presentation-IsChecked :
      (cred : DcqlCredentialQuery) (vp_token : String) (claims : Assoc Json) (key : Option Key)
      → verify_presentation svc v cred vp_token ≡ ok (claims, key)
      → IsChecked cred vp_token claims key
  unfolding verify_presentation
  verify_presentation-IsChecked cred vp_token claims key h =
      elim (Bool-cases (cred.format == format_mso_mdoc)) [
        | inl mdoc ↦
            mdoc-IsChecked cred vp_token claims key ((eq_iff cred.format format_mso_mdoc).0 mdoc)
              (ground arith)
        | inr other ↦
            let out = svc.presentations.verify_with_status vp_token v.client_id v.nonce in
            elim (Option-cases out.1) [
              | inr (reason, e) ↦ absurd (elim (Option-cases (parse_ref svc.network out.0.status)) [
                | inl r ↦ ground arith
                | inr (ref, r) ↦ ground arith
              ])
              | inl e ↦ elim (Option-cases (parse_ref svc.network out.0.status)) [
                | inl r ↦
                    sd_jwt_checked out.0 (ne_of_test cred.format format_mso_mdoc other)
                      (ap (λ x. (out.0, x)) e) (inl r) (ground arith) (ground arith)
                | inr (ref, r) ↦ elim (Result-cases (check_valid svc.network ref)) [
                  | inr (x, c) ↦ absurd (ground arith)
                  | inl (u, c) ↦
                      sd_jwt_checked out.0 (ne_of_test cred.format format_mso_mdoc other)
                        (ap (λ x. (out.0, x)) e) (inr (ref, r, c)) (ground arith) (ground arith)
                ]
              ]
            ]
      ]
