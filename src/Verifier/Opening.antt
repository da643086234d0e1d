-- ===== src/Verifier/Opening.antt =====
-- Which session a response of internal/verifier/service.go is opened for, and what is refused.
use fikua_lab_idp.Prelude.{
  ℕ, ◌-◌, ◌≤◌, ◌≡◌, subst, ◌≢◌, inl, inr, String, false, Option, none, some, arith, eq_iff,
  is_empty, ◌==◌, Option-cases, Bool-cases,
}
use fikua_lab_idp.Assoc.{Assoc, get}
use fikua_lab_idp.Json.{Json}
use fikua_lab_idp.Action.{ok, err, Result-cases}
use fikua_lab_idp.Session.Types.{
  verification_session_ttl, Store, VerificationSession, DcqlCredentialQuery, ResponseEncryptionKey,
}
use fikua_lab_idp.Session.Index.{IsIndexed, find_by_kid_held}
use fikua_lab_idp.Session.Verifications.{
  find_verification_by_encryption_kid, find_verification_by_state,
}
use fikua_lab_idp.OAuth2.Error.{Exception}
use fikua_lab_idp.StatusList.{StatusListRef, parse_ref, check_valid}
use fikua_lab_idp.Verifier.Types.{Service, SdJwtResult, ResponseRequest, format_mso_mdoc}
use fikua_lab_idp.Verifier.Presentation.{verify_presentation}
use fikua_lab_idp.Verifier.Response.{
  protocol, unacceptable, vp_tokens_of, tokens_or_nil, open_encrypted, open_plain, open_response,
  judge, record_outcome, handle_response,
}

module _ {Key : Type 0} (svc : Service Key) where
  -- The JWE names the key of this session, decrypts with it, and holds this session's state.
  pub record IsOpened (started : ℕ) (jwe : String) (s : Store) (v : VerificationSession)
      (raw : Json) : Type 0 where
    pub kid : String
    pub key : ResponseEncryptionKey
    pub plaintext : String
    pub tokens : Assoc String
    pub names : svc.library.jwe_kid jwe ≡ ok kid
    pub held : get v.session_id s.verifications ≡ some v
    pub live : started - v.created_at ≤ verification_session_ttl
    pub has_key : v.encryption_key ≡ some key
    pub own_kid : key.kid ≡ kid
    pub decrypts : svc.library.decrypt key jwe ≡ ok plaintext
    pub reads : svc.library.read_payload plaintext ≡ ok (raw, v.state)
    pub has_state : v.state ≢ ""
    pub has_tokens : vp_tokens_of svc v raw ≡ some tokens

  -- Where the indexes of the store and its sessions agree (`IsIndexed`), an encrypted response that
  -- is opened is opened for a stored session, within its lifetime, whose own key has the `kid` that
  -- the JWE names: it decrypts with that key, and the state inside is that session's.
  pub open_encrypted_sound :
      (started : ℕ) (jwe : String) (s : Store) (v : VerificationSession) (raw : Json)
      → IsIndexed s
      → (open_encrypted svc started jwe s).0 ≡ ok (v, raw)
      → IsOpened started jwe s v raw
  unfolding open_encrypted
  open_encrypted_sound started jwe s v raw indexed h =
      elim (Result-cases (svc.library.jwe_kid jwe)) [
        | inr (x, p) ↦ absurd (ground arith)
        | inl (kid, p) ↦ elim (Option-cases (find_verification_by_encryption_kid kid started s).0) [
          | inl q ↦ absurd (ground arith)
          | inr (w, q) ↦ elim (Option-cases w.encryption_key) [
            | inl k ↦ absurd (ground arith)
            | inr (key, k) ↦ elim (Result-cases (svc.library.decrypt key jwe)) [
              | inr (x, d) ↦ absurd (ground arith)
              | inl (plaintext, d) ↦ elim (Result-cases (svc.library.read_payload plaintext)) [
                | inr (x, r) ↦ absurd (ground arith)
                | inl ((raw', state), r) ↦ elim (Option-cases (vp_tokens_of svc w raw')) [
                  | inl t ↦ absurd (ground arith)
                  | inr (tokens, t) ↦
                      let seen : w.state ≡ state = ground (arith, eq_iff state w.state) in
                      let given : w.state ≢ "" = ground (arith, seen, eq_iff state "") in
                      let same : w ≡ v = ground (arith, seen) in
                      let (held, own, live) = find_by_kid_held kid started s w indexed q in
                      subst (λ x. IsOpened started jwe s x raw) same
                        (record {
                          kid = kid;
                          key = key;
                          plaintext = plaintext;
                          tokens = tokens;
                          names = p;
                          held = held;
                          live = live;
                          has_key = k;
                          own_kid = ground (arith, own);
                          decrypts = d;
                          reads = ground (arith, seen);
                          has_state = given;
                          has_tokens = ground (arith, seen);
                        })
                ]
              ]
            ]
          ]
        ]
      ]

  encrypted_is_no_protocol_error :
      (started : ℕ) (jwe : String) (s : Store) (e : Exception)
      → (open_encrypted svc started jwe s).0 ≢ err (protocol e)
  unfolding open_encrypted
  encrypted_is_no_protocol_error started jwe s e h = elim (Result-cases (svc.library.jwe_kid jwe)) [
    | inr (x, p) ↦ ground arith
    | inl (kid, p) ↦ elim (Option-cases (find_verification_by_encryption_kid kid started s).0) [
      | inl q ↦ ground arith
      | inr (w, q) ↦ elim (Option-cases w.encryption_key) [
        | inl k ↦ ground arith
        | inr (key, k) ↦ elim (Result-cases (svc.library.decrypt key jwe)) [
          | inr (x, d) ↦ ground arith
          | inl (plaintext, d) ↦ elim (Result-cases (svc.library.read_payload plaintext)) [
            | inr (x, r) ↦ ground arith
            | inl (x, r) ↦ ground arith
          ]
        ]
      ]
    ]
  ]

  plain_protocol_error :
      (started : ℕ) (state vp_token : String) (s : Store) (e : Exception)
      → (open_plain svc started state vp_token s).0 ≡ err (protocol e)
      → open_plain svc started state vp_token s ≡ (err (protocol e), s)
  unfolding open_plain
  plain_protocol_error started state vp_token s e h =
      elim (Option-cases (find_verification_by_state state started s).0) [
        | inl q ↦ ground arith
        | inr (w, q) ↦ ground arith
      ]

  -- A request that is refused as malformed, with a protocol error, touches no session.
  pub protocol_error_touches_nothing :
      (started now : ℕ) (req : ResponseRequest) (s : Store) (e : Exception)
      → (handle_response svc started now req s).0 ≡ err e
      → handle_response svc started now req s ≡ (err e, s)
  unfolding handle_response record_outcome open_response
  protocol_error_touches_nothing started now req s e h =
      elim (Result-cases (open_response svc started req s).0) [
        | inl ((v, raw), p) ↦
            elim (Result-cases (judge svc v (tokens_or_nil (vp_tokens_of svc v raw)))) [
              | inl (x, j) ↦ absurd (ground arith)
              | inr (x, j) ↦ absurd (ground arith)
            ]
        | inr (unacceptable x, p) ↦ absurd (ground arith)
        | inr (protocol x, p) ↦ elim (Bool-cases (is_empty req.response)) [
          | inl plain ↦
              let q = plain_protocol_error started req.state req.vp_token s x (ground arith) in
              ground (arith, q)
          | inr encrypted ↦
              absurd (encrypted_is_no_protocol_error started req.response s x (ground arith))
        ]
      ]

  -- A presentation whose status list entry cannot be read as valid is refused, even where its
  -- signatures are in order; and where they are not, that error stays the one that is reported.
  pub revoked_presentation_refused :
      (v : VerificationSession) (cred : DcqlCredentialQuery) (vp_token reason : String)
      (result : SdJwtResult Key) (verify_err : Option String) (ref : StatusListRef)
      → (cred.format == format_mso_mdoc) ≡ false
      → svc.presentations.verify_with_status vp_token v.client_id v.nonce ≡ (result, verify_err)
      → parse_ref svc.network result.status ≡ some ref
      → check_valid svc.network ref ≡ err reason
      → verify_presentation svc v cred vp_token
        ≡ err (elim verify_err [ none ↦ reason | some earlier ↦ earlier ])
  unfolding verify_presentation
  revoked_presentation_refused v cred vp_token reason result none ref sd checked named bad =
      ground (arith, checked)
  revoked_presentation_refused v cred vp_token reason result (some earlier) ref sd checked named
        bad =
      ground (arith, checked)
