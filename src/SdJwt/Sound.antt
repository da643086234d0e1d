-- ===== src/SdJwt/Sound.antt =====
-- What internal/sdjwtverify/verify.go accepts.
use fikua_lab_idp.Prelude.{
  ℕ, ◌≡◌, subst, ap, ◌∙◌, inl, inr, String, true, none, some, List, [], ◌∷◌, All, ◌==◌, elem, arith,
  eq_of_test, Bool-cases,
}
use fikua_lab_idp.Texts.{up_to_last, terminated}
use fikua_lab_idp.Texts.Cut.{up_to_last-terminated}
use fikua_lab_idp.Assoc.{Assoc, get, put, get-put, get-empty}
use fikua_lab_idp.Json.{Json}
use fikua_lab_idp.Action.{ok, Result-cases}
use fikua_lab_idp.Verifier.Types.{SdJwtResult}
use fikua_lab_idp.SdJwt.{
  Library, PresentationParts, Disclosure, parse, digest, parse_disclosure, status_of,
}
use fikua_lab_idp.SdJwt.Check.{
  committed_digests, claims_from, verify_issuer_signature, check_digests, verify_disclosure_digests,
  compute_sd_hash, verify_key_binding, verify_parsed, verify_with_status,
}
use fikua_lab_idp.SdJwt.Signed.{
  IsIssuerSigned, IsKeyBound, issuer_signature_sound, key_binding_sound,
}
use fikua_lab_idp.SdJwt.Decoded.{IsSpelled, IsDecoded, none_left, skipped, decoded, parse-IsSpelled}

module _ {Key Cert EcKey : Type 0} (lib : Library Key Cert EcKey) where
  -- The claim is the value of a disclosure that decodes to it, whose digest the issuer's `_sd` holds.
  pub record IsDisclosed (issuer_claims : Assoc Json) (name : String) (value : Json) : Type 0 where
    pub disclosure : Disclosure
    pub decodes : parse_disclosure lib disclosure.encoded ≡ ok disclosure
    pub named : disclosure.claim_name ≡ name
    pub valued : disclosure.claim_value ≡ value
    pub committed : elem (digest lib disclosure) (committed_digests issuer_claims) ≡ true

  abbrev IsCommitted : Assoc Json → Disclosure → Type 0
  IsCommitted issuer_claims d =
      (parse_disclosure lib d.encoded ≡ ok d)
      × (elem (digest lib d) (committed_digests issuer_claims) ≡ true)

  check_digests_sound :
      (ds : List Disclosure) (committed : List String) (u : Unit {0})
      → check_digests lib ds committed ≡ ok u
      → All (λ d. elem (digest lib d) committed ≡ true) ds
  unfolding check_digests
  check_digests_sound [] committed u h = tt
  check_digests_sound (d ∷ ds) committed u h =
      (ground arith, check_digests_sound ds committed u (ground arith))

  IsCommitted-disclosures :
      (issuer_claims : Assoc Json) {parts : List String} {ds : List Disclosure}
      → IsDecoded lib parts ds
      → All (λ d. elem (digest lib d) (committed_digests issuer_claims) ≡ true) ds
      → All (IsCommitted issuer_claims) ds
  IsCommitted-disclosures issuer_claims none_left hs = tt
  IsCommitted-disclosures issuer_claims (skipped r) hs = IsCommitted-disclosures issuer_claims r hs
  IsCommitted-disclosures issuer_claims (decoded ne e p r) hs =
      ((ap (parse_disclosure lib) e ∙ p, hs.0), IsCommitted-disclosures issuer_claims r hs.1)

  claims_from_sound :
      (issuer_claims : Assoc Json) (ds : List Disclosure) (claims : Assoc Json) (name : String)
      (value : Json)
      → All (IsCommitted issuer_claims) ds
      → (get name claims ≡ some value → IsDisclosed issuer_claims name value)
      → get name (claims_from ds claims) ≡ some value
      → IsDisclosed issuer_claims name value
  unfolding claims_from
  claims_from_sound issuer_claims [] claims name value hs before h = before h
  claims_from_sound issuer_claims (d ∷ ds) claims name value hs before h =
      claims_from_sound issuer_claims ds (put d.claim_name d.claim_value claims) name value hs.1
        (λ e. elim (Bool-cases (d.claim_name == name)) [
          | inr other ↦ before (ground (arith, get-put d.claim_name name d.claim_value claims))
          | inl same ↦ record {
            disclosure = d;
            decodes = hs.0.0;
            named = eq_of_test d.claim_name name same;
            valued = ground (arith, get-put d.claim_name name d.claim_value claims);
            committed = hs.0.1;
          }
        ])
        h

  -- A presentation that the issuer signed and that the holder bound to this audience and nonce.
  pub record IsPresented (now : ℕ) (presentation expected_aud expected_nonce : String)
      (result : SdJwtResult Key) : Type 0 where
    pub parsed : PresentationParts
    pub issuer_claims : Assoc Json
    pub key : Key
    pub parses : parse lib presentation ≡ ok parsed
    pub spelled : IsSpelled lib presentation parsed
    pub covered :
        compute_sd_hash lib presentation
        ≡ lib.sha256_base64_url (terminated "~" (parsed.issuer_jwt ∷ spelled.encoded) "")
    pub issuer_signed : IsIssuerSigned lib parsed.issuer_jwt issuer_claims
    pub disclosed :
        (name : String) (value : Json)
        → get name result.claims ≡ some value
        → IsDisclosed issuer_claims name value
    pub key_bound :
        IsKeyBound lib now parsed.kb_jwt presentation expected_aud expected_nonce issuer_claims key
    pub holder : result.holder_key ≡ some key
    pub status : result.status ≡ status_of issuer_claims

  pub sd_hash-IsSpelled :
      (presentation : String) (parsed : PresentationParts) (p : IsSpelled lib presentation parsed)
      → compute_sd_hash lib presentation
        ≡ lib.sha256_base64_url (terminated "~" (parsed.issuer_jwt ∷ p.encoded) "")
  unfolding compute_sd_hash
  sd_hash-IsSpelled presentation parsed p =
      let before_last =
        ap (up_to_last "~") p.spells
        ∙ up_to_last-terminated "~" parsed.issuer_jwt p.encoded parsed.kb_jwt p.last_lacks in
      ground (arith, before_last)

  record AreChecked (now : ℕ) (parsed : PresentationParts)
      (presentation expected_aud expected_nonce : String) (issuer_claims : Assoc Json) (key : Key)
      : Type 0 where
    issuer_signed : IsIssuerSigned lib parsed.issuer_jwt issuer_claims
    committed :
        All (λ d. elem (digest lib d) (committed_digests issuer_claims) ≡ true) parsed.disclosures
    key_bound :
        IsKeyBound lib now parsed.kb_jwt presentation expected_aud expected_nonce issuer_claims key

  verify_parsed_sound :
      (now : ℕ) (parsed : PresentationParts) (presentation expected_aud expected_nonce : String)
      (issuer_claims : Assoc Json) (key : Key)
      → verify_parsed lib now parsed presentation expected_aud expected_nonce
        ≡ ok (issuer_claims, key)
      → AreChecked now parsed presentation expected_aud expected_nonce issuer_claims key
  unfolding verify_parsed verify_disclosure_digests
  verify_parsed_sound now parsed presentation expected_aud expected_nonce issuer_claims key h =
      elim (Result-cases (verify_issuer_signature lib parsed.issuer_jwt)) [
        | inr (x, s) ↦ absurd (ground arith)
        | inl (claims, s) ↦
            elim (Result-cases (check_digests lib parsed.disclosures (committed_digests claims))) [
              | inr (x, c) ↦ absurd (ground arith)
              | inl (u, c) ↦
                  elim (Result-cases (
                    verify_key_binding lib now parsed claims presentation expected_aud
                      expected_nonce)) [
                        | inr (x, k) ↦ absurd (ground arith)
                        | inl (holder, k) ↦
                            let same : claims ≡ issuer_claims = ground arith in
                            record {
                              issuer_signed =
                                  issuer_signature_sound lib parsed.issuer_jwt issuer_claims
                                    (ground arith);
                              committed =
                                  check_digests_sound parsed.disclosures
                                    (committed_digests issuer_claims) u
                                    (subst
                                      (λ cs.
                                        check_digests lib parsed.disclosures (committed_digests cs)
                                        ≡ ok u)
                                      same c);
                              key_bound =
                                  key_binding_sound lib now parsed issuer_claims presentation
                                    expected_aud expected_nonce key (ground arith);
                            }
                      ]
            ]
      ]

  -- Whenever verification returns no error, the presentation is the issuer's JWT, the disclosures
  -- and the KB-JWT with a `~` between each two; the issuer's JWT has exactly one signature, made
  -- with the EC key of the first certificate in its header; every claim returned is the value of a
  -- disclosure whose digest the signed `_sd` lists; the KB-JWT is signed by the key of the signed
  -- `cnf.jwk`, which is the holder key returned, and states the expected audience first, the
  -- expected nonce, a date at most five minutes from now, and the hash of everything before it.
  pub verify_with_status_sound :
      (now : ℕ) (presentation expected_aud expected_nonce : String) (result : SdJwtResult Key)
      → verify_with_status lib now presentation expected_aud expected_nonce ≡ (result, none)
      → IsPresented now presentation expected_aud expected_nonce result
  unfolding verify_with_status
  verify_with_status_sound now presentation expected_aud expected_nonce result h =
      elim (Result-cases (parse lib presentation)) [
        | inr (x, p) ↦ absurd (ground arith)
        | inl (parsed, p) ↦
            elim (Result-cases
              (verify_parsed lib now parsed presentation expected_aud expected_nonce)) [
                | inr (x, v) ↦ absurd (ground arith)
                | inl ((issuer_claims, key), v) ↦
                    let checked =
                      verify_parsed_sound now parsed presentation expected_aud expected_nonce
                        issuer_claims key v in
                    let spelled = parse-IsSpelled lib presentation parsed p in
                    let returned : claims_from parsed.disclosures [] ≡ result.claims =
                      ground arith in
                    record {
                      parsed = parsed;
                      issuer_claims = issuer_claims;
                      key = key;
                      parses = p;
                      spelled = spelled;
                      covered = sd_hash-IsSpelled presentation parsed spelled;
                      issuer_signed = checked.issuer_signed;
                      disclosed = λ name value e.
                          claims_from_sound issuer_claims parsed.disclosures [] name value
                            (IsCommitted-disclosures issuer_claims spelled.disclosures
                              checked.committed)
                            (λ e'. absurd (ground (arith, get-empty {V = Json} name)))
                            (ap (get name) returned ∙ e);
                      key_bound = checked.key_bound;
                      holder = ground arith;
                      status = ground arith;
                    }
              ]
      ]
