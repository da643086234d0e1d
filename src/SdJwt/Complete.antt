-- ===== src/SdJwt/Complete.antt =====
-- Which presentations internal/sdjwtverify/verify.go takes apart and accepts, and what `sd_hash` fixes.
use fikua_lab_idp.Prelude.{
  ℕ, ◌≡◌, ◌↔◌, refl, sym, ap, ◌∙◌, subst, String, true, none, some, List, [], ◌∷◌, All, elem, arith,
  eq_iff, test_of_ne,
}
use fikua_lab_idp.Texts.{split, terminated}
use fikua_lab_idp.Texts.Cut.{split-terminated, terminated-injective}
use fikua_lab_idp.Assoc.{Assoc}
use fikua_lab_idp.Json.{Json}
use fikua_lab_idp.Action.{ok}
use fikua_lab_idp.Fallible.{◌>>=◌}
use fikua_lab_idp.SdJwt.{
  Library, PresentationParts, Disclosure, parse, parse_parts, parse_disclosures, digest, status_of,
}
use fikua_lab_idp.SdJwt.Check.{
  verify_with_status, verify_parsed, verify_issuer_signature, verify_disclosure_digests, issuer_key,
  committed_digests, check_digests, verify_key_binding, check_kb_claims, compute_sd_hash,
  claims_from,
}
use fikua_lab_idp.SdJwt.Signed.{IsIssuerSigned, IsKeyBound}
use fikua_lab_idp.SdJwt.Decoded.{
  IsSpelled, IsDecoded, none_left, skipped, decoded, parse_parts-snoc, parse-IsSpelled, parts_of,
}
use fikua_lab_idp.SdJwt.Sound.{sd_hash-IsSpelled}

module _ {Key Cert EcKey : Type 0} (lib : Library Key Cert EcKey) where
  parse_decoded :
      {parts : List String} {ds : List Disclosure}
      → IsDecoded lib parts ds
      → parse_disclosures lib parts ≡ ok ds
  unfolding parse_disclosures
  parse_decoded none_left = refl
  parse_decoded (skipped r) = ground (arith, parse_decoded r)
  parse_decoded (decoded {part} ne e p r) = ground (arith, parse_decoded r, test_of_ne part "" ne)

  -- A presentation parses to the parts that it spells, and to no others: the issuer's JWT, the
  -- disclosures that stand, each behind a `~`, as texts that decode to them, and the KB-JWT after
  -- the last `~`; empty texts between two `~` are passed over.
  pub parse-IsSpelled_iff :
      (presentation : String) (parsed : PresentationParts)
      → (parse lib presentation ≡ ok parsed) ↔ IsSpelled lib presentation parsed
  unfolding parse
  parse-IsSpelled_iff presentation parsed = (
    parse-IsSpelled lib presentation parsed,
    λ r.
        (ap (parse_parts lib) (
            ap (split "~") r.spells
            ∙ split-terminated "~" (parsed.issuer_jwt ∷ r.encoded) parsed.kb_jwt r.parts_lack
                r.last_lacks)
          ∙ parse_parts-snoc lib parsed.issuer_jwt r.encoded parsed.kb_jwt
          ∙ ap (λ ds. ds >>= λ ds. ok (parts_of lib parsed.issuer_jwt parsed.kb_jwt ds))
              (parse_decoded r.disclosures)),
  )

  same_decoding :
      {parts : List String} {ds es : List Disclosure}
      → IsDecoded lib parts ds
      → IsDecoded lib parts es
      → ds ≡ es
  same_decoding r q = ground (arith, parse_decoded r, parse_decoded q)

  -- Where no two texts have the same SHA-256, presentations that parse and have the same `sd_hash`
  -- have the same issuer JWT and the same disclosures: a KB-JWT that was signed over one fits no
  -- other with a disclosure added, removed, edited or moved.
  pub sd_hash_fixes_content :
      (collision_free : (s t : String) → lib.sha256_base64_url s ≡ lib.sha256_base64_url t → s ≡ t)
      (p q : String) (parsed other : PresentationParts)
      → parse lib p ≡ ok parsed
      → parse lib q ≡ ok other
      → compute_sd_hash lib p ≡ compute_sd_hash lib q
      → (parsed.issuer_jwt ≡ other.issuer_jwt) × (parsed.disclosures ≡ other.disclosures)
  unfolding compute_sd_hash
  sd_hash_fixes_content collision_free p q parsed other hp hq same =
      let r = parse-IsSpelled lib p parsed hp in
      let t = parse-IsSpelled lib q other hq in
      let fronts =
        collision_free (terminated "~" (parsed.issuer_jwt ∷ r.encoded) "")
          (terminated "~" (other.issuer_jwt ∷ t.encoded) "")
          (sym (sd_hash-IsSpelled lib p parsed r) ∙ same ∙ sd_hash-IsSpelled lib q other t) in
      let parts =
        terminated-injective "~" (parsed.issuer_jwt ∷ r.encoded) (other.issuer_jwt ∷ t.encoded)
          r.parts_lack t.parts_lack fronts in
      let encoded : r.encoded ≡ t.encoded = ground (arith, parts) in
      (
        ground (arith, parts),
        same_decoding (subst (λ ps. IsDecoded lib ps parsed.disclosures) encoded r.disclosures)
            t.disclosures,
      )

  committed_complete :
      (ds : List Disclosure) (committed : List String)
      → All (λ d. elem (digest lib d) committed ≡ true) ds
      → check_digests lib ds committed ≡ ok tt
  unfolding check_digests
  committed_complete [] committed hs = refl
  committed_complete (d ∷ ds) committed hs =
      ground (arith, hs.0, committed_complete ds committed hs.1)

  issuer_signature_complete :
      (issuer_jwt : String) (issuer_claims : Assoc Json)
      → IsIssuerSigned lib issuer_jwt issuer_claims
      → verify_issuer_signature lib issuer_jwt ≡ ok issuer_claims
  unfolding verify_issuer_signature issuer_key
  issuer_signature_complete issuer_jwt issuer_claims s = ground (
    arith, s.parses, s.one_signature, s.chain, s.decodes, s.certificate, s.certified_key, s.signed,
    s.holds,
  )

  key_binding_complete :
      (now : ℕ) (parsed : PresentationParts) (issuer_claims : Assoc Json)
      (presentation expected_aud expected_nonce : String) (key : Key)
      → IsKeyBound lib now parsed.kb_jwt presentation expected_aud expected_nonce issuer_claims key
      → verify_key_binding lib now parsed issuer_claims presentation expected_aud expected_nonce
        ≡ ok key
  unfolding verify_key_binding check_kb_claims
  key_binding_complete now parsed issuer_claims presentation expected_aud expected_nonce key b =
      ground (
        arith,
        b.bound_key,
        b.signed,
        b.audience,
        b.issued,
        b.fresh,
        b.nonce,
        b.sd_hash,
        test_of_ne parsed.kb_jwt "" b.present,
        eq_iff (b.token.claim "nonce") expected_nonce,
        eq_iff (b.token.claim "sd_hash") (compute_sd_hash lib presentation),
      )

  -- A presentation that spells parts whose issuer JWT is signed as `verify_with_status_sound` says,
  -- whose disclosures all have their digests in the signed `_sd`, and whose KB-JWT binds the
  -- holder's key to this audience, nonce and presentation, is accepted, with the disclosed claims,
  -- the signed status and the holder's key.
  pub verify_with_status_complete :
      (now : ℕ) (presentation expected_aud expected_nonce : String) (parsed : PresentationParts)
      (issuer_claims : Assoc Json) (key : Key)
      → IsSpelled lib presentation parsed
      → IsIssuerSigned lib parsed.issuer_jwt issuer_claims
      → All (λ d. elem (digest lib d) (committed_digests issuer_claims) ≡ true) parsed.disclosures
      → IsKeyBound lib now parsed.kb_jwt presentation expected_aud expected_nonce issuer_claims key
      → verify_with_status lib now presentation expected_aud expected_nonce ≡ (
        record {
          claims = claims_from parsed.disclosures [];
          status = status_of issuer_claims;
          holder_key = some key;
        },
        none,
      )
  unfolding verify_with_status verify_parsed verify_disclosure_digests
  verify_with_status_complete now presentation expected_aud expected_nonce parsed issuer_claims key
        spelled signed committed bound =
      ground (
        arith,
        (parse-IsSpelled_iff presentation parsed).1 spelled,
        issuer_signature_complete parsed.issuer_jwt issuer_claims signed,
        committed_complete parsed.disclosures (committed_digests issuer_claims) committed,
        key_binding_complete now parsed issuer_claims presentation expected_aud expected_nonce key
            bound,
      )
