-- ===== src/SdJwt/Signed.antt =====
-- The two signatures that internal/sdjwtverify/verify.go checks.
use fikua_lab_idp.Prelude.{
  ℕ, ◌≡◌, ◌≢◌, ap, ◌∙◌, inl, inr, String, true, false, some, List, ◌∷◌, arith, eq_iff, Option-cases,
  List-cases,
}
use fikua_lab_idp.Assoc.{Assoc}
use fikua_lab_idp.Json.{Json}
use fikua_lab_idp.Action.{ok, Result-cases}
use fikua_lab_idp.OAuth2.Dpop.{outside}
use fikua_lab_idp.SdJwt.{Library, KbToken, IssuerMessage, PresentationParts, kb_iat_skew}
use fikua_lab_idp.SdJwt.Check.{
  issuer_key, verify_issuer_signature, compute_sd_hash, cnf_key, is_for, check_kb_claims,
  verify_key_binding,
}

module _ {Key Cert EcKey : Type 0} (lib : Library Key Cert EcKey) where
  -- The claims are the payload of a JWT with exactly one signature, which verifies with the EC key
  -- of the first certificate in its header.
  pub record IsIssuerSigned (issuer_jwt : String) (issuer_claims : Assoc Json) : Type 0 where
    pub msg : IssuerMessage
    pub leaf : String
    pub rest : List String
    pub der : String
    pub cert : Cert
    pub key : EcKey
    pub payload : String
    pub parses : lib.parse_jws issuer_jwt ≡ ok msg
    pub one_signature : msg.signatures ≡ 1
    pub chain : msg.x5c ≡ some (leaf ∷ rest)
    pub decodes : lib.decode_base64 leaf ≡ ok der
    pub certificate : lib.parse_certificate der ≡ ok cert
    pub certified_key : lib.ec_key cert ≡ ok key
    pub signed : lib.verify_jws issuer_jwt key ≡ some payload
    pub holds : lib.unmarshal_object payload ≡ ok issuer_claims

  record IsLeafKey (msg : IssuerMessage) (key : EcKey) : Type 0 where
    leaf : String
    rest : List String
    der : String
    cert : Cert
    chain : msg.x5c ≡ some (leaf ∷ rest)
    decodes : lib.decode_base64 leaf ≡ ok der
    certificate : lib.parse_certificate der ≡ ok cert
    certified_key : lib.ec_key cert ≡ ok key

  issuer_key-IsLeafKey :
      (msg : IssuerMessage) (key : EcKey) → issuer_key lib msg ≡ ok key → IsLeafKey msg key
  unfolding issuer_key
  issuer_key-IsLeafKey msg key h = elim (Option-cases msg.x5c) [
    | inl e ↦ absurd (ground arith)
    | inr (chain, e) ↦ elim (List-cases chain) [
      | inl p ↦ absurd (ground arith)
      | inr (leaf, rest, p) ↦ elim (Result-cases (lib.decode_base64 leaf)) [
        | inr (x, q) ↦ absurd (ground arith)
        | inl (der, q) ↦ elim (Result-cases (lib.parse_certificate der)) [
          | inr (x, r) ↦ absurd (ground arith)
          | inl (cert, r) ↦ elim (Result-cases (lib.ec_key cert)) [
            | inr (x, k) ↦ absurd (ground arith)
            | inl (key', k) ↦ record {
              leaf = leaf;
              rest = rest;
              der = der;
              cert = cert;
              chain = e ∙ ap some p;
              decodes = q;
              certificate = r;
              certified_key = ground arith;
            }
          ]
        ]
      ]
    ]
  ]

  pub issuer_signature_sound :
      (issuer_jwt : String) (issuer_claims : Assoc Json)
      → verify_issuer_signature lib issuer_jwt ≡ ok issuer_claims
      → IsIssuerSigned issuer_jwt issuer_claims
  unfolding verify_issuer_signature
  issuer_signature_sound issuer_jwt issuer_claims h =
      elim (Result-cases (lib.parse_jws issuer_jwt)) [
        | inr (x, p) ↦ absurd (ground arith)
        | inl (msg, p) ↦ elim (Result-cases (issuer_key lib msg)) [
          | inr (x, k) ↦ absurd (ground arith)
          | inl (key, k) ↦ elim (Option-cases (lib.verify_jws issuer_jwt key)) [
            | inl v ↦ absurd (ground arith)
            | inr (payload, v) ↦ elim (Result-cases (lib.unmarshal_object payload)) [
              | inr (x, u) ↦ absurd (ground arith)
              | inl (claims, u) ↦
                  let leaf = issuer_key-IsLeafKey msg key k in
                  record {
                    msg = msg;
                    leaf = leaf.leaf;
                    rest = leaf.rest;
                    der = leaf.der;
                    cert = leaf.cert;
                    key = key;
                    payload = payload;
                    parses = p;
                    one_signature = ground arith;
                    chain = leaf.chain;
                    decodes = leaf.decodes;
                    certificate = leaf.certificate;
                    certified_key = leaf.certified_key;
                    signed = v;
                    holds = ground arith;
                  }
            ]
          ]
        ]
      ]

  -- A KB-JWT that the key in the issuer's `cnf` signed, for this audience, nonce and presentation,
  -- and at most `kb_iat_skew` before or after now.
  pub record IsKeyBound (now : ℕ) (kb_jwt presentation expected_aud expected_nonce : String)
      (issuer_claims : Assoc Json) (key : Key) : Type 0 where
    pub token : KbToken
    pub iat : ℕ
    pub present : kb_jwt ≢ ""
    pub bound_key : cnf_key lib issuer_claims ≡ ok key
    pub signed : lib.verify_jwt kb_jwt key ≡ some token
    pub audience : is_for expected_aud token.audience ≡ true
    pub nonce : token.claim "nonce" ≡ expected_nonce
    pub sd_hash : token.claim "sd_hash" ≡ compute_sd_hash lib presentation
    pub issued : token.issued_at ≡ some iat
    pub fresh : outside kb_iat_skew now iat ≡ false

  pub key_binding_sound :
      (now : ℕ) (parsed : PresentationParts) (issuer_claims : Assoc Json)
      (presentation expected_aud expected_nonce : String) (key : Key)
      → verify_key_binding lib now parsed issuer_claims presentation expected_aud expected_nonce
        ≡ ok key
      → IsKeyBound now parsed.kb_jwt presentation expected_aud expected_nonce issuer_claims key
  unfolding verify_key_binding check_kb_claims
  key_binding_sound now parsed issuer_claims presentation expected_aud expected_nonce key h =
      elim (Result-cases (cnf_key lib issuer_claims)) [
        | inr (x, k) ↦ absurd (ground arith)
        | inl (key', k) ↦ elim (Option-cases (lib.verify_jwt parsed.kb_jwt key')) [
          | inl v ↦ absurd (ground arith)
          | inr (token, v) ↦ elim (Option-cases token.issued_at) [
            | inl i ↦ absurd (ground arith)
            | inr (iat, i) ↦ record {
              token = token;
              iat = iat;
              present = ground (arith, eq_iff parsed.kb_jwt "");
              bound_key = ground arith;
              signed = ground arith;
              audience = ground arith;
              nonce = ground (arith, eq_iff (token.claim "nonce") expected_nonce);
              sd_hash =
                  ground (arith, eq_iff (token.claim "sd_hash") (compute_sd_hash lib presentation));
              issued = i;
              fresh = ground arith;
            }
          ]
        ]
      ]
