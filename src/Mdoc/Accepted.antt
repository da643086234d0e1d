-- ===== src/Mdoc/Accepted.antt =====
-- The presentations that internal/mdocverify/verify.go accepts, for a decoder that gives a document
-- as a `map[string]any`; `Mdoc.Refused` is about the decoder that the code calls.
use fikua_lab_idp.Prelude.{ℕ, ◌+◌, ◌≤◌, ◌≡◌, ◌⊎◌, ◌∙◌, inl, inr, String, Option, [], arith, eq_iff}
use fikua_lab_idp.Assoc.{Assoc, get, get-empty}
use fikua_lab_idp.Action.{Result, ok, Result-cases}
use fikua_lab_idp.Fallible.{◌>>=◌, ◌>>◌}
use fikua_lab_idp.Mdoc.Cbor.{Value, text_of}
use fikua_lab_idp.Mdoc.Cose.{Library}
use fikua_lab_idp.Mdoc.Digests.{required, verify_digests_and_collect_claims}
use fikua_lab_idp.Mdoc.Verify.{
  validity_skew, parse_single_document, verify_issuer_auth_and_extract_mso, verify_mso_meta,
  verify_doc_type, parse_tdate, verify_validity, verify_device_signature, verify,
}
use fikua_lab_idp.Mdoc.Elements.{AllCommitted, name_spaces_sound}
use fikua_lab_idp.Mdoc.Sound.{IsIssued, issuer_sound}
use fikua_lab_idp.Mdoc.Device.{IsDeviceSigned, device_sound}

module _ {Cert EcKey : Type 0} (lib : Library Cert EcKey) where
  -- Now is within the dates of the MSO, give or take five minutes; a zero date is no bound.
  pub record IsInForce (now : ℕ) (mso : Assoc Value) : Type 0 where
    pub validity : Assoc Value
    pub valid_from : ℕ
    pub valid_until : ℕ
    pub given : required lib mso "validityInfo" "MSO missing validityInfo" ≡ ok validity
    pub from_date : parse_tdate lib (get "validFrom" validity) ≡ ok valid_from
    pub until_date : parse_tdate lib (get "validUntil" validity) ≡ ok valid_until
    pub begun : valid_from ≤ now + validity_skew
    pub unfinished : (valid_until ≡ 0) ⊎ (now ≤ valid_until + validity_skew)

  validity_sound :
      (now : ℕ) (mso : Assoc Value) (u : Unit {0})
      → verify_validity lib now mso ≡ ok u
      → IsInForce now mso
  unfolding verify_validity
  validity_sound now mso u h =
      elim (Result-cases (required lib mso "validityInfo" "MSO missing validityInfo")) [
        | inr (x, g) ↦ absurd (ground arith)
        | inl (validity, g) ↦ elim (Result-cases (parse_tdate lib (get "validFrom" validity))) [
          | inr (x, f) ↦ absurd (ground arith)
          | inl (valid_from, f) ↦
              elim (Result-cases (parse_tdate lib (get "validUntil" validity))) [
                | inr (x, t) ↦ absurd (ground arith)
                | inl (valid_until, t) ↦ record {
                  validity = validity;
                  valid_from = valid_from;
                  valid_until = valid_until;
                  given = g;
                  from_date = f;
                  until_date = t;
                  begun = ground arith;
                  unfinished = ground arith;
                }
              ]
        ]
      ]

  -- The claims are those of a document whose issuer and holder both signed it.
  pub record IsAccepted (now : ℕ) (vp_token expected_doc_type client_id nonce : String)
      (thumbprint : Option String) (response_uri : String) (trust_anchor : Option Cert)
      (claims : Assoc Value) : Type 0 where
    pub document : Assoc Value
    pub issuer_signed : Assoc Value
    pub device_signed : Assoc Value
    pub mso : Assoc Value
    pub value_digests : Assoc Value
    pub parses : parse_single_document lib vp_token ≡ ok document
    pub issuer_part :
        required lib document "issuerSigned" "Document missing issuerSigned" ≡ ok issuer_signed
    pub device_part :
        required lib document "deviceSigned" "Document missing deviceSigned" ≡ ok device_signed
    pub issued : IsIssued lib now trust_anchor issuer_signed mso
    pub version : text_of (get "version" mso) ≡ "1.0"
    pub digest_algorithm : text_of (get "digestAlgorithm" mso) ≡ "SHA-256"
    pub doc_type : text_of (get "docType" document) ≡ text_of (get "docType" mso)
    pub requested :
        (expected_doc_type ≡ "") ⊎ (text_of (get "docType" document) ≡ expected_doc_type)
    pub digests : required lib mso "valueDigests" "MSO missing valueDigests" ≡ ok value_digests
    pub committed : AllCommitted lib value_digests claims
    pub in_force : IsInForce now mso
    pub device :
        IsDeviceSigned lib device_signed mso
          (text_of (get "docType" document))
          client_id
          nonce
          thumbprint
          response_uri

  digests_sound :
      (issuer_signed mso claims : Assoc Value)
      → verify_digests_and_collect_claims lib issuer_signed mso ≡ ok claims
      → (value_digests : Assoc Value) × (required lib mso "valueDigests" "MSO missing valueDigests"
          ≡ ok value_digests)
        × AllCommitted lib value_digests claims
  unfolding verify_digests_and_collect_claims
  digests_sound issuer_signed mso claims h =
      elim (Result-cases
        (required lib issuer_signed "nameSpaces" "issuerSigned missing nameSpaces")) [
          | inr (x, n) ↦ absurd (ground arith)
          | inl (name_spaces, n) ↦
              elim (Result-cases (required lib mso "valueDigests" "MSO missing valueDigests")) [
                | inr (x, d) ↦ absurd (ground arith)
                | inl (value_digests, d) ↦ (
                  value_digests,
                  d,
                  name_spaces_sound lib value_digests name_spaces [] claims
                      (λ name value e. absurd (ground (arith, get-empty {V = Value} name)))
                      (ground arith),
                )
              ]
        ]

  -- What is checked once the MSO is known, of a document of this type.
  abbrev rest_of_verify :
      ℕ
      → Assoc Value
      → Assoc Value
      → Assoc Value
      → String
      → String
      → String
      → String
      → Option String
      → String
      → Result String (Assoc Value)
  rest_of_verify now issuer_signed device_signed mso doc_type expected_doc_type client_id nonce
        thumbprint response_uri =
      do
        verify_mso_meta lib mso
        verify_doc_type lib doc_type mso expected_doc_type
        claims ← verify_digests_and_collect_claims lib issuer_signed mso
        verify_validity lib now mso
        verify_device_signature lib device_signed mso doc_type client_id nonce thumbprint
            response_uri
        ok claims

  record AreChecked (now : ℕ) (device_signed mso : Assoc Value)
      (doc_type expected_doc_type client_id nonce : String) (thumbprint : Option String)
      (response_uri : String) (claims : Assoc Value) : Type 0 where
    value_digests : Assoc Value
    version : text_of (get "version" mso) ≡ "1.0"
    digest_algorithm : text_of (get "digestAlgorithm" mso) ≡ "SHA-256"
    same_type : doc_type ≡ text_of (get "docType" mso)
    requested : (expected_doc_type ≡ "") ⊎ (doc_type ≡ expected_doc_type)
    digests : required lib mso "valueDigests" "MSO missing valueDigests" ≡ ok value_digests
    committed : AllCommitted lib value_digests claims
    in_force : IsInForce now mso
    device : IsDeviceSigned lib device_signed mso doc_type client_id nonce thumbprint response_uri

  rest_sound :
      (now : ℕ) (issuer_signed device_signed mso : Assoc Value)
      (doc_type expected_doc_type client_id nonce : String) (thumbprint : Option String)
      (response_uri : String) (claims : Assoc Value)
      → rest_of_verify now issuer_signed device_signed mso doc_type expected_doc_type client_id
          nonce thumbprint response_uri
        ≡ ok claims
      → AreChecked now device_signed mso doc_type expected_doc_type client_id nonce thumbprint
          response_uri claims
  unfolding verify_mso_meta verify_doc_type
  rest_sound now issuer_signed device_signed mso doc_type expected_doc_type client_id nonce
        thumbprint response_uri claims h =
      elim (Result-cases (verify_digests_and_collect_claims lib issuer_signed mso)) [
        | inr (x, c) ↦ absurd (ground arith)
        | inl (collected, c) ↦ elim (Result-cases (verify_validity lib now mso)) [
          | inr (x, v) ↦ absurd (ground arith)
          | inl (u, v) ↦
              elim (Result-cases (
                verify_device_signature lib device_signed mso doc_type client_id nonce thumbprint
                  response_uri)) [
                    | inr (x, d) ↦ absurd (ground arith)
                    | inl (w, d) ↦
                        let (value_digests, digests, committed) =
                          digests_sound issuer_signed mso claims (c ∙ ground arith) in
                        record {
                          value_digests = value_digests;
                          version = ground (arith, eq_iff (text_of (get "version" mso)) "1.0");
                          digest_algorithm =
                              ground
                                (arith, eq_iff (text_of (get "digestAlgorithm" mso)) "SHA-256");
                          same_type = ground (arith, eq_iff doc_type (text_of (get "docType" mso)));
                          requested = ground (
                            arith,
                            eq_iff expected_doc_type "",
                            eq_iff expected_doc_type doc_type,
                          );
                          digests = digests;
                          committed = committed;
                          in_force = validity_sound now mso u v;
                          device =
                              device_sound lib device_signed mso doc_type client_id nonce thumbprint
                                response_uri w d;
                        }
                  ]
        ]
      ]

  -- Whenever verification returns claims, the response's first document has an MSO signed with ES256
  -- by the key of the first certificate of a valid chain, in version 1.0 with SHA-256, of the
  -- document's type, which is the requested one where one is requested; every claim returned is an
  -- element whose tagged encoding has the digest that the MSO holds; now is within the MSO's dates,
  -- give or take five minutes; and the device key that the MSO holds signed the transcript of this
  -- session.
  pub verify_sound :
      (now : ℕ) (vp_token expected_doc_type client_id nonce : String) (thumbprint : Option String)
      (response_uri : String) (trust_anchor : Option Cert) (claims : Assoc Value)
      → verify lib now vp_token expected_doc_type client_id nonce thumbprint response_uri
          trust_anchor
        ≡ ok claims
      → IsAccepted now vp_token expected_doc_type client_id nonce thumbprint response_uri
          trust_anchor claims
  unfolding verify
  verify_sound now vp_token expected_doc_type client_id nonce thumbprint response_uri trust_anchor
        claims h =
      elim (Result-cases (parse_single_document lib vp_token)) [
        | inr (x, p) ↦ absurd (ground arith)
        | inl (document, p) ↦
            elim (Result-cases
              (required lib document "issuerSigned" "Document missing issuerSigned")) [
                | inr (x, i) ↦ absurd (ground arith)
                | inl (issuer_signed, i) ↦
                    elim (Result-cases
                      (required lib document "deviceSigned" "Document missing deviceSigned")) [
                        | inr (x, d) ↦ absurd (ground arith)
                        | inl (device_signed, d) ↦
                            elim (Result-cases (
                              verify_issuer_auth_and_extract_mso lib now issuer_signed
                                trust_anchor)) [
                                  | inr (x, m) ↦ absurd (ground arith)
                                  | inl (mso, m) ↦
                                      let r =
                                        rest_sound now issuer_signed device_signed mso
                                          (text_of (get "docType" document)) expected_doc_type
                                          client_id nonce thumbprint response_uri claims
                                          (ground arith) in
                                      record {
                                        document = document;
                                        issuer_signed = issuer_signed;
                                        device_signed = device_signed;
                                        mso = mso;
                                        value_digests = r.value_digests;
                                        parses = p;
                                        issuer_part = i;
                                        device_part = d;
                                        issued =
                                            issuer_sound lib now issuer_signed trust_anchor mso m;
                                        version = r.version;
                                        digest_algorithm = r.digest_algorithm;
                                        doc_type = r.same_type;
                                        requested = r.requested;
                                        digests = r.digests;
                                        committed = r.committed;
                                        in_force = r.in_force;
                                        device = r.device;
                                      }
                                ]
                      ]
              ]
      ]
