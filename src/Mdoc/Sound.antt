-- ===== src/Mdoc/Sound.antt =====
-- What internal/mdocverify/verify.go accepts.
use fikua_lab_idp.Prelude.{
  ℕ, ◌≡◌, subst, ap, ◌∙◌, inl, inr, String, true, Option, some, List, ◌∷◌, arith, Option-cases,
  List-cases,
}
use fikua_lab_idp.Assoc.{Assoc, get}
use fikua_lab_idp.Action.{Result, ok, Result-cases}
use fikua_lab_idp.Fallible.{◌>>=◌, ◌>>◌, wrapped}
use fikua_lab_idp.Mdoc.Cbor.{Value}
use fikua_lab_idp.Mdoc.Cose.{
  Library, CoseSign1, decode_cose_sign1, cose_cert_chain, verify_cose_sign1_attached,
  verify_cose_sign1_detached, sig_structure, is_es256,
}
use fikua_lab_idp.Mdoc.Chain.{validate_cert_chain}
use fikua_lab_idp.Mdoc.Transcript.{tag_encoded_cbor}
use fikua_lab_idp.Mdoc.Verify.{verify_issuer_auth_and_extract_mso, mso_bytes}

module _ {Cert EcKey : Type 0} (lib : Library Cert EcKey) where
  -- An ES256 signature of 64 bytes over the payload, by the key.
  pub record IsSigned (sign1 : CoseSign1) (payload : String) (key : EcKey) : Type 0 where
    pub alg : Value
    pub to_be_signed : String
    pub header : lib.unmarshal_alg sign1.protected ≡ ok (some alg)
    pub es256 : is_es256 alg ≡ true
    pub encodes : lib.marshal (sig_structure lib sign1 payload) ≡ ok to_be_signed
    pub long : lib.byte_length sign1.signature ≡ 64
    pub verifies : lib.ecdsa_verify key (lib.sha256 to_be_signed) sign1.signature ≡ true

  pub detached_sound :
      (sign1 : CoseSign1) (payload : String) (key : EcKey) (u : Unit {0})
      → verify_cose_sign1_detached lib sign1 payload key ≡ ok u
      → IsSigned sign1 payload key
  unfolding verify_cose_sign1_detached
  detached_sound sign1 payload key u h = elim (Result-cases (lib.unmarshal_alg sign1.protected)) [
    | inr (x, p) ↦ absurd (ground arith)
    | inl (header, p) ↦ elim (Option-cases header) [
      | inl q ↦ absurd (ground arith)
      | inr (alg, q) ↦ elim (Result-cases (lib.marshal (sig_structure lib sign1 payload))) [
        | inr (x, m) ↦ absurd (ground arith)
        | inl (to_be_signed, m) ↦ record {
          alg = alg;
          to_be_signed = to_be_signed;
          header = p ∙ ap ok q;
          es256 = ground arith;
          encodes = m;
          long = ground arith;
          verifies = ground arith;
        }
      ]
    ]
  ]

  -- The MSO is the content of `issuerAuth`, signed by the key of the first certificate of a chain
  -- that holds.
  pub record IsIssued (now : ℕ) (trust_anchor : Option Cert) (issuer_signed mso : Assoc Value)
      : Type 0 where
    pub issuer_auth : Value
    pub sign1 : CoseSign1
    pub leaf : Cert
    pub rest : List Cert
    pub key : EcKey
    pub payload : String
    pub content : Value
    pub inner : String
    pub given : get "issuerAuth" issuer_signed ≡ some issuer_auth
    pub decodes : decode_cose_sign1 lib issuer_auth ≡ ok sign1
    pub chain : cose_cert_chain lib sign1 ≡ ok (leaf ∷ rest)
    pub leaf_key : lib.ec_key leaf ≡ ok key
    pub carries : lib.unmarshal_bytes sign1.payload ≡ ok payload
    pub signed : IsSigned sign1 payload key
    pub trusted : validate_cert_chain lib now trust_anchor (leaf ∷ rest) ≡ ok tt
    pub tagged : lib.unmarshal_tag payload ≡ ok (tag_encoded_cbor, content)
    pub holds : mso_bytes lib (tag_encoded_cbor, content) ≡ ok inner
    pub reads : lib.unmarshal_map inner ≡ ok mso

  attached_sound :
      (sign1 : CoseSign1) (payload : String) (key : EcKey)
      → verify_cose_sign1_attached lib sign1 key ≡ ok payload
      → (lib.unmarshal_bytes sign1.payload ≡ ok payload) × IsSigned sign1 payload key
  unfolding verify_cose_sign1_attached
  attached_sound sign1 payload key h = elim (Result-cases (lib.unmarshal_bytes sign1.payload)) [
    | inr (x, p) ↦ absurd (ground arith)
    | inl (bytes, p) ↦ elim (Result-cases (verify_cose_sign1_detached lib sign1 bytes key)) [
      | inr (x, v) ↦ absurd (ground arith)
      | inl (u, v) ↦
          let same : bytes ≡ payload = ground arith in
          (
            p ∙ ap ok same,
            subst (λ b. IsSigned sign1 b key) same (detached_sound sign1 bytes key u v),
          )
    ]
  ]

  -- What is checked once the leaf's key is known.
  abbrev rest_of_issuer :
      ℕ → Option Cert → CoseSign1 → List Cert → EcKey → Result String (Assoc Value)
  rest_of_issuer now trust_anchor sign1 chain key = do
    payload ← wrapped "issuerAuth signature is invalid: " (verify_cose_sign1_attached lib sign1 key)
    wrapped "issuer certificate chain invalid: " (validate_cert_chain lib now trust_anchor chain)
    tagged ← wrapped "MSO payload is not a tagged CBOR item: " (lib.unmarshal_tag payload)
    inner ← mso_bytes lib tagged
    wrapped "malformed MobileSecurityObject: " (lib.unmarshal_map inner)

  record IsRest (now : ℕ) (trust_anchor : Option Cert) (sign1 : CoseSign1) (chain : List Cert)
      (key : EcKey) (mso : Assoc Value) : Type 0 where
    payload : String
    content : Value
    inner : String
    carries : lib.unmarshal_bytes sign1.payload ≡ ok payload
    signed : IsSigned sign1 payload key
    trusted : validate_cert_chain lib now trust_anchor chain ≡ ok tt
    tagged : lib.unmarshal_tag payload ≡ ok (tag_encoded_cbor, content)
    holds : mso_bytes lib (tag_encoded_cbor, content) ≡ ok inner
    reads : lib.unmarshal_map inner ≡ ok mso

  IsRest-sound :
      (now : ℕ) (trust_anchor : Option Cert) (sign1 : CoseSign1) (chain : List Cert) (key : EcKey)
      (mso : Assoc Value)
      → rest_of_issuer now trust_anchor sign1 chain key ≡ ok mso
      → IsRest now trust_anchor sign1 chain key mso
  IsRest-sound now trust_anchor sign1 chain key mso h =
      elim (Result-cases (verify_cose_sign1_attached lib sign1 key)) [
        | inr (x, v) ↦ absurd (ground arith)
        | inl (payload, v) ↦ elim (Result-cases (validate_cert_chain lib now trust_anchor chain)) [
          | inr (x, t) ↦ absurd (ground arith)
          | inl (u, t) ↦ elim (Result-cases (lib.unmarshal_tag payload)) [
            | inr (x, g) ↦ absurd (ground arith)
            | inl ((number, content), g) ↦
                let is_24 : number ≡ tag_encoded_cbor = ground arith in
                elim (Result-cases (mso_bytes lib (number, content))) [
                  | inr (x, b) ↦ absurd (ground arith)
                  | inl (inner, b) ↦
                      let signed = attached_sound sign1 payload key v in
                      record {
                        payload = payload;
                        content = content;
                        inner = inner;
                        carries = signed.0;
                        signed = signed.1;
                        trusted = t;
                        tagged = g ∙ ap (λ n. ok (n, content)) is_24;
                        holds = subst (λ n. mso_bytes lib (n, content) ≡ ok inner) is_24 b;
                        reads = ground arith;
                      }
                ]
          ]
        ]
      ]

  pub issuer_sound :
      (now : ℕ) (issuer_signed : Assoc Value) (trust_anchor : Option Cert) (mso : Assoc Value)
      → verify_issuer_auth_and_extract_mso lib now issuer_signed trust_anchor ≡ ok mso
      → IsIssued now trust_anchor issuer_signed mso
  unfolding verify_issuer_auth_and_extract_mso
  issuer_sound now issuer_signed trust_anchor mso h =
      elim (Option-cases (get "issuerAuth" issuer_signed)) [
        | inl g ↦ absurd (ground arith)
        | inr (issuer_auth, g) ↦ elim (Result-cases (decode_cose_sign1 lib issuer_auth)) [
          | inr (x, d) ↦ absurd (ground arith)
          | inl (sign1, d) ↦ elim (Result-cases (cose_cert_chain lib sign1)) [
            | inr (x, c) ↦ absurd (ground arith)
            | inl (chain, c) ↦ elim (List-cases chain) [
              | inl e ↦ absurd (ground arith)
              | inr (leaf, rest, e) ↦ elim (Result-cases (lib.ec_key leaf)) [
                | inr (x, k) ↦ absurd (ground arith)
                | inl (key, k) ↦
                    let r = IsRest-sound now trust_anchor sign1 (leaf ∷ rest) key mso (
                      subst (λ l. rest_of_issuer now trust_anchor sign1 l key ≡ ok mso) e
                        (ground arith)) in
                    record {
                      issuer_auth = issuer_auth;
                      sign1 = sign1;
                      leaf = leaf;
                      rest = rest;
                      key = key;
                      payload = r.payload;
                      content = r.content;
                      inner = r.inner;
                      given = g;
                      decodes = d;
                      chain = c ∙ ap ok e;
                      leaf_key = k;
                      carries = r.carries;
                      signed = r.signed;
                      trusted = r.trusted;
                      tagged = r.tagged;
                      holds = r.holds;
                      reads = r.reads;
                    }
              ]
            ]
          ]
        ]
      ]
