-- ===== src/Mdoc/Cose.antt =====
-- internal/mdocverify/cose.go: COSE_Sign1 structures.
use fikua_lab_idp.Prelude.{
  ℕ, String, Bool, false, not, Option, none, some, List, [], ◌∷◌, nat_eq, ◌<>◌,
}
use fikua_lab_idp.Action.{Result, ok, err}
use fikua_lab_idp.Fallible.{◌>>=◌, ◌>>◌, or_fail, reject_if, wrapped}
use fikua_lab_idp.Mdoc.Cbor.{ℤ, negsuc, same_int, Value, text, bytes, array, cons, nil, to_int64}

-- A COSE_Sign1; `x5chain` is the unprotected header with label 33. Bytes are texts.
pub record CoseSign1 : Type 0 where
  pub protected : String
  pub x5chain : Option String
  pub payload : String
  pub signature : String

-- The functions of the CBOR, X.509, ECDSA and hash libraries. A text on the left of a `Result` is the
-- error's. Times are nanoseconds from Go's zero time.
pub record Library (Cert EcKey : Type 0) : Type 0 where
  -- `cbor.Marshal`
  pub marshal : Value → Result String String
  -- `cbor.Unmarshal` into a `[]byte`, a `[][]byte`, a `coseSign1`, and a `map[int]any` (its entry 1)
  pub unmarshal_bytes : String → Result String String
  pub unmarshal_chain : String → Result String (List String)
  pub unmarshal_sign1 : String → Result String CoseSign1
  pub unmarshal_alg : String → Result String (Option Value)
  -- `cbor.Unmarshal` into a `map[string]any`, and into a `cbor.Tag`
  pub unmarshal_map : String → Result String (List (String × Value))
  pub unmarshal_tag : String → Result String (ℕ × Value)
  -- `base64.RawURLEncoding.DecodeString`
  pub decode_base64_url : String → Result String String
  pub sha256 : String → String
  -- the number of bytes
  pub byte_length : String → ℕ
  -- `ecdsa.Verify` of a digest, with the two halves of a signature of 64 bytes
  pub ecdsa_verify : EcKey → String → String → Bool
  -- the public key at these coordinates on P-256
  pub p256_point : String → String → EcKey
  -- `x509.ParseCertificate`
  pub parse_certificate : String → Result String Cert
  -- the certificate's key; on the left what `%T` prints of a key that is not EC
  pub ec_key : Cert → Result String EcKey
  pub not_before : Cert → ℕ
  pub not_after : Cert → ℕ
  pub is_ca : Cert → Bool
  pub subject : Cert → String
  pub issuer : Cert → String
  pub equal : Cert → Cert → Bool
  -- `subject.CheckSignatureFrom(issuer)`, the error if there is one
  pub check_signature : Cert → Cert → Option String
  -- `time.Parse(time.RFC3339, s)`, and `t.Format(time.RFC3339)`
  pub parse_time : String → Result String ℕ
  pub format_time : ℕ → String
  -- `%v`, `%T`, `%d` and `%q`
  pub print_value : Value → String
  pub type_name : Value → String
  pub decimal : ℕ → String
  pub int_text : ℤ → String
  pub quote : String → String

-- -7
abbrev pub cose_alg_es256 : ℤ
cose_alg_es256 = negsuc 6

abbrev pub is_es256 : Value → Bool
is_es256 alg = elim (to_int64 alg) [ none ↦ false | some n ↦ same_int n cose_alg_es256 ]

module _ {Cert EcKey : Type 0} (lib : Library Cert EcKey) where
  -- `["Signature1", protected, h'', payload]`
  abbrev pub sig_structure : CoseSign1 → String → Value
  sig_structure sign1 payload = array (
      cons (text "Signature1")
        (cons (bytes sign1.protected) (cons (bytes "") (cons (bytes payload) nil))))

  unfoldable pub verify_cose_sign1_detached : CoseSign1 → String → EcKey → Result String (Unit {0})
  verify_cose_sign1_detached sign1 payload key = do
    header ←
        wrapped "COSE_Sign1 protected header is not a CBOR map: "
          (lib.unmarshal_alg sign1.protected)
    alg ← or_fail header "COSE_Sign1 protected header has no alg"
    reject_if (not (is_es256 alg))
        ("COSE_Sign1 alg is " <> lib.print_value alg <> ", want ES256 (-7)")
    to_be_signed ← lib.marshal (sig_structure sign1 payload)
    reject_if (not (nat_eq (lib.byte_length sign1.signature) 64)) (
        "COSE_Sign1 signature is "
        <> lib.decimal (lib.byte_length sign1.signature)
        <> " bytes, want 64 (P-256 r||s)")
    reject_if (not (lib.ecdsa_verify key (lib.sha256 to_be_signed) sign1.signature))
        "COSE_Sign1 signature is invalid"

  unfoldable pub verify_cose_sign1_attached : CoseSign1 → EcKey → Result String String
  unfolding verify_cose_sign1_detached
  verify_cose_sign1_attached sign1 key = do
    payload ←
        wrapped "COSE_Sign1 payload is not a byte string: " (lib.unmarshal_bytes sign1.payload)
    verify_cose_sign1_detached sign1 payload key
    ok payload

  -- The loop over the certificates of the chain.
  unfoldable pub parse_chain : List String → Result String (List Cert)
  parse_chain [] = ok []
  parse_chain (der ∷ rest) =
      let others = parse_chain rest in
      (do
        cert ← wrapped "parsing x5chain certificate: " (lib.parse_certificate der)
        certs ← others
        ok (cert ∷ certs))

  abbrev chain_of : Result String String → String → Result String (List Cert)
  chain_of (ok single) header = parse_chain (single ∷ [])
  chain_of (err reason) header = do
    multiple ←
        wrapped "x5chain is neither a byte string nor an array of them: "
          (lib.unmarshal_chain header)
    parse_chain multiple

  unfoldable pub cose_cert_chain : CoseSign1 → Result String (List Cert)
  unfolding parse_chain
  cose_cert_chain sign1 = elim sign1.x5chain [
    | none ↦ ok []
    | some header ↦ chain_of (lib.unmarshal_bytes header) header
  ]

  unfoldable pub decode_cose_sign1 : Value → Result String CoseSign1
  decode_cose_sign1 value = do encoded ← lib.marshal value; lib.unmarshal_sign1 encoded
