-- ===== src/Mdoc/Verify.antt =====
-- internal/mdocverify/verify.go: the checks of a DeviceResponse.
use fikua_lab_idp.Prelude.{
  ℕ, ◌*◌, ◌+◌, ◌-◌, String, Bool, true, false, not, ◌&&◌, ◌||◌, Option, none, some, List, [], ◌∷◌,
  ltb, nat_eq, ◌/=◌, is_empty, ◌<>◌, minute,
}
use fikua_lab_idp.Texts.{trim_right}
use fikua_lab_idp.Assoc.{Assoc, get}
use fikua_lab_idp.Action.{Result, ok, err}
use fikua_lab_idp.Fallible.{◌>>=◌, ◌>>◌, or_fail, reject_if, wrapped}
use fikua_lab_idp.Mdoc.Cbor.{
  ℤ, pos, negsuc, Value, null, text, date, tag, to_int64, same_int, text_of, as_bytes, as_array,
  as_text_map, as_any_map, at_int,
}
use fikua_lab_idp.Mdoc.Cose.{
  Library, verify_cose_sign1_attached, verify_cose_sign1_detached, cose_cert_chain,
  decode_cose_sign1,
}
use fikua_lab_idp.Mdoc.Chain.{validate_cert_chain}
use fikua_lab_idp.Mdoc.Digests.{required, verify_digests_and_collect_claims}
use fikua_lab_idp.Mdoc.Transcript.{
  tag_encoded_cbor, open_id4vp_handover, device_authentication_bytes,
}

abbrev pub validity_skew : ℕ
validity_skew = 5 * minute

-- The status is missing, or the integer 0.
abbrev pub status_ok : Option Value → Bool
status_ok none = true
status_ok (some status) = elim (to_int64 status) [ none ↦ false | some n ↦ same_int n (pos 0) ]

abbrev first : List Value → Option Value
first [] = none
first (v ∷ rest) = some v

abbrev documents_of : Option (List Value) → Option Value
documents_of none = none
documents_of (some values) = first values

abbrev untagged : Value → Value
untagged (tag n content) = content
untagged v = v

module _ {Cert EcKey : Type 0} (lib : Library Cert EcKey) where
  abbrev status_text : Option Value → String
  status_text none = ""
  status_text (some status) = lib.print_value status

  unfoldable pub parse_single_document : String → Result String (Assoc Value)
  parse_single_document vp_token = do
    raw ←
        wrapped "vp_token is not valid base64url: "
          (lib.decode_base64_url (trim_right "=" vp_token))
    response ← wrapped "malformed DeviceResponse CBOR: " (lib.unmarshal_map raw)
    reject_if (text_of (get "version" response) /= "1.0")
        ("unsupported DeviceResponse version: " <> lib.quote (text_of (get "version" response)))
    reject_if (not (status_ok (get "status" response)))
        ("DeviceResponse status is not OK: " <> status_text (get "status" response))
    document ←
        or_fail (documents_of (as_array (get "documents" response)))
          "DeviceResponse has no documents"
    or_fail (as_text_map document) "DeviceResponse document is not a CBOR map"

  abbrev pub leaf_key : List Cert → Result String EcKey
  leaf_key [] = err "issuerAuth has no x5chain certificate"
  leaf_key (leaf ∷ rest) = elim (lib.ec_key leaf) [
    | ok key ↦ ok key
    | err kind ↦ err ("issuer certificate public key is " <> kind <> ", not EC")
  ]

  abbrev pub mso_bytes : ℕ × Value → Result String String
  mso_bytes (number, content) = do
    reject_if (not (nat_eq number tag_encoded_cbor))
        ("MSO payload is tag " <> lib.decimal number <> ", not 24 (MobileSecurityObjectBytes)")
    or_fail (as_bytes content) "MSO payload tag 24 content is not a byte string"

  unfoldable pub verify_issuer_auth_and_extract_mso :
      ℕ → Assoc Value → Option Cert → Result String (Assoc Value)
  verify_issuer_auth_and_extract_mso now issuer_signed trust_anchor = do
    raw_issuer_auth ← or_fail (get "issuerAuth" issuer_signed) "issuerSigned missing issuerAuth"
    sign1 ← wrapped "malformed issuerAuth: " (decode_cose_sign1 lib raw_issuer_auth)
    chain ← wrapped "issuerAuth x5chain unreadable: " (cose_cert_chain lib sign1)
    issuer_key ← leaf_key chain
    payload ←
        wrapped "issuerAuth signature is invalid: "
          (verify_cose_sign1_attached lib sign1 issuer_key)
    wrapped "issuer certificate chain invalid: " (validate_cert_chain lib now trust_anchor chain)
    tagged ← wrapped "MSO payload is not a tagged CBOR item: " (lib.unmarshal_tag payload)
    inner ← mso_bytes tagged
    wrapped "malformed MobileSecurityObject: " (lib.unmarshal_map inner)

  unfoldable pub verify_mso_meta : Assoc Value → Result String (Unit {0})
  verify_mso_meta mso = do
    reject_if (text_of (get "version" mso) /= "1.0")
        ("unsupported MSO version: " <> lib.quote (text_of (get "version" mso)))
    reject_if (text_of (get "digestAlgorithm" mso) /= "SHA-256")
        ("unsupported MSO digestAlgorithm: " <> lib.quote (text_of (get "digestAlgorithm" mso)))

  unfoldable pub verify_doc_type : String → Assoc Value → String → Result String (Unit {0})
  verify_doc_type doc_type mso expected_doc_type = do
    reject_if (is_empty doc_type || doc_type /= text_of (get "docType" mso)) (
        "Document docType "
        <> lib.quote doc_type
        <> " does not match MSO docType "
        <> lib.quote (text_of (get "docType" mso)))
    reject_if (expected_doc_type /= "" && expected_doc_type /= doc_type) (
        "docType "
        <> lib.quote doc_type
        <> " does not match requested "
        <> lib.quote expected_doc_type)

  -- A date; 0, the zero time, where there is none.
  unfoldable pub parse_tdate : Option Value → Result String ℕ
  parse_tdate none = ok 0
  parse_tdate (some null) = ok 0
  parse_tdate (some value) = elim (untagged value) [
    | text s ↦ wrapped "invalid validityInfo date: " (lib.parse_time s)
    | date t ↦ ok t
    | v ↦ err ("invalid validityInfo date type " <> lib.type_name v)
  ]

  unfoldable pub verify_validity : ℕ → Assoc Value → Result String (Unit {0})
  unfolding parse_tdate
  verify_validity now mso = do
    validity ← required lib mso "validityInfo" "MSO missing validityInfo"
    valid_from ← parse_tdate (get "validFrom" validity)
    valid_until ← parse_tdate (get "validUntil" validity)
    reject_if (not (nat_eq valid_from 0) && ltb (now + validity_skew) valid_from)
        ("credential is not yet valid (validFrom " <> lib.format_time valid_from <> ")")
    reject_if (not (nat_eq valid_until 0) && ltb valid_until (now - validity_skew))
        ("credential is expired (validUntil " <> lib.format_time valid_until <> ")")

  abbrev coordinate : List (Value × Value) → ℤ → Option String
  coordinate cose_key label = elim (at_int label cose_key) [ none ↦ none | some v ↦ as_bytes v ]

  unfoldable pub device_key_from_mso : Assoc Value → Result String EcKey
  device_key_from_mso mso = do
    device_key_info ← required lib mso "deviceKeyInfo" "MSO missing deviceKeyInfo"
    cose_key ←
        or_fail (as_any_map (get "deviceKey" device_key_info)) "deviceKeyInfo missing deviceKey"
    x ← or_fail (coordinate cose_key (negsuc 1)) "deviceKey is missing its x or y coordinate"
    y ← or_fail (coordinate cose_key (negsuc 2)) "deviceKey is missing its x or y coordinate"
    ok (lib.p256_point x y)

  abbrev no_signature : Option Value → String
  no_signature none = "deviceAuth missing deviceSignature"
  no_signature (some mac) = "deviceMac is not supported; deviceSignature required"

  unfoldable pub verify_device_signature :
      Assoc Value
      → Assoc Value
      → String
      → String
      → String
      → Option String
      → String
      → Result String (Unit {0})
  unfolding device_key_from_mso
  verify_device_signature device_signed mso doc_type client_id nonce thumbprint response_uri = do
    device_auth ← required lib device_signed "deviceAuth" "deviceSigned missing deviceAuth"
    raw_signature ←
        or_fail (get "deviceSignature" device_auth) (no_signature (get "deviceMac" device_auth))
    sign1 ← wrapped "malformed deviceSignature: " (decode_cose_sign1 lib raw_signature)
    device_key ← device_key_from_mso mso
    raw_name_spaces ← or_fail (get "nameSpaces" device_signed) "deviceSigned missing nameSpaces"
    device_name_spaces ←
        wrapped "re-encoding deviceSigned nameSpaces: " (lib.marshal raw_name_spaces)
    session_transcript ← open_id4vp_handover lib client_id nonce thumbprint response_uri
    device_auth_bytes ←
        device_authentication_bytes lib session_transcript doc_type device_name_spaces
    wrapped "deviceSignature does not verify against the reconstructed SessionTranscript: "
        (verify_cose_sign1_detached lib sign1 device_auth_bytes device_key)

  unfoldable pub verify :
      ℕ
      → String
      → String
      → String
      → String
      → Option String
      → String
      → Option Cert
      → Result String (Assoc Value)
  unfolding parse_single_document verify_issuer_auth_and_extract_mso verify_mso_meta verify_doc_type
      verify_digests_and_collect_claims verify_validity verify_device_signature
  verify now vp_token expected_doc_type client_id nonce thumbprint response_uri trust_anchor = do
    document ← parse_single_document vp_token
    issuer_signed ← required lib document "issuerSigned" "Document missing issuerSigned"
    device_signed ← required lib document "deviceSigned" "Document missing deviceSigned"
    mso ← verify_issuer_auth_and_extract_mso now issuer_signed trust_anchor
    verify_mso_meta mso
    verify_doc_type (text_of (get "docType" document)) mso expected_doc_type
    claims ← verify_digests_and_collect_claims lib issuer_signed mso
    verify_validity now mso
    verify_device_signature device_signed mso (text_of (get "docType" document)) client_id nonce
        thumbprint response_uri
    ok claims
