-- ===== src/Mdoc/Tests.antt =====
-- A DeviceResponse as internal/mdocverify/verify.go accepts it.
use package.text.Mathlib.TextLemmas.{append_cancel_left}
use fikua_lab_idp.Prelude.{
  Among, ap, ◌∙◌, sym, subst, inl, inr, Bool-cases, List, ◌*◌, ◌≡◌, ◌↔◌, refl, String, true, false,
  ◌&&◌, Option, none, some, [], ◌∷◌, All, last_of, ◌==◌, ◌<>◌, if◌then◌else◌, arith, eq_iff, minute,
}
use fikua_lab_idp.Texts.{trim_right}
use fikua_lab_idp.Assoc.{Assoc, get, put}
use fikua_lab_idp.Action.{Result, ok, err}
use fikua_lab_idp.Mdoc.Cbor.{
  as_array, as_text_map, negsuc, Value, null, uint64, int64, bytes, text, raw, tag, array, text_map,
  any_map, cons, nil, field, end, pair, stop, to_int64, at_int, require_map, cbor_to_go,
}
use fikua_lab_idp.Mdoc.Cose.{Library}
use fikua_lab_idp.Mdoc.Chain.{validate_cert_chain, is_outside}
use fikua_lab_idp.Mdoc.ValidChain.{IsLinked, IsAnchored, chain_valid_iff}
use fikua_lab_idp.Mdoc.Transcript.{open_id4vp_handover, handover_info, handover_of}
use fikua_lab_idp.Mdoc.Binding.{handover_fixes_session}
use fikua_lab_idp.Mdoc.Verify.{verify}
use fikua_lab_idp.Mdoc.Refused.{NestsAnyMaps, every_presentation_refused}
use fikua_lab_idp.Mdoc.Accepted.{IsAccepted, verify_sound}

-- Encodings by name: the few values that a verification of the response below encodes.
abbrev marshal : Value → Result String String
marshal (text s) = ok s
marshal (text_map fs) = ok "name spaces"
marshal (tag n (bytes s)) = ok ("24" <> s)
marshal (array (cons (text a) (cons (bytes p) (cons (bytes e) (cons (bytes payload) nil))))) =
    ok ("signed " <> payload)
marshal (array (cons (text c) (cons (text n) (cons null (cons (text r) nil))))) =
    if c == "client" && n == "nonce" && r == "uri" then ok "info" else err "other"
marshal (array (cons null (cons null (cons (array (cons (text t) (cons (bytes h) nil))) nil)))) =
    if h == "#info" then ok "transcript" else err "other"
marshal (array (cons (text a) (cons (raw transcript) (cons (text d) (cons (raw n) nil))))) =
    ok ("auth " <> transcript)
marshal _ = err "other"

abbrev document : Value
document = text_map (
    field "docType" (text "pid") (
      field "issuerSigned"
        (text_map (
          field "issuerAuth" (text "issuerAuth") (
            field "nameSpaces"
              (text_map (field "ns" (array (cons (tag 24 (bytes "item")) nil)) end)) end)))
        (field "deviceSigned"
          (text_map (
            field "deviceAuth" (text_map (field "deviceSignature" (text "deviceSignature") end))
              (field "nameSpaces" (text_map end) end)))
          end)))

abbrev mso : Assoc Value
mso =
    ("version", text "1.0")
    ∷ ("digestAlgorithm", text "SHA-256")
    ∷ ("docType", text "pid")
    ∷ ("valueDigests", text_map (field "ns" (any_map (pair (uint64 0) (bytes "#24item") stop)) end))
    ∷ ("validityInfo", text_map end)
    ∷ (
      "deviceKeyInfo",
      text_map (
          field "deviceKey"
            (any_map
              (pair (int64 (negsuc 1)) (bytes "x") (pair (int64 (negsuc 2)) (bytes "y") stop)))
            end),
    )
    ∷ []

abbrev library : Library String String
library = record {
  marshal = marshal;
  unmarshal_bytes = λ s. ok s;
  unmarshal_chain = λ s. err "single";
  unmarshal_sign1 = λ s. ok (record {
    protected = "protected";
    x5chain = some "leaf";
    payload = "payload";
    signature = s;
  });
  unmarshal_alg = λ s. ok (some (int64 (negsuc 6)));
  unmarshal_map = λ s.
      if s == "response"
      then ok (("version", text "1.0") ∷ ("documents", array (cons document nil)) ∷ [])
      else if s == "mso"
      then ok mso
      else ok (
          ("digestID", uint64 0)
          ∷ ("elementIdentifier", text "given_name")
          ∷ ("elementValue", text "Ana")
          ∷ []);
  unmarshal_tag = λ s. ok (24, bytes "mso");
  decode_base64_url = λ s. ok s;
  sha256 = λ s. "#" <> s;
  byte_length = λ s. 64;
  ecdsa_verify = λ key digest signature.
      if key == "xy" then digest == "#signed 24auth transcript" else digest == "#signed payload";
  p256_point = λ x y. x <> y;
  parse_certificate = λ s. ok s;
  ec_key = λ cert. ok cert;
  not_before = λ cert. 0;
  not_after = λ cert. 10 * minute;
  is_ca = λ cert. true;
  subject = λ cert. cert;
  issuer = λ cert. "root";
  equal = λ a b. a == b;
  check_signature = λ a b. none;
  parse_time = λ s. ok 0;
  format_time = λ t. "";
  print_value = λ v. "";
  type_name = λ v. "";
  decimal = λ n. "";
  int_text = λ n. "";
  quote = λ s. s;
}

abbrev claims : Assoc Value
claims = ("given_name", text "Ana") ∷ []

-- With a decoder that gives a document as a `map[string]any`, the checks run to their end.
accepts : verify library minute "response" "pid" "client" "nonce" none "uri" none ≡ ok claims
unfolding verify trim_right get require_map fikua_lab_idp.Mdoc.Cose.decode_cose_sign1
    fikua_lab_idp.Mdoc.Cose.cose_cert_chain fikua_lab_idp.Mdoc.Cose.verify_cose_sign1_attached
    to_int64 validate_cert_chain at_int open_id4vp_handover
    fikua_lab_idp.Mdoc.Transcript.device_authentication_bytes put cbor_to_go
accepts = refl

refuses_other_type :
    verify library minute "response" "mdl" "client" "nonce" none "uri" none
    ≡ err "docType pid does not match requested mdl"
unfolding verify trim_right get require_map fikua_lab_idp.Mdoc.Cose.decode_cose_sign1
    fikua_lab_idp.Mdoc.Cose.cose_cert_chain fikua_lab_idp.Mdoc.Cose.verify_cose_sign1_attached
    to_int64 validate_cert_chain
refuses_other_type = refl

accepted : IsAccepted library minute "response" "pid" "client" "nonce" none "uri" none claims
accepted =
    verify_sound library minute "response" "pid" "client" "nonce" none "uri" none claims accepts

-- What the decoder of the code gives for a response: the document is a `map[any]any`.
abbrev decoded : Assoc Value
decoded =
    ("version", text "1.0")
    ∷ ("documents", array (cons (any_map (pair (text "docType") (text "pid") stop)) nil))
    ∷ []

abbrev any_maps : Library String String
any_maps = record library { unmarshal_map = λ s. ok decoded }

only_document :
    (v : Value)
    → Among v (any_map (pair (text "docType") (text "pid") stop) ∷ [])
    → as_text_map v ≡ none
only_document v (inl e) = ground (arith, ap as_text_map (sym e))
only_document v (inr none_left) = absurd none_left

decoded_nests :
    (key : String) (values : List Value) (v : Value)
    → as_array (get key decoded) ≡ some values
    → Among v values
    → as_text_map v ≡ none
unfolding get
decoded_nests key values v a held = elim (Bool-cases ("version" == key)) [
  | inl version ↦ absurd (ground arith)
  | inr other ↦ elim (Bool-cases ("documents" == key)) [
    | inr unknown ↦ absurd (ground arith)
    | inl documents ↦
        let the : any_map (pair (text "docType") (text "pid") stop) ∷ [] ≡ values = ground arith in
        only_document v (subst (Among v) (sym the) held)
  ]
]

any_maps_nest : NestsAnyMaps any_maps
any_maps_nest encoded m key values v u a held =
    let same : decoded ≡ m = ground arith in
    decoded_nests key values v (ap (λ m. as_array (get key m)) same ∙ a) held

every_presentation_refused_example :
    (reason : String) × (verify any_maps minute "response" "pid" "client" "nonce" none "uri" none
      ≡ err reason)
every_presentation_refused_example =
    every_presentation_refused any_maps any_maps_nest minute "response" "pid" "client" "nonce" none
      "uri" none

-- Only handovers of the one session are encoded.
info_apart :
    (c d m n : String) (t u : Option String) (q r s : String)
    → marshal (handover_info library c m t q) ≡ ok s
    → marshal (handover_info library d n u r) ≡ ok s
    → handover_info library c m t q ≡ handover_info library d n u r
info_apart c d m n none none q r s h k = ground (
  arith,
  eq_iff c "client",
  eq_iff d "client",
  eq_iff m "nonce",
  eq_iff n "nonce",
  eq_iff q "uri",
  eq_iff r "uri",
)
info_apart c d m n none (some u) q r s h k = absurd (ground arith)
info_apart c d m n (some t) u q r s h k = absurd (ground arith)

handover_apart :
    (h k s : String)
    → marshal (handover_of library h) ≡ ok s
    → marshal (handover_of library k) ≡ ok s
    → h ≡ k
handover_apart h k s p q = ground (arith, eq_iff h "#info", eq_iff k "#info")

hands_over : open_id4vp_handover library "client" "nonce" none "uri" ≡ ok "transcript"
unfolding open_id4vp_handover
hands_over = refl

handover_fixes_session_example :
    (◌≡◌ {A = String} "client" "client")
    × (◌≡◌ {A = String} "nonce" "nonce")
    × (◌≡◌ {A = Option String} none none)
    × (◌≡◌ {A = String} "uri" "uri")
handover_fixes_session_example =
    handover_fixes_session library info_apart handover_apart (λ s t e. append_cancel_left "#" s t e)
      "client" "client" "nonce" "nonce" none none "uri" "uri" "transcript" hands_over hands_over

chain_valid_iff_example :
    (validate_cert_chain library minute (some "root") ("leaf" ∷ "root" ∷ []) ≡ ok tt) ↔ (
      All (λ c. is_outside library minute c ≡ false) ("leaf" ∷ "root" ∷ [])
      × IsLinked library "leaf" ("root" ∷ [])
      × IsAnchored library (some "root") (last_of "leaf" ("root" ∷ [])))
chain_valid_iff_example = chain_valid_iff library minute (some "root") "leaf" ("root" ∷ [])
