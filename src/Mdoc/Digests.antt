-- ===== src/Mdoc/Digests.antt =====
-- internal/mdocverify/verify.go: the digests of the disclosed elements.
use fikua_lab_idp.Prelude.{
  String, Option, none, some, List, [], ◌∷◌, nat_eq, ◌/=◌, ◌<>◌, if◌then◌else◌,
}
use fikua_lab_idp.Assoc.{Assoc, get, put}
use fikua_lab_idp.Action.{Result, ok}
use fikua_lab_idp.Fallible.{◌>>=◌, ◌>>◌, or_fail, reject_if, wrapped}
use fikua_lab_idp.Mdoc.Cbor.{
  ℤ, Value, null, bytes, tag, to_int64, text_of, as_bytes, as_array, as_any_map, at_int,
  require_map, cbor_to_go,
}
use fikua_lab_idp.Mdoc.Cose.{Library}
use fikua_lab_idp.Mdoc.Transcript.{tag_encoded_cbor}

-- The content of a tag 24.
abbrev tagged_content : Value → Option Value
tagged_content (tag n content) = if nat_eq n tag_encoded_cbor then some content else none
tagged_content _ = none

module _ {Cert EcKey : Type 0} (lib : Library Cert EcKey) where
  abbrev pub required : Assoc Value → String → String → Result String (Assoc Value)
  required parent key message = require_map lib.print_value lib.type_name parent key message

  -- The digest under an id; the text on the left is not shown.
  unfoldable pub lookup_digest : List (Value × Value) → ℤ → Option String
  lookup_digest ns_digests digest_id = elim (at_int digest_id ns_digests) [
    | none ↦ none
    | some v ↦ as_bytes v
  ]

  abbrev pub item_bytes : String → Value → Result String String
  item_bytes ns raw_item = do
    content ←
        or_fail (tagged_content raw_item)
          ("IssuerSignedItem in namespace " <> ns <> " is not tag 24")
    or_fail (as_bytes content) "IssuerSignedItem tag 24 content is not a byte string"

  abbrev pub digest_id_of : Assoc Value → Option ℤ
  digest_id_of item = elim (get "digestID" item) [ none ↦ none | some v ↦ to_int64 v ]

  abbrev pub element_value : Assoc Value → Value
  element_value item = elim (get "elementValue" item) [
    | none ↦ null
    | some v ↦ cbor_to_go lib.print_value v
  ]

  -- One item: its element's name and value.
  unfoldable pub verify_item :
      String → List (Value × Value) → Value → Result String (String × Value)
  unfolding lookup_digest
  verify_item ns ns_digests raw_item = do
    inner ← item_bytes ns raw_item
    tagged_bytes ← lib.marshal (tag tag_encoded_cbor (bytes inner))
    item ←
        wrapped ("malformed IssuerSignedItem in namespace " <> ns <> ": ") (lib.unmarshal_map inner)
    digest_id ←
        or_fail (digest_id_of item) ("IssuerSignedItem in namespace " <> ns <> " has no digestID")
    expected ←
        or_fail (lookup_digest ns_digests digest_id)
          ("no MSO digest for digestID " <> lib.int_text digest_id <> " in namespace " <> ns)
    reject_if (expected /= lib.sha256 tagged_bytes) (
        "digest mismatch for "
        <> lib.quote (text_of (get "elementIdentifier" item))
        <> " (tampered IssuerSignedItem)")
    ok (text_of (get "elementIdentifier" item), element_value item)

  -- The loop over the items of a namespace.
  unfoldable pub verify_items :
      String → List (Value × Value) → List Value → Assoc Value → Result String (Assoc Value)
  unfolding verify_item
  verify_items ns ns_digests [] claims = ok claims
  verify_items ns ns_digests (raw_item ∷ rest) claims = do
    (element_id, value) ← verify_item ns ns_digests raw_item
    verify_items ns ns_digests rest (put element_id value claims)

  -- The loop over the namespaces, in the order in which `range` visits them.
  unfoldable pub verify_name_spaces :
      Assoc Value → Assoc Value → Assoc Value → Result String (Assoc Value)
  unfolding verify_items
  verify_name_spaces value_digests [] claims = ok claims
  verify_name_spaces value_digests ((ns, raw_items) ∷ rest) claims = do
    items ← or_fail (as_array (some raw_items)) ("nameSpaces[" <> ns <> "] is not an array")
    ns_digests ←
        or_fail (as_any_map (get ns value_digests)) ("MSO has no valueDigests for namespace " <> ns)
    collected ← verify_items ns ns_digests items claims
    verify_name_spaces value_digests rest collected

  unfoldable pub verify_digests_and_collect_claims :
      Assoc Value → Assoc Value → Result String (Assoc Value)
  unfolding verify_name_spaces
  verify_digests_and_collect_claims issuer_signed mso = do
    name_spaces ← required issuer_signed "nameSpaces" "issuerSigned missing nameSpaces"
    value_digests ← required mso "valueDigests" "MSO missing valueDigests"
    verify_name_spaces value_digests name_spaces []
