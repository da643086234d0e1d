-- ===== src/Mdoc/Transcript.antt =====
-- internal/mdocverify/sessiontranscript.go: what a device signs.
use fikua_lab_idp.Prelude.{ℕ, String, Option, none, some}
use fikua_lab_idp.Action.{Result}
use fikua_lab_idp.Fallible.{◌>>=◌}
use fikua_lab_idp.Mdoc.Cbor.{Value, null, text, bytes, raw, tag, array, cons, nil}
use fikua_lab_idp.Mdoc.Cose.{Library}

abbrev pub tag_encoded_cbor : ℕ
tag_encoded_cbor = 24

module _ {Cert EcKey : Type 0} (lib : Library Cert EcKey) where
  -- A nil thumbprint is a CBOR null.
  abbrev pub thumbprint_value : Option String → Value
  thumbprint_value none = null
  thumbprint_value (some thumbprint) = bytes thumbprint

  abbrev pub handover_info : String → String → Option String → String → Value
  handover_info client_id nonce thumbprint response_uri = array (
      cons (text client_id)
        (cons (text nonce) (cons (thumbprint_value thumbprint) (cons (text response_uri) nil))))

  abbrev pub handover_of : String → Value
  handover_of hash = array (
      cons null
        (cons null (cons (array (cons (text "OpenID4VPHandover") (cons (bytes hash) nil))) nil)))

  unfoldable pub open_id4vp_handover :
      String → String → Option String → String → Result String String
  open_id4vp_handover client_id nonce thumbprint response_uri = do
    info ← lib.marshal (handover_info client_id nonce thumbprint response_uri)
    lib.marshal (handover_of (lib.sha256 info))

  abbrev pub device_authentication : String → String → String → Value
  device_authentication session_transcript doc_type device_name_spaces = array (
      cons (text "DeviceAuthentication")
        (cons (raw session_transcript) (cons (text doc_type) (cons (raw device_name_spaces) nil))))

  unfoldable pub device_authentication_bytes : String → String → String → Result String String
  device_authentication_bytes session_transcript doc_type device_name_spaces = do
    device_auth ← lib.marshal (device_authentication session_transcript doc_type device_name_spaces)
    lib.marshal (tag tag_encoded_cbor (bytes device_auth))
