-- ===== src/Mdoc/Device.antt =====
-- The device signatures that internal/mdocverify/verify.go accepts.
use fikua_lab_idp.Prelude.{◌≡◌, inl, inr, String, Option, some, arith, Option-cases}
use fikua_lab_idp.Assoc.{Assoc, get}
use fikua_lab_idp.Action.{ok, Result-cases}
use fikua_lab_idp.Mdoc.Cbor.{Value}
use fikua_lab_idp.Mdoc.Cose.{Library, CoseSign1, decode_cose_sign1}
use fikua_lab_idp.Mdoc.Transcript.{open_id4vp_handover, device_authentication_bytes}
use fikua_lab_idp.Mdoc.Digests.{required}
use fikua_lab_idp.Mdoc.Verify.{device_key_from_mso, verify_device_signature}
use fikua_lab_idp.Mdoc.Sound.{IsSigned, detached_sound}

module _ {Cert EcKey : Type 0} (lib : Library Cert EcKey) where
  -- The key that the MSO holds signed this session's transcript, the document type and the device's
  -- name spaces.
  pub record IsDeviceSigned (device_signed mso : Assoc Value) (doc_type client_id nonce : String)
      (thumbprint : Option String) (response_uri : String) : Type 0 where
    pub device_auth : Assoc Value
    pub signature : Value
    pub name_spaces : Value
    pub sign1 : CoseSign1
    pub key : EcKey
    pub encoded : String
    pub transcript : String
    pub payload : String
    pub auth :
        required lib device_signed "deviceAuth" "deviceSigned missing deviceAuth" ≡ ok device_auth
    pub given : get "deviceSignature" device_auth ≡ some signature
    pub decodes : decode_cose_sign1 lib signature ≡ ok sign1
    pub device_key : device_key_from_mso lib mso ≡ ok key
    pub has_name_spaces : get "nameSpaces" device_signed ≡ some name_spaces
    pub encodes : lib.marshal name_spaces ≡ ok encoded
    pub session : open_id4vp_handover lib client_id nonce thumbprint response_uri ≡ ok transcript
    pub authenticates : device_authentication_bytes lib transcript doc_type encoded ≡ ok payload
    pub signed : IsSigned lib sign1 payload key

  pub device_sound :
      (device_signed mso : Assoc Value) (doc_type client_id nonce : String)
      (thumbprint : Option String) (response_uri : String) (u : Unit {0})
      → verify_device_signature lib device_signed mso doc_type client_id nonce thumbprint
          response_uri
        ≡ ok u
      → IsDeviceSigned device_signed mso doc_type client_id nonce thumbprint response_uri
  unfolding verify_device_signature
  device_sound device_signed mso doc_type client_id nonce thumbprint response_uri u h =
      elim (Result-cases
        (required lib device_signed "deviceAuth" "deviceSigned missing deviceAuth")) [
          | inr (x, a) ↦ absurd (ground arith)
          | inl (device_auth, a) ↦ elim (Option-cases (get "deviceSignature" device_auth)) [
            | inl g ↦ absurd (ground arith)
            | inr (signature, g) ↦ elim (Result-cases (decode_cose_sign1 lib signature)) [
              | inr (x, d) ↦ absurd (ground arith)
              | inl (sign1, d) ↦ elim (Result-cases (device_key_from_mso lib mso)) [
                | inr (x, k) ↦ absurd (ground arith)
                | inl (key, k) ↦ elim (Option-cases (get "nameSpaces" device_signed)) [
                  | inl n ↦ absurd (ground arith)
                  | inr (name_spaces, n) ↦ elim (Result-cases (lib.marshal name_spaces)) [
                    | inr (x, m) ↦ absurd (ground arith)
                    | inl (encoded, m) ↦
                        elim (Result-cases
                          (open_id4vp_handover lib client_id nonce thumbprint response_uri)) [
                            | inr (x, t) ↦ absurd (ground arith)
                            | inl (transcript, t) ↦
                                elim (Result-cases
                                  (device_authentication_bytes lib transcript doc_type encoded)) [
                                    | inr (x, b) ↦ absurd (ground arith)
                                    | inl (payload, b) ↦ record {
                                      device_auth = device_auth;
                                      signature = signature;
                                      name_spaces = name_spaces;
                                      sign1 = sign1;
                                      key = key;
                                      encoded = encoded;
                                      transcript = transcript;
                                      payload = payload;
                                      auth = a;
                                      given = g;
                                      decodes = d;
                                      device_key = k;
                                      has_name_spaces = n;
                                      encodes = m;
                                      session = t;
                                      authenticates = b;
                                      signed =
                                          detached_sound lib sign1 payload key u (ground arith);
                                    }
                                  ]
                          ]
                  ]
                ]
              ]
            ]
          ]
        ]
