-- ===== src/Mdoc/Refused.antt =====
-- What internal/mdocverify/verify.go makes of the maps that `cbor.Unmarshal` gives it.
use fikua_lab_idp.Prelude.{
  Among, ℕ, ◌≡◌, ◌≢◌, refl, inl, inr, String, Option, none, some, List, arith, Option-cases,
  List-cases,
}
use fikua_lab_idp.Texts.{trim_right}
use fikua_lab_idp.Assoc.{Assoc, get}
use fikua_lab_idp.Action.{ok, err, Result-cases}
use fikua_lab_idp.Mdoc.Cbor.{Value, as_array, as_text_map}
use fikua_lab_idp.Mdoc.Cose.{Library}
use fikua_lab_idp.Mdoc.Verify.{parse_single_document, verify}

-- `cbor.Unmarshal` into a `map[string]any` makes every map inside it a `map[any]any`, so that no
-- element of an array in it is a `map[string]any`.
abbrev pub NestsAnyMaps : {Cert EcKey : Type 0} → Library Cert EcKey → Type 0
NestsAnyMaps lib =
    (encoded : String) (m : Assoc Value) (key : String) (values : List Value) (v : Value)
    → lib.unmarshal_map encoded ≡ ok m
    → as_array (get key m) ≡ some values
    → Among v values
    → as_text_map v ≡ none

module _ {Cert EcKey : Type 0} (lib : Library Cert EcKey) (nests : NestsAnyMaps lib) where
  nothing_parses :
      (vp_token : String) (document : Assoc Value)
      → parse_single_document lib vp_token ≢ ok document
  unfolding parse_single_document
  nothing_parses vp_token document h =
      elim (Result-cases (lib.decode_base64_url (trim_right "=" vp_token))) [
        | inr (x, d) ↦ ground arith
        | inl (encoded, d) ↦ elim (Result-cases (lib.unmarshal_map encoded)) [
          | inr (x, u) ↦ ground arith
          | inl (m, u) ↦ elim (Option-cases (as_array (get "documents" m))) [
            | inl a ↦ ground arith
            | inr (values, a) ↦ elim (List-cases values) [
              | inl e ↦ ground arith
              | inr (v, rest, e) ↦
                  ground (arith, nests encoded m "documents" values v u a (rw e (inl refl)))
            ]
          ]
        ]
      ]

  -- Where CBOR decoding makes every map inside a `map[string]any` a `map[any]any`, as the code's own
  -- comment on `requireMap` says of the library that it calls, verification refuses every
  -- presentation, whatever is asked for: a document is never the `map[string]any` that the code
  -- takes the first of the `documents` for.
  pub every_presentation_refused :
      (now : ℕ) (vp_token expected_doc_type client_id nonce : String) (thumbprint : Option String)
      (response_uri : String) (trust_anchor : Option Cert)
      → (reason : String) × (verify lib now vp_token expected_doc_type client_id nonce thumbprint
            response_uri trust_anchor
          ≡ err reason)
  unfolding verify
  every_presentation_refused now vp_token expected_doc_type client_id nonce thumbprint response_uri
        trust_anchor =
      elim (Result-cases (parse_single_document lib vp_token)) [
        | inl (document, h) ↦ absurd (nothing_parses vp_token document h)
        | inr (reason, h) ↦ (reason, ground (arith, h))
      ]
