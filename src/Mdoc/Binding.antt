-- ===== src/Mdoc/Binding.antt =====
-- What the transcript of internal/mdocverify/sessiontranscript.go fixes.
use fikua_lab_idp.Prelude.{◌≡◌, refl, sym, ap, ◌∙◌, inl, inr, String, Option, none, some, arith}
use fikua_lab_idp.Action.{ok, Result-cases}
use fikua_lab_idp.Mdoc.Cose.{Library}
use fikua_lab_idp.Mdoc.Transcript.{
  open_id4vp_handover, handover_info, handover_of, thumbprint_value,
}

module _ {Cert EcKey : Type 0} (lib : Library Cert EcKey)
    (info_apart : (c d m n : String) (t u : Option String) (q r s : String)
      → lib.marshal (handover_info lib c m t q) ≡ ok s
      → lib.marshal (handover_info lib d n u r) ≡ ok s
      → handover_info lib c m t q ≡ handover_info lib d n u r)
    (handover_apart : (h k s : String)
      → lib.marshal (handover_of lib h) ≡ ok s
      → lib.marshal (handover_of lib k) ≡ ok s
      → h ≡ k)
    (collision_free : (s t : String) → lib.sha256 s ≡ lib.sha256 t → s ≡ t) where
  same_thumbprint : (t u : Option String) → thumbprint_value lib t ≡ thumbprint_value lib u → t ≡ u
  same_thumbprint none none h = refl
  same_thumbprint none (some u) h = absurd (ground arith)
  same_thumbprint (some t) none h = absurd (ground arith)
  same_thumbprint (some t) (some u) h = ground arith

  -- Where CBOR encodes no two handovers alike and no two texts have the same SHA-256, sessions with the
  -- same transcript have the same client id, nonce, response URI and key thumbprint, where "no
  -- encryption" is a thumbprint of its own: a device signature over the transcript of one session
  -- is over that of no other.
  pub handover_fixes_session :
      (client_id client_id' nonce nonce' : String) (thumbprint thumbprint' : Option String)
      (response_uri response_uri' transcript : String)
      → open_id4vp_handover lib client_id nonce thumbprint response_uri ≡ ok transcript
      → open_id4vp_handover lib client_id' nonce' thumbprint' response_uri' ≡ ok transcript
      → (client_id ≡ client_id')
        × (nonce ≡ nonce')
        × (thumbprint ≡ thumbprint')
        × (response_uri ≡ response_uri')
  unfolding open_id4vp_handover
  handover_fixes_session client_id client_id' nonce nonce' thumbprint thumbprint' response_uri
        response_uri' transcript h h' =
      elim (Result-cases
        (lib.marshal (handover_info lib client_id nonce thumbprint response_uri))) [
          | inr (x, i) ↦ absurd (ground arith)
          | inl (info, i) ↦
              elim (Result-cases
                (lib.marshal (handover_info lib client_id' nonce' thumbprint' response_uri'))) [
                  | inr (x, j) ↦ absurd (ground arith)
                  | inl (info', j) ↦
                      let outer =
                        handover_apart (lib.sha256 info) (lib.sha256 info') transcript
                          (ground arith) (ground arith) in
                      let same_info = collision_free info info' outer in
                      let inner =
                        info_apart client_id client_id' nonce nonce' thumbprint thumbprint'
                          response_uri response_uri' info i (j ∙ ap ok (sym same_info)) in
                      (
                        ground (arith, inner),
                        ground (arith, inner),
                        same_thumbprint thumbprint thumbprint' (ground (arith, inner)),
                        ground (arith, inner),
                      )
                ]
        ]
