-- ===== src/OAuth2/Attestation/Laws.antt =====
-- What internal/oauth2/clientattestation.go accepts.
use fikua_lab_idp.Prelude.{
  ℕ, ◌+◌, ◌≤◌, ◌≡◌, Option, ◌≢◌, ◌⊎◌, inl, inr, String, true, false, none, some, List, [], ◌∷◌,
  elem, arith, eq_iff, is_empty, Bool-cases,
}
use fikua_lab_idp.Action.{ok, err, Result-cases}
use fikua_lab_idp.OAuth2.Attestation.BoundKey.{IsBoundKey}
use fikua_lab_idp.OAuth2.Error.{Exception}
use fikua_lab_idp.OAuth2.Jose.{Jose, Message, Claims}
use fikua_lab_idp.OAuth2.Attestation.{
  Validator, refuse, attested_client, leaf_key, resolve_wia_key, validate_wia, check_pop,
  validate_wia_and_pop, validate_headers, validate_form, resolve, client_attestation_iat_window,
}

module _ {Key Cert : Type 0} (jose : Jose Key Cert) (v : Validator Cert) (now : ℕ) where
  -- The key that a WIA is verified with: that of its header, or that of its leaf certificate,
  -- which the pinned anchor, if any, has signed.
  pub data IsTrustedKey (wia : Message Key) (key : Key) : Type 0 where
    header_jwk : wia.x5c ≡ [] → wia.jwk ≡ some key → IsTrustedKey wia key
    leaf_certificate :
        (leaf_b64 : String) (rest : List String) (leaf : Cert)
        → wia.x5c ≡ leaf_b64 ∷ rest
        → jose.parse_certificate leaf_b64 ≡ some leaf
        → jose.ec_key leaf ≡ some key
        → (v.wallet_provider_anchor ≡ none)
          ⊎ ((anchor : Cert) × (v.wallet_provider_anchor ≡ some anchor)
              × (jose.signed_by leaf anchor ≡ true))
        → IsTrustedKey wia key

  -- A time that is missing, or not over yet.
  abbrev IsAhead : Option ℕ → Type 0
  IsAhead none = Unit {0}
  IsAhead (some exp) = now ≤ exp

  -- A time that is missing, or at most five minutes away, before or after.
  abbrev IsNear : Option ℕ → Type 0
  IsNear none = Unit {0}
  IsNear (some iat) =
      (now ≤ iat + client_attestation_iat_window) × (iat ≤ now + client_attestation_iat_window)

  -- The proof of possession is meant for this server, recent and not expired.
  pub record IsLivePop (pop : Claims) : Type 0 where
    pub meant_for : (v.expected_audience ≡ "") ⊎ (elem v.expected_audience pop.audience ≡ true)
    pub recent : IsNear pop.issued_at
    pub unexpired : IsAhead pop.expiration

  -- A WIA with exactly one signature, by a trusted key, that has not expired.
  pub record IsValidWia (wia_jwt : String) (wia_token : Claims) : Type 0 where
    pub wia : Message Key
    pub wia_key : Key
    pub parses : jose.parse wia_jwt ≡ ok wia
    pub one_signature : wia.signatures ≡ 1
    pub key_trusted : IsTrustedKey wia wia_key
    pub verifies : jose.verify wia_jwt wia_key ≡ some wia_token
    pub unexpired : IsAhead wia_token.expiration

  -- A client id is attested by a WIA and a proof of possession of the key that the WIA names.
  pub record IsAttested (wia_jwt pop_jwt client_id : String) : Type 0 where
    pub wia_token : Claims
    pub cnf_key : Key
    pub pop_token : Claims
    pub wia_valid : IsValidWia wia_jwt wia_token
    pub possession : IsBoundKey jose wia_token pop_jwt cnf_key
    pub pop_verifies : jose.verify pop_jwt cnf_key ≡ some pop_token
    pub pop_live : IsLivePop pop_token
    pub names : client_id ≡ attested_client wia_token

  -- A WIA whose leaf certificate the pinned anchor has not signed is refused, whatever else it and
  -- its proof of possession hold.
  pub foreign_leaf_refused :
      (wia_jwt pop_jwt leaf_b64 : String) (rest : List String) (wia : Message Key)
      (leaf anchor : Cert)
      → jose.parse wia_jwt ≡ ok wia
      → wia.signatures ≡ 1
      → wia.x5c ≡ leaf_b64 ∷ rest
      → jose.parse_certificate leaf_b64 ≡ some leaf
      → v.wallet_provider_anchor ≡ some anchor
      → jose.signed_by leaf anchor ≡ false
      → validate_wia_and_pop jose v now wia_jwt pop_jwt
        ≡ err (refuse "WIA is not issued by a trusted Wallet Provider")
  unfolding validate_wia_and_pop validate_wia resolve_wia_key leaf_key
  foreign_leaf_refused wia_jwt pop_jwt leaf_b64 rest wia leaf anchor p one x c a foreign =
      ground arith

  -- The headers decide first: an error of theirs, or a client id, is final, and the form's assertion
  -- is looked at only where the headers give neither.
  pub resolve_precedence :
      (wia_header pop_header assertion_type assertion : String)
      → ((e : Exception) × (validate_headers jose v now wia_header pop_header ≡ err e)
          × (resolve jose v now wia_header pop_header assertion_type assertion ≡ err e))
        ⊎ ((client_id : String) × (client_id ≢ "")
            × (validate_headers jose v now wia_header pop_header ≡ ok client_id)
            × (resolve jose v now wia_header pop_header assertion_type assertion ≡ ok client_id))
        ⊎ ((validate_headers jose v now wia_header pop_header ≡ ok "")
            × (resolve jose v now wia_header pop_header assertion_type assertion
                ≡ validate_form jose v now assertion_type assertion))
  unfolding resolve
  resolve_precedence wia_header pop_header assertion_type assertion =
      elim (Result-cases (validate_headers jose v now wia_header pop_header)) [
        | inr (e, h) ↦ inl (e, h, ground arith)
        | inl (client_id, h) ↦ elim (Bool-cases (is_empty client_id)) [
          | inl blank ↦ inr (inr (ground (arith, eq_iff client_id ""), ground arith))
          | inr named ↦ inr (inl (client_id, ground (arith, eq_iff client_id ""), h, ground arith))
        ]
      ]

-- The pinned anchor makes no difference to a WIA that comes without a certificate chain: with any
-- anchor it is accepted or refused exactly as with none.
pub anchor_unused_without_x5c :
    {Key Cert : Type 0} (jose : Jose Key Cert) (v : Validator Cert) (anchor : Cert) (now : ℕ)
    (wia_jwt pop_jwt : String) (wia : Message Key)
    → jose.parse wia_jwt ≡ ok wia
    → wia.x5c ≡ []
    → validate_wia_and_pop jose
        (record v { wallet_provider_anchor = some anchor })
        now
        wia_jwt
        pop_jwt
      ≡ validate_wia_and_pop jose (record v { wallet_provider_anchor = none }) now wia_jwt pop_jwt
unfolding validate_wia_and_pop validate_wia resolve_wia_key check_pop
anchor_unused_without_x5c jose v anchor now wia_jwt pop_jwt wia p x = rw (p, x)
