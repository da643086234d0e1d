-- ===== src/OAuth2/Attestation/BoundKey.antt =====
-- The key that a wallet attestation of internal/oauth2/clientattestation.go binds.
use fikua_lab_idp.Prelude.{
  ◌≡◌, refl, sym, ap, ◌∙◌, ◌≢◌, inl, inr, String, some, arith, eq_iff, Option-cases,
}
use fikua_lab_idp.Assoc.{Assoc, get}
use fikua_lab_idp.Json.{Json, null, boolean, number, text, array, object, as_text}
use fikua_lab_idp.Action.{ok, Result-cases}
use fikua_lab_idp.OAuth2.Jose.{Jose, Message, Claims}
use fikua_lab_idp.OAuth2.Attestation.{resolve_cnf_key, declared_jkt, key_by_thumbprint}

module _ {Key Cert : Type 0} (jose : Jose Key Cert) where
  -- The key that a WIA's `cnf` binds: the key that it holds, or, where it holds none, the key in the
  -- header of the proof of possession, whose thumbprint is the one that `cnf` declares.
  pub data IsBoundKey (wia_token : Claims) (pop_jwt : String) (key : Key) : Type 0 where
    cnf_jwk :
        (cnf : Assoc Json) (raw : Json)
        → wia_token.cnf ≡ some cnf
        → get "jwk" cnf ≡ some raw
        → jose.parse_key raw ≡ some key
        → IsBoundKey wia_token pop_jwt key
    cnf_jkt :
        (cnf : Assoc Json) (jkt : String) (pop : Message Key)
        → wia_token.cnf ≡ some cnf
        → get "jkt" cnf ≡ some (text jkt)
        → jkt ≢ ""
        → jose.parse pop_jwt ≡ ok pop
        → pop.signatures ≡ 1
        → pop.jwk ≡ some key
        → jose.thumbprint key ≡ ok jkt
        → IsBoundKey wia_token pop_jwt key

  as_text_sound : (raw : Json) (t : String) → as_text raw ≡ some t → raw ≡ text t
  unfolding as_text
  as_text_sound (text s) t h = ground arith
  as_text_sound null t h = absurd (ground arith)
  as_text_sound (boolean b) t h = absurd (ground arith)
  as_text_sound (number n) t h = absurd (ground arith)
  as_text_sound (array xs) t h = absurd (ground arith)
  as_text_sound (object fs) t h = absurd (ground arith)

  jkt_sound :
      (cnf : Assoc Json) (jkt : String)
      → declared_jkt jose cnf ≡ jkt
      → jkt ≢ ""
      → get "jkt" cnf ≡ some (text jkt)
  unfolding declared_jkt
  jkt_sound cnf jkt h named = elim (Option-cases (get "jkt" cnf)) [
    | inl e ↦ absurd (ground arith)
    | inr (raw, e) ↦ elim (Option-cases (as_text raw)) [
      | inl t ↦ absurd (ground arith)
      | inr (t, a) ↦ e ∙ ap some (as_text_sound raw jkt (a ∙ ap some (ground arith)))
    ]
  ]

  key_by_thumbprint_sound :
      (jkt pop_jwt : String) (key : Key)
      → key_by_thumbprint jose jkt pop_jwt ≡ ok key
      → (jkt ≢ "")
        × (pop : Message Key) × (jose.parse pop_jwt ≡ ok pop)
        × (pop.signatures ≡ 1)
        × (pop.jwk ≡ some key)
        × (jose.thumbprint key ≡ ok jkt)
  unfolding key_by_thumbprint
  key_by_thumbprint_sound jkt pop_jwt key h = elim (Result-cases (jose.parse pop_jwt)) [
    | inr (x, p) ↦ absurd (ground arith)
    | inl (pop, p) ↦ elim (Option-cases pop.jwk) [
      | inl k ↦ absurd (ground arith)
      | inr (k', k) ↦ elim (Result-cases (jose.thumbprint k')) [
        | inr (x, t) ↦ absurd (ground arith)
        | inl (t', t) ↦
            let same : k' ≡ key = ground arith in
            (
              ground (arith, eq_iff jkt ""),
              pop,
              p,
              ground arith,
              k ∙ ap some same,
              ap jose.thumbprint (sym same) ∙ t ∙ ap ok (ground (arith, eq_iff t' jkt)),
            )
      ]
    ]
  ]

  pub cnf_key_sound :
      (wia_token : Claims) (pop_jwt : String) (key : Key)
      → resolve_cnf_key jose wia_token pop_jwt ≡ ok key
      → IsBoundKey wia_token pop_jwt key
  unfolding resolve_cnf_key
  cnf_key_sound wia_token pop_jwt key h = elim (Option-cases wia_token.cnf) [
    | inl e ↦ absurd (ground arith)
    | inr (cnf, e) ↦ elim (Option-cases (get "jwk" cnf)) [
      | inr (raw, j) ↦ cnf_jwk cnf raw e j (ground arith)
      | inl j ↦
          let (named, pop, p, one, k, t) =
            key_by_thumbprint_sound (declared_jkt jose cnf) pop_jwt key (ground arith) in
          cnf_jkt cnf (declared_jkt jose cnf) pop e
            (jkt_sound cnf (declared_jkt jose cnf) refl named) named p one k t
    ]
  ]
