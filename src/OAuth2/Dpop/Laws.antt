-- ===== src/OAuth2/Dpop/Laws.antt =====
-- What an accepted DPoP proof is, for internal/oauth2/dpop.go.
use fikua_lab_idp.Prelude.{
  ℕ, ◌-◌, ◌≤◌, ◌≡◌, refl, ap, ◌≢◌, ◌↔◌, ◌⊎◌, inl, inr, String, true, false, List, [], ◌∷◌, map,
  elem, some, arith, nat_eq, eq_iff, length, Option-cases, Bool-cases, test_of_ne, subst,
}
use fikua_lab_idp.Action.{ok, Result-cases}
use fikua_lab_idp.OAuth2.Jose.{Jose, Message, Claims}
use fikua_lab_idp.OAuth2.Jti.{JtiStore, accept}
use fikua_lab_idp.OAuth2.Dpop.{
  codes, lower_ascii, same_letters, equal_fold_ascii, dpop_iat_window, htu_matches, check_headers,
  check_claims, check_replay, validate_dpop_proof,
}

length-map : (f : ℕ → ℕ) (a : List ℕ) → length (map f a) ≡ length a
length-map f [] = refl
length-map f (x ∷ a) = omega (arith, length-map f a)

same_letters_iff :
    (a b : List ℕ)
    → length a ≡ length b
    → (same_letters a b ≡ true) ↔ (map lower_ascii a ≡ map lower_ascii b)
unfolding same_letters
same_letters_iff [] [] e = ((λ h. refl), λ h. refl)
same_letters_iff [] (y ∷ b) e = absurd (omega arith)
same_letters_iff (x ∷ a) [] e = absurd (omega arith)
same_letters_iff (x ∷ a) (y ∷ b) e =
    let ih = same_letters_iff a b (omega arith) in
    (λ h. ground (arith, ih), λ h. ground (arith, ih))

-- `equalFoldASCII` holds of exactly the texts that are equal once A to Z are made lower case.
pub equal_fold_ascii_iff :
    (a b : List ℕ) → (equal_fold_ascii a b ≡ true) ↔ (map lower_ascii a ≡ map lower_ascii b)
unfolding equal_fold_ascii
equal_fold_ascii_iff a b = elim (Bool-cases (nat_eq (length a) (length b))) [
  | inl e ↦ rw (e, equal_fold_ascii) (same_letters_iff a b (ground arith))
  | inr e ↦ (
    λ h. ground arith,
    λ h. ground (arith, length-map lower_ascii a, length-map lower_ascii b, ap length h),
  )
]

module _ {Key Cert : Type 0} (jose : Jose Key Cert) where
  -- What RFC 9449 asks of the headers of a proof that carries `key`.
  pub record IsProofHeader (msg : Message Key) (key : Key) : Type 0 where
    pub one_signature : msg.signatures ≡ 1
    pub proof_typ : msg.typ ≡ "dpop+jwt"
    pub carries : msg.jwk ≡ some key
    pub public_only : jose.has_private_part key ≡ false
    pub proof_alg : msg.alg ≡ "ES256"

  -- What it asks of the claims, for a request with method `htm` and URL `htu` at `now`.
  pub record IsProofClaims (htm htu : String) (now iat : ℕ) (token : Claims) : Type 0 where
    pub same_method : equal_fold_ascii (codes (token.claim "htm")) (codes htm) ≡ true
    pub same_url : htu_matches jose (token.claim "htu") htu ≡ true
    pub issued : token.issued_at ≡ some iat
    pub not_old : now - iat ≤ dpop_iat_window
    pub not_future : iat - now ≤ dpop_iat_window

  check_headers_sound :
      (msg : Message Key) (key : Key) → check_headers jose msg ≡ ok key → IsProofHeader msg key
  unfolding check_headers
  check_headers_sound msg key h = ground (arith, eq_iff msg.typ "dpop+jwt", eq_iff msg.alg "ES256")

  check_headers_complete :
      (msg : Message Key) (key : Key) → IsProofHeader msg key → check_headers jose msg ≡ ok key
  unfolding check_headers
  check_headers_complete msg key h =
      ground (arith, eq_iff msg.typ "dpop+jwt", eq_iff msg.alg "ES256")

  check_claims_sound :
      (htm htu : String) (now : ℕ) (token : Claims) (u : Unit {0})
      → check_claims jose htm htu now token ≡ ok u
      → (iat : ℕ) × IsProofClaims htm htu now iat token
  unfolding check_claims
  check_claims_sound htm htu now token u h = elim (Option-cases token.issued_at) [
    | inl e ↦ absurd (ground arith)
    | inr (iat, e) ↦ (
      iat,
      record {
        same_method = ground arith;
        same_url = ground arith;
        issued = e;
        not_old = ground arith;
        not_future = ground arith;
      },
    )
  ]

  check_claims_complete :
      (htm htu : String) (now iat : ℕ) (token : Claims)
      → IsProofClaims htm htu now iat token
      → check_claims jose htm htu now token ≡ ok tt
  unfolding check_claims
  check_claims_complete htm htu now iat token h = ground arith

  check_replay_sound :
      (visit : List String → List String) (ath : String) (token : Claims) (s : JtiStore)
      (u : Unit {0})
      → (check_replay jose visit ath token s).0 ≡ ok u
      → (token.claim "jti" ≢ "")
        × (elem (token.claim "jti") s.set ≡ false)
        × ((ath ≡ "") ⊎ (token.claim "ath" ≡ ath))
  unfolding check_replay
  check_replay_sound visit ath token s u h = (
    ground (arith, eq_iff (token.claim "jti") ""),
    ground arith,
    ground (arith, eq_iff ath "", eq_iff (token.claim "ath") ath),
  )

  check_replay_complete :
      (visit : List String → List String) (ath : String) (token : Claims) (s : JtiStore)
      → token.claim "jti" ≢ ""
      → elem (token.claim "jti") s.set ≡ false
      → (ath ≡ "") ⊎ (token.claim "ath" ≡ ath)
      → check_replay jose visit ath token s ≡ (ok tt, (accept visit (token.claim "jti") s).1)
  unfolding check_replay
  check_replay_complete visit ath token s named fresh bound =
      ground (arith, eq_iff (token.claim "jti") "", eq_iff ath "", eq_iff (token.claim "ath") ath)

  -- A proof that is valid for this request and was not seen before.
  pub record IsAccepted (header htm htu ath : String) (now : ℕ) (s : JtiStore) (key : Key)
      : Type 0 where
    pub msg : Message Key
    pub token : Claims
    pub iat : ℕ
    pub given : header ≢ ""
    pub parses : jose.parse header ≡ ok msg
    pub header_valid : IsProofHeader msg key
    pub verifies : jose.verify header key ≡ some token
    pub claims_valid : IsProofClaims htm htu now iat token
    pub named : token.claim "jti" ≢ ""
    pub fresh : elem (token.claim "jti") s.set ≡ false
    pub bound : (ath ≡ "") ⊎ (token.claim "ath" ≡ ath)

  module _ (visit : List String → List String) (now : ℕ) (header htm htu ath : String)
      (s : JtiStore) where
    -- Whenever `ValidateDPoPProof` returns a key, the proof is one signed by that key for this
    -- method, URL, time and access token, with an identifier that the store had not seen.
    pub validate_dpop_proof_sound :
        (key : Key)
        → (validate_dpop_proof jose visit now header htm htu ath s).0 ≡ ok key
        → IsAccepted header htm htu ath now s key
    unfolding validate_dpop_proof
    validate_dpop_proof_sound key h = elim (Result-cases (jose.parse header)) [
      | inr (e, p) ↦ absurd (ground arith)
      | inl (msg, p) ↦ elim (Result-cases (check_headers jose msg)) [
        | inr (e, q) ↦ absurd (ground arith)
        | inl (k, q) ↦ elim (Option-cases (jose.verify header k)) [
          | inl v ↦ absurd (ground arith)
          | inr (token, v) ↦ elim (Result-cases (check_claims jose htm htu now token)) [
            | inr (e, c) ↦ absurd (ground arith)
            | inl (u, c) ↦ elim (Result-cases (check_replay jose visit ath token s).0) [
              | inr (e, r) ↦ absurd (ground arith)
              | inl (w, r) ↦
                  let claims = check_claims_sound htm htu now token u c in
                  let replay = check_replay_sound visit ath token s w r in
                  let same : k ≡ key = ground arith in
                  record {
                    msg = msg;
                    token = token;
                    iat = claims.0;
                    given = ground (arith, eq_iff header "");
                    parses = p;
                    header_valid = subst (IsProofHeader msg) same (check_headers_sound msg k q);
                    verifies = ground arith;
                    claims_valid = claims.1;
                    named = replay.0;
                    fresh = replay.1;
                    bound = replay.2;
                  }
            ]
          ]
        ]
      ]
    ]

    -- `ValidateDPoPProof` returns the key of every proof that is well formed, signed by that key
    -- for this method, URL, time and access token, and has an identifier that the store had not
    -- seen; and it registers that identifier.
    pub validate_dpop_proof_complete :
        (key : Key) (a : IsAccepted header htm htu ath now s key)
        → validate_dpop_proof jose visit now header htm htu ath s
          ≡ (ok key, (accept visit (a.token.claim "jti") s).1)
    unfolding validate_dpop_proof
    validate_dpop_proof_complete key a = rw (
      test_of_ne header "" a.given,
      a.parses,
      check_headers_complete a.msg key a.header_valid,
      a.verifies,
      check_claims_complete htm htu now a.iat a.token a.claims_valid,
      check_replay_complete visit ath a.token s a.named a.fresh a.bound,
    )
