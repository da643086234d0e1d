-- ===== src/Verifier/Steps.antt =====
-- The loop over the credential queries of a session, for internal/verifier/service.go.
use fikua_lab_idp.Prelude.{
  ◌≡◌, ◌≢◌, inl, inr, ◌==◌, subst, String, Option, none, some, List, [], ◌∷◌, arith, eq_iff,
  is_empty, Option-cases, Bool-cases,
}
use fikua_lab_idp.Assoc.{Assoc, get, put, get-put}
use fikua_lab_idp.Json.{Json}
use fikua_lab_idp.Action.{ok, Result-cases}
use fikua_lab_idp.Session.Types.{VerificationSession, DcqlCredentialQuery}
use fikua_lab_idp.Verifier.Types.{Service}
use fikua_lab_idp.Verifier.Presentation.{verify_presentation, verify_each, keep_key}

abbrev pub IsHeld : {V : Type 0} → String → Assoc V → Type 0
IsHeld {V} id m = (x : V) × (get id m ≡ some x)

put-IsHeld :
    {V : Type 0} (id j : String) (x : V) (m : Assoc V) → IsHeld id m → IsHeld id (put j x m)
put-IsHeld {V} id j x m h = elim (Bool-cases (j == id)) [
  | inl same ↦ (x, ground (arith, get-put j id x m))
  | inr other ↦ (h.0, ground (arith, get-put j id x m, h.1))
]

module _ {Key : Type 0} (svc : Service Key) (v : VerificationSession)
    (vp_tokens : Assoc String) where
  -- The step of the loop that verified `cred`.
  pub record IsStep (claims : Assoc (Assoc Json)) (keys : Assoc Key) (cred : DcqlCredentialQuery)
      (rest : List DcqlCredentialQuery) (out : Assoc (Assoc Json) × Assoc Key) : Type 0 where
    pub vp_token : String
    pub cred_claims : Assoc Json
    pub holder_key : Option Key
    pub given : get cred.id vp_tokens ≡ some vp_token
    pub not_empty : vp_token ≢ ""
    pub verified : verify_presentation svc v cred vp_token ≡ ok (cred_claims, holder_key)
    pub goes_on :
        verify_each svc v vp_tokens rest
          (put cred.id cred_claims claims)
          (keep_key svc cred.id holder_key keys)
        ≡ ok out

  pub verify-IsStep :
      (claims : Assoc (Assoc Json)) (keys : Assoc Key) (cred : DcqlCredentialQuery)
      (rest : List DcqlCredentialQuery) (out : Assoc (Assoc Json) × Assoc Key)
      → verify_each svc v vp_tokens (cred ∷ rest) claims keys ≡ ok out
      → IsStep claims keys cred rest out
  unfolding verify_each
  verify-IsStep claims keys cred rest out h = elim (Option-cases (get cred.id vp_tokens)) [
    | inl e ↦ absurd (ground arith)
    | inr (token, e) ↦ elim (Bool-cases (is_empty token)) [
      | inl blank ↦ absurd (ground arith)
      | inr named ↦ elim (Result-cases (verify_presentation svc v cred token)) [
        | inr (x, p) ↦ absurd (ground arith)
        | inl ((cred_claims, holder_key), p) ↦ record {
          vp_token = token;
          cred_claims = cred_claims;
          holder_key = holder_key;
          given = e;
          not_empty = ground (arith, eq_iff token "");
          verified = p;
          goes_on = ground arith;
        }
      ]
    ]
  ]

  keep_key-IsHeld :
      (id j : String) (k : Option Key) (keys : Assoc Key)
      → IsHeld id keys
      → IsHeld id (keep_key svc j k keys)
  keep_key-IsHeld id j none keys h = h
  keep_key-IsHeld id j (some k) keys h = put-IsHeld id j k keys h

  -- The loop forgets no entry.
  pub verify_each-IsHeld :
      (id : String) (creds : List DcqlCredentialQuery) (claims : Assoc (Assoc Json))
      (keys : Assoc Key) (out : Assoc (Assoc Json) × Assoc Key)
      → verify_each svc v vp_tokens creds claims keys ≡ ok out
      → (IsHeld id claims → IsHeld id out.0) × (IsHeld id keys → IsHeld id out.1)
  unfolding verify_each
  verify_each-IsHeld id [] claims keys out h =
      let e : ◌≡◌ {A = Assoc (Assoc Json) × Assoc Key} (claims, keys) out = ground arith in
      (
        λ g. subst {A = Assoc (Assoc Json) × Assoc Key} (λ o. IsHeld id o.0) e g,
        λ g. subst {A = Assoc (Assoc Json) × Assoc Key} (λ o. IsHeld id o.1) e g,
      )
  verify_each-IsHeld id (c ∷ rest) claims keys out h =
      let s = verify-IsStep claims keys c rest out h in
      let ih =
        verify_each-IsHeld id rest (put c.id s.cred_claims claims)
          (keep_key svc c.id s.holder_key keys) out s.goes_on in
      (
        λ g. ih.0 (put-IsHeld id c.id s.cred_claims claims g),
        λ g. ih.1 (keep_key-IsHeld id c.id s.holder_key keys g),
      )
