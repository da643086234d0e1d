-- ===== src/Verifier/Holder.antt =====
-- The one holder of the credentials that a response presents, for internal/verifier/service.go.
use fikua_lab_idp.Prelude.{
  Among, all_among, ◌≤◌, ◌≡◌, refl, sym, ◌∙◌, ap, ◌≢◌, ◌⊎◌, inl, inr, String, some, [], ◌∷◌, All,
  arith, eq_iff, ◌==◌, length, Bool-cases, List-cases, ltb,
}
use fikua_lab_idp.Assoc.{Assoc, get}
use fikua_lab_idp.Json.{Json}
use fikua_lab_idp.Action.{ok, Result-cases}
use fikua_lab_idp.Session.Types.{VerificationSession}
use fikua_lab_idp.Verifier.Types.{Service}
use fikua_lab_idp.Verifier.Presentation.{
  verify_each, bound_to, verify_cross_credential_binding, verify_presentations,
  subject_id_from_holder_keys,
}
use fikua_lab_idp.Verifier.Verified.{verify_each_one_key}

-- `range` visits exactly the entries of the map.
pub record IsVisit {V : Type 0} (visit : Assoc V → Assoc V) : Type 0 where
  pub all_visited :
      (m : Assoc V) (id : String) (v : V) → get id m ≡ some v → Among (id, v) (visit m)
  pub only_held : (m : Assoc V) (id : String) (v : V) → Among (id, v) (visit m) → get id m ≡ some v

-- RFC 7638 thumbprints are not empty.
abbrev pub NoEmptyThumbprint : {Key : Type 0} → Service Key → Type 0
NoEmptyThumbprint {Key} svc = (key : Key) (t : String) → svc.library.thumbprint key ≡ ok t → t ≢ ""

module _ {Key : Type 0} (svc : Service Key) (proper : NoEmptyThumbprint svc) where
  abbrev Has : String → String × Key → Type 0
  Has t e = svc.library.thumbprint e.1 ≡ ok t

  bound_to_sound :
      (id t : String) (keys : Assoc Key) (u : Unit {0})
      → t ≢ ""
      → bound_to svc id t keys ≡ ok u
      → All (Has t) keys
  unfolding bound_to
  bound_to_sound id t [] u named h = tt
  bound_to_sound id t ((j, key) ∷ rest) u named h =
      elim (Result-cases (svc.library.thumbprint key)) [
        | inr (x, p) ↦ absurd (ground arith)
        | inl (thumb, p) ↦ elim (Bool-cases (thumb == t)) [
          | inr n ↦ absurd (ground (arith, eq_iff t ""))
          | inl y ↦ (
            p ∙ ap ok ((eq_iff thumb t).0 y),
            bound_to_sound id t rest u named (ground (arith, eq_iff t "")),
          )
        ]
      ]

  bound_from_start :
      (keys : Assoc Key) (u : Unit {0})
      → bound_to svc "" "" keys ≡ ok u
      → (t : String) × All (Has t) keys
  unfolding bound_to
  bound_from_start [] u h = ("", tt)
  bound_from_start ((j, key) ∷ rest) u h = elim (Result-cases (svc.library.thumbprint key)) [
    | inr (x, p) ↦ absurd (ground arith)
    | inl (thumb, p) ↦
        (thumb, (p, bound_to_sound j thumb rest u (proper key thumb p) (ground arith)))
  ]

  module _ (visits : IsVisit svc.visit_keys × IsVisit svc.visit_holders) where
    subject_sound :
        (keys : Assoc Key) (subject : String)
        → subject_id_from_holder_keys svc keys ≡ ok subject
        → (id : String) × (key : Key) × (t : String) × (get id keys ≡ some key)
          × (svc.library.thumbprint key ≡ ok t)
          × (subject ≡ svc.library.sha256_hex t)
    unfolding subject_id_from_holder_keys
    subject_sound keys subject h = elim (List-cases (svc.visit_holders keys)) [
      | inl e ↦ absurd (ground arith)
      | inr ((id, key), rest, e) ↦ elim (Result-cases (svc.library.thumbprint key)) [
        | inr (x, p) ↦ absurd (ground arith)
        | inl (t, p) ↦
            (id, key, t, visits.1.only_held keys id key (rw e (inl refl)), p, ground arith)
      ]
    ]

    pub verify_presentations_sound :
        (v : VerificationSession) (vp_tokens : Assoc String) (claims : Assoc (Assoc Json))
        (keys : Assoc Key)
        → verify_presentations svc v vp_tokens ≡ ok (claims, keys)
        → (verify_each svc v vp_tokens v.dcql_query.credentials [] [] ≡ ok (claims, keys))
          × ((length v.dcql_query.credentials ≤ 1)
              ⊎ (bound_to svc "" "" (svc.visit_keys keys) ≡ ok tt))
    unfolding verify_presentations verify_cross_credential_binding
    verify_presentations_sound v vp_tokens claims keys h =
        let creds = v.dcql_query.credentials in
        elim (Result-cases (verify_each svc v vp_tokens creds [] [])) [
          | inr (x, e) ↦ absurd (ground arith)
          | inl ((claims', keys'), e) ↦ elim (Bool-cases (ltb 1 (length creds))) [
            | inl many ↦ elim (Result-cases (bound_to svc "" "" (svc.visit_keys keys'))) [
              | inr (x, b) ↦ absurd (ground arith)
              | inl (u, b) ↦
                  let same : keys' ≡ keys = ground arith in
                  (
                    ground arith,
                    inr (ap (λ m. bound_to svc "" "" (svc.visit_keys m)) (sym same) ∙ b),
                  )
            ]
            | inr few ↦ (ground arith, inl (ground arith))
          ]
        ]

    -- Every holder key of an accepted response has the thumbprint that the subject id is made of.
    pub one_holder :
        (v : VerificationSession) (vp_tokens : Assoc String) (claims : Assoc (Assoc Json))
        (keys : Assoc Key) (subject : String)
        → verify_presentations svc v vp_tokens ≡ ok (claims, keys)
        → subject_id_from_holder_keys svc keys ≡ ok subject
        → (t : String) × (subject ≡ svc.library.sha256_hex t)
          × ((id : String) (key : Key) → get id keys ≡ some key → svc.library.thumbprint key ≡ ok t)
    one_holder v vp_tokens claims keys subject h s =
        let (id, key, t, held, has, made) = subject_sound keys subject s in
        let p = verify_presentations_sound v vp_tokens claims keys h in
        elim p.1 [
          | inl few ↦ (
            t,
            made,
            λ j k g.
                ap svc.library.thumbprint (
                  verify_each_one_key svc v vp_tokens v.dcql_query.credentials claims keys few p.0 j
                    id k key g held)
                ∙ has,
          )
          | inr b ↦
              let (t', all) = bound_from_start (svc.visit_keys keys) tt b in
              let of_key : (j : String) (k : Key) → get j keys ≡ some k → Has t' (j, k) = λ j k g.
                all_among (Has t') (j, k) (svc.visit_keys keys) all
                  (visits.0.all_visited keys j k g) in
              (t', ground (arith, of_key id key held, has, made), of_key)
        ]
