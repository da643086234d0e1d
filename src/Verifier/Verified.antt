-- ===== src/Verifier/Verified.antt =====
-- The credentials that a verified response presents, for internal/verifier/service.go.
use fikua_lab_idp.Prelude.{
  ◌≤◌, ◌≡◌, refl, sym, ◌∙◌, ap, ◌≢◌, ◌⊎◌, inl, inr, eq_of_test, ◌==◌, subst, Among, String, Option,
  none, some, List, [], ◌∷◌, All, arith, length, Option-cases, Bool-cases,
}
use fikua_lab_idp.Assoc.{Assoc, get, put, get-put, get-put_self, get-empty}
use fikua_lab_idp.Json.{Json}
use fikua_lab_idp.Action.{ok}
use fikua_lab_idp.Session.Types.{VerificationSession, DcqlCredentialQuery}
use fikua_lab_idp.Verifier.Types.{Service}
use fikua_lab_idp.Verifier.Checked.{
  IsChecked, mdoc_checked, sd_jwt_checked, verify_presentation-IsChecked,
}
use fikua_lab_idp.Verifier.Steps.{IsHeld, verify-IsStep, verify_each-IsHeld}
use fikua_lab_idp.Verifier.Presentation.{verify_each, keep_key}

module _ {Key : Type 0} (svc : Service Key) (v : VerificationSession)
    (vp_tokens : Assoc String) where
  -- Some query of the session under this id was answered with these claims and this key.
  pub record IsSource (id : String) (claims : Assoc Json) (key : Option Key) : Type 0 where
    pub query : DcqlCredentialQuery
    pub token : String
    pub asked : Among query v.dcql_query.credentials
    pub same_id : query.id ≡ id
    pub given : get id vp_tokens ≡ some token
    pub checked : IsChecked svc v query token claims key

  -- Whatever the two maps hold has such a source.
  record HaveSources (claims : Assoc (Assoc Json)) (keys : Assoc Key) : Type 0 where
    of_claims :
        (id : String) (c : Assoc Json) → get id claims ≡ some c → (k : Option Key) × IsSource id c k
    of_key :
        (id : String) (k : Key) → get id keys ≡ some k → (c : Assoc Json) × IsSource id c (some k)

  keep_key-IsSource :
      (id : String) (c : Assoc Json) (k : Option Key) (keys : Assoc Key)
      → IsSource id c k
      → ((j : String) (l : Key) → get j keys ≡ some l → (d : Assoc Json) × IsSource j d (some l))
      → (j : String) (l : Key) → get j (keep_key svc id k keys) ≡ some l
      → (d : Assoc Json) × IsSource j d (some l)
  keep_key-IsSource id c none keys source h j l g = h j l g
  keep_key-IsSource id c (some k) keys source h j l g = elim (Bool-cases (id == j)) [
    | inr other ↦ h j l (ground (arith, get-put id j k keys))
    | inl same ↦
        let key : k ≡ l = ground (arith, get-put id j k keys) in
        (
          c,
          subst (λ i. IsSource i c (some l)) (eq_of_test id j same)
              (subst (λ x. IsSource id c (some x)) key source),
        )
  ]

  put-HaveSources :
      (id : String) (c : Assoc Json) (k : Option Key) (claims : Assoc (Assoc Json))
      (keys : Assoc Key)
      → IsSource id c k
      → HaveSources claims keys
      → HaveSources (put id c claims) (keep_key svc id k keys)
  put-HaveSources id c k claims keys source h = record {
    of_claims = λ j d g. elim (Bool-cases (id == j)) [
      | inr other ↦ h.of_claims j d (ground (arith, get-put id j c claims))
      | inl same ↦ (
        k,
        subst (λ i. IsSource i d k) (eq_of_test id j same)
            (subst (λ d. IsSource id d k) (ground (arith, get-put id j c claims)) source),
      )
    ];
    of_key = λ j l g. keep_key-IsSource id c k keys source h.of_key j l g;
  }

  -- What the loop leaves for one query.
  record IsAsked (out : Assoc (Assoc Json) × Assoc Key) (cred : DcqlCredentialQuery) : Type 0 where
    vp_token : String
    cred_claims : Assoc Json
    holder_key : Option Key
    given : get cred.id vp_tokens ≡ some vp_token
    not_empty : vp_token ≢ ""
    checked : IsChecked svc v cred vp_token cred_claims holder_key
    claims_held : IsHeld cred.id out.0
    key_held : (holder_key ≡ none) ⊎ IsHeld cred.id out.1

  own_key :
      (id : String) (k : Option Key) (keys : Assoc Key)
      → (k ≡ none) ⊎ IsHeld id (keep_key svc id k keys)
  own_key id none keys = inl refl
  own_key id (some k) keys = inr (k, get-put_self id k keys)

  verify_each-IsAsked :
      (creds : List DcqlCredentialQuery) (claims : Assoc (Assoc Json)) (keys : Assoc Key)
      (out : Assoc (Assoc Json) × Assoc Key)
      → verify_each svc v vp_tokens creds claims keys ≡ ok out
      → All (IsAsked out) creds
  verify_each-IsAsked [] claims keys out h = tt
  verify_each-IsAsked (c ∷ rest) claims keys out h =
      let s = verify-IsStep svc v vp_tokens claims keys c rest out h in
      let claims' = put c.id s.cred_claims claims in
      let keys' = keep_key svc c.id s.holder_key keys in
      let held = verify_each-IsHeld svc v vp_tokens c.id rest claims' keys' out s.goes_on in
      (
        record {
          vp_token = s.vp_token;
          cred_claims = s.cred_claims;
          holder_key = s.holder_key;
          given = s.given;
          not_empty = s.not_empty;
          checked =
              verify_presentation-IsChecked svc v c s.vp_token s.cred_claims s.holder_key
                s.verified;
          claims_held = held.0 (s.cred_claims, get-put_self c.id s.cred_claims claims);
          key_held = elim (own_key c.id s.holder_key keys) [
            | inl e ↦ inl e
            | inr g ↦ inr (held.1 g)
          ];
        },
        verify_each-IsAsked rest claims' keys' out s.goes_on,
      )

  verify_each-HaveSources :
      (creds : List DcqlCredentialQuery) (claims : Assoc (Assoc Json)) (keys : Assoc Key)
      (out : Assoc (Assoc Json) × Assoc Key)
      → ((d : DcqlCredentialQuery) → Among d creds → Among d v.dcql_query.credentials)
      → HaveSources claims keys
      → verify_each svc v vp_tokens creds claims keys ≡ ok out
      → HaveSources out.0 out.1
  unfolding verify_each
  verify_each-HaveSources [] claims keys out within h e =
      subst {A = Assoc (Assoc Json) × Assoc Key} (λ o. HaveSources o.0 o.1) (ground arith) h
  verify_each-HaveSources (c ∷ rest) claims keys out within h e =
      let s = verify-IsStep svc v vp_tokens claims keys c rest out e in
      let source : IsSource c.id s.cred_claims s.holder_key = record {
        query = c;
        token = s.vp_token;
        asked = within c (inl refl);
        same_id = refl;
        given = s.given;
        checked =
            verify_presentation-IsChecked svc v c s.vp_token s.cred_claims s.holder_key s.verified;
      } in
      verify_each-HaveSources rest (put c.id s.cred_claims claims)
        (keep_key svc c.id s.holder_key keys) out (λ d m. within d (inr m))
        (put-HaveSources c.id s.cred_claims s.holder_key claims keys source h) s.goes_on

  -- The response holds a presentation for this query that was checked for this session. The claims
  -- kept under the query's id are those of a query of the session under that id, and its holder key,
  -- if there is one, is the one kept.
  pub record IsVerified (claims : Assoc (Assoc Json)) (holder_keys : Assoc Key)
      (cred : DcqlCredentialQuery) : Type 0 where
    pub vp_token : String
    pub cred_claims : Assoc Json
    pub holder_key : Option Key
    pub kept : Assoc Json
    pub kept_key : Option Key
    pub given : get cred.id vp_tokens ≡ some vp_token
    pub not_empty : vp_token ≢ ""
    pub checked : IsChecked svc v cred vp_token cred_claims holder_key
    pub has_claims : get cred.id claims ≡ some kept
    pub kept_from : IsSource cred.id kept kept_key
    pub has_key : (holder_key ≡ none) ⊎ (get cred.id holder_keys ≡ holder_key)

  -- Two presentations of one token that give a key give the same: an mdoc gives none.
  pub same_holder :
      (c d : DcqlCredentialQuery) (token : String) (a b : Assoc Json) (k l : Key)
      → IsChecked svc v c token a (some k)
      → IsChecked svc v d token b (some l)
      → k ≡ l
  same_holder c d token a b k l (mdoc_checked t f g h e) y = absurd (ground arith)
  same_holder c d token a b k l (sd_jwt_checked r f g st h e) (mdoc_checked t f' g' h' e') =
      absurd (ground arith)
  same_holder c d token a b k l (sd_jwt_checked r f g st h e) (sd_jwt_checked r' f' g' st' h' e') =
      ground (arith, sym g ∙ g')

  IsAsked-IsVerified :
      (out : Assoc (Assoc Json) × Assoc Key) (cred : DcqlCredentialQuery)
      → HaveSources out.0 out.1
      → IsAsked out cred
      → IsVerified out.0 out.1 cred
  IsAsked-IsVerified out cred sources a =
      let (kept, held) = a.claims_held in
      let (kept_key, source) = sources.of_claims cred.id kept held in
      record {
        vp_token = a.vp_token;
        cred_claims = a.cred_claims;
        holder_key = a.holder_key;
        kept = kept;
        kept_key = kept_key;
        given = a.given;
        not_empty = a.not_empty;
        checked = a.checked;
        has_claims = held;
        kept_from = source;
        has_key = elim a.key_held [
          | inl e ↦ inl e
          | inr (k, g) ↦ elim (Option-cases a.holder_key) [
            | inl e ↦ inl e
            | inr (l, e) ↦
                let (c, from) = sources.of_key cred.id k g in
                let mine =
                  subst (λ h. IsChecked svc v cred a.vp_token a.cred_claims h) e a.checked in
                let token : from.token ≡ a.vp_token = ground (arith, from.given, a.given) in
                let theirs =
                  subst (λ t. IsChecked svc v from.query t c (some k)) token from.checked in
                let same = same_holder from.query cred a.vp_token c a.cred_claims k l theirs mine in
                inr (g ∙ ap some same ∙ sym e)
          ]
        ];
      }

  all-IsVerified :
      (out : Assoc (Assoc Json) × Assoc Key) (creds : List DcqlCredentialQuery)
      → HaveSources out.0 out.1
      → All (IsAsked out) creds
      → All (IsVerified out.0 out.1) creds
  all-IsVerified out [] sources h = tt
  all-IsVerified out (c ∷ rest) sources h =
      (IsAsked-IsVerified out c sources h.0, all-IsVerified out rest sources h.1)

  none_kept : HaveSources [] []
  none_kept = record {
    of_claims = λ id c g. absurd (ground (arith, get-empty {V = Assoc Json} id));
    of_key = λ id k g. absurd (ground (arith, get-empty {V = Key} id));
  }

  pub verify_each_sound :
      (claims : Assoc (Assoc Json)) (keys : Assoc Key)
      → verify_each svc v vp_tokens v.dcql_query.credentials [] [] ≡ ok (claims, keys)
      → All (IsVerified claims keys) v.dcql_query.credentials
  verify_each_sound claims keys h =
      all-IsVerified (claims, keys) v.dcql_query.credentials
        (verify_each-HaveSources v.dcql_query.credentials [] [] (claims, keys) (λ d m. m) none_kept
          h)
        (verify_each-IsAsked v.dcql_query.credentials [] [] (claims, keys) h)

  only_kept :
      (id j : String) (k : Option Key) (l : Key)
      → get j (keep_key svc id k []) ≡ some l
      → k ≡ some l
  only_kept id j none l h = ground (arith, get-empty {V = Key} j)
  only_kept id j (some k) l h = ground (arith, get-put id j k [], get-empty {V = Key} j)

  -- With at most one query there is at most one holder key.
  pub verify_each_one_key :
      (creds : List DcqlCredentialQuery) (claims : Assoc (Assoc Json)) (keys : Assoc Key)
      → length creds ≤ 1
      → verify_each svc v vp_tokens creds [] [] ≡ ok (claims, keys)
      → (id j : String) (k l : Key) → get id keys ≡ some k
      → get j keys ≡ some l
      → k ≡ l
  unfolding verify_each
  verify_each_one_key [] claims keys short h id j k l p q = ground (arith, get-empty {V = Key} id)
  verify_each_one_key (c ∷ []) claims keys short h id j k l p q =
      let s = verify-IsStep svc v vp_tokens [] [] c [] (claims, keys) h in
      let same : keep_key svc c.id s.holder_key [] ≡ keys = ground (arith, s.goes_on) in
      let first = only_kept c.id id s.holder_key k (ap (get id) same ∙ p) in
      let other = only_kept c.id j s.holder_key l (ap (get j) same ∙ q) in
      ground (arith, first, other)
  verify_each_one_key (c ∷ d ∷ rest) claims keys short h id j k l p q = absurd (omega arith)
