-- ===== src/OidcServer/Logins.antt =====
-- How a login completes, for internal/oidcserver/login.go.
use fikua_lab_idp.Prelude.{
  Among, ℕ, ◌≤◌, ◌+◌, ◌≡◌, ◌≢◌, ◌⊎◌, refl, sym, ap, ◌∙◌, inl, inr, String, true, some, List, [],
  ◌∷◌, arith, ◌==◌, eq_iff, eq_of_test, ne_of_test, Bool-cases, Option-cases, is_empty,
}
use mathlib.Core.Path.{ap₂}
use fikua_lab_idp.Assoc.{delete, get, get-put, get-put_self, get-delete}
use fikua_lab_idp.Action.{ok}
use fikua_lab_idp.Session.Types.{VerificationSession}
use fikua_lab_idp.Session.Verifications.{find_verification}
use fikua_lab_idp.OidcServer.Types.{
  OidcStore, AuthRequest, AuthRequestEntry, Authorize, new_store, is_done, auth_request_ttl,
  auth_code_ttl,
}
use fikua_lab_idp.OidcServer.Store.{
  get_auth_request, put_auth_request, change_entry, get_refresh_token, put_refresh_token,
  delete_refresh_token, consume_auth_code, put_auth_code, delete_auth_request,
  link_verification_session, get_verification_session,
}
use fikua_lab_idp.OidcServer.Storage.{
  create_auth_request, auth_request_by_code, save_auth_code, create_access_and_refresh_tokens,
  token_request_by_refresh_token, revoke_token, new_auth_request, method_s256,
}
use fikua_lab_idp.OidcServer.Login.{World, done, complete, settle, poll_handler}
use fikua_lab_idp.OidcServer.Trace.{
  Op, create, read, save_code, redeem, forget, link, finish, issue, refresh, revoke, perform, run,
}

module _ (callback : String → String) (now : ℕ) (id : String) (w : World) where
  -- The poll completed the request with the subject of the verified session that is linked to it.
  pub record IsCompletion (ar : AuthRequest) (after : World) : Type 0 where
    pub session_id : String
    pub v : VerificationSession
    pub asked : (get_auth_request id now w.oidc).0 ≡ some ar
    pub linked : get_verification_session ar.id (get_auth_request id now w.oidc).1 ≡ some session_id
    pub found : (find_verification session_id now w.sessions).0 ≡ some v
    pub verified : v.status ≡ "verified"
    pub named : v.subject_id ≢ ""
    pub completed : after.oidc ≡ complete id v.subject_id now (get_auth_request id now w.oidc).1

  -- A poll answers "done" only where the request was completed before, or where the verification
  -- session that is linked to it has the status "verified" and a subject id, which it then writes to
  -- the request; every other poll writes nothing to the request.
  pub poll_handler_sound :
      ((ar : AuthRequest) × ((poll_handler callback now id w).0 ≡ done (callback ar.id))
        × IsCompletion ar (poll_handler callback now id w).1)
      ⊎ ((poll_handler callback now id w).1.oidc ≡ (get_auth_request id now w.oidc).1)
        × (((url : String) → (poll_handler callback now id w).0 ≢ done url)
            ⊎ ((ar : AuthRequest) × ((get_auth_request id now w.oidc).0 ≡ some ar)
                × (is_done ar ≡ true)))
  unfolding poll_handler settle
  poll_handler_sound = elim (Option-cases (get_auth_request id now w.oidc).0) [
    | inl e ↦ inr (ground arith, inl (λ url h. ground arith))
    | inr (ar, e) ↦ elim (Bool-cases (is_done ar)) [
      | inl d ↦ inr (ground arith, inr (ar, e, d))
      | inr d ↦
          elim (Option-cases (get_verification_session ar.id (get_auth_request id now w.oidc).1)) [
            | inl n ↦ inr (ground arith, inl (λ url h. ground arith))
            | inr (session_id, n) ↦
                elim (Option-cases (find_verification session_id now w.sessions).0) [
                  | inl f ↦ inr (ground arith, inl (λ url h. ground arith))
                  | inr (v, f) ↦ elim (Bool-cases (v.status == "verified")) [
                    | inr other ↦ inr (ground arith, inl (λ url h. ground arith))
                    | inl good ↦ elim (Bool-cases (is_empty v.subject_id)) [
                      | inl blank ↦ inr (ground arith, inl (λ url h. ground arith))
                      | inr named ↦ inl (
                        ar,
                        ground arith,
                        record {
                          session_id = session_id;
                          v = v;
                          asked = e;
                          linked = n;
                          found = f;
                          verified = eq_of_test v.status "verified" good;
                          named = ne_of_test v.subject_id "" named;
                          completed = ground arith;
                        },
                      )
                    ]
                  ]
                ]
          ]
    ]
  ]

-- A request with a subject had it before, or the call is the completion that wrote it.
abbrev HadSubject : String → String → OidcStore → Type 0
HadSubject id subject s =
    (e : AuthRequestEntry) × (get id s.auth_requests ≡ some e) × (e.req.subject ≡ subject)

-- A look-up of requests adds none.
read_adds_none :
    (now : ℕ) (other id : String) (s : OidcStore) (entry : AuthRequestEntry)
    → get id (get_auth_request other now s).1.auth_requests ≡ some entry
    → get id s.auth_requests ≡ some entry
unfolding get_auth_request
read_adds_none now other id s entry h = ground (arith, get-delete other id s.auth_requests)

redeem_adds_none :
    (now : ℕ) (code id : String) (s : OidcStore) (entry : AuthRequestEntry)
    → get id (auth_request_by_code code now s).1.auth_requests ≡ some entry
    → get id s.auth_requests ≡ some entry
unfolding auth_request_by_code consume_auth_code
redeem_adds_none now code id s entry h = elim (Option-cases (consume_auth_code code now s).0) [
  | inl e ↦ ground arith
  | inr (other, e) ↦
      let s' : OidcStore = record s { auth_codes = delete code s.auth_codes } in
      read_adds_none now other id s' entry
        (ground (arith, Option-cases (get_auth_request other now s').0))
]

create_adds_unfinished :
    (now : ℕ) (new id : String) (req : Authorize) (s : OidcStore) (entry : AuthRequestEntry)
    → get id (create_auth_request new now req s).1.auth_requests ≡ some entry
    → entry.req.subject ≢ ""
    → get id s.auth_requests ≡ some entry
unfolding create_auth_request put_auth_request
create_adds_unfinished now new id req s entry h named = ground (
  arith,
  ne_of_test "S256" "plain" refl,
  ne_of_test "S256" "" refl,
  get-put new id
      (record {
        req = new_auth_request new now req method_s256;
        expires_at = now + auth_request_ttl;
        verification_session_id = "";
      })
      s.auth_requests,
)

change_effect :
    (c : AuthRequestEntry → AuthRequestEntry) (other id : String) (s : OidcStore)
    (entry : AuthRequestEntry)
    → get id (change_entry c other s).auth_requests ≡ some entry
    → (e : AuthRequestEntry) × (get id s.auth_requests ≡ some e)
      × ((entry ≡ e) ⊎ ((other ≡ id) × (entry ≡ c e)))
change_effect c other id s entry h = elim (Option-cases (get other s.auth_requests)) [
  | inl n ↦ (entry, ground arith, inl refl)
  | inr (e, g) ↦ elim (Bool-cases (other == id)) [
    | inr differ ↦ (entry, ground (arith, get-put other id (c e) s.auth_requests), inl refl)
    | inl same ↦
        let at = eq_of_test other id same in
        (
          e,
          ap (λ i. get i s.auth_requests) (sym at) ∙ g,
          inr (at, ground (arith, get-put other id (c e) s.auth_requests)),
        )
  ]
]

step_subject :
    (now : ℕ) (op : Op) (id : String) (s : OidcStore) (entry : AuthRequestEntry)
    → get id (perform now op s).1.auth_requests ≡ some entry
    → entry.req.subject ≢ ""
    → (op ≡ finish id entry.req.subject) ⊎ HadSubject id entry.req.subject s
unfolding perform create_auth_request put_auth_request save_auth_code put_auth_code
    delete_auth_request link_verification_session complete create_access_and_refresh_tokens
    put_refresh_token delete_refresh_token token_request_by_refresh_token get_refresh_token
    revoke_token
step_subject now (create new req) id s entry h named =
    inr (entry, create_adds_unfinished now new id req s entry h named, refl)
step_subject now (read other) id s entry h named =
    inr (entry, read_adds_none now other id s entry h, refl)
step_subject now (save_code other code) id s entry h named = inr (entry, h, refl)
step_subject now (redeem code) id s entry h named =
    inr (entry, redeem_adds_none now code id s entry h, refl)
step_subject now (forget other) id s entry h named =
    inr (entry, ground (arith, get-delete other id s.auth_requests), refl)
step_subject now (link other session_id) id s entry h named =
    let (e, g, how) =
      change_effect (λ e. record e { verification_session_id = session_id }) other id s entry h in
    elim how [
      | inl same ↦ inr (e, g, ap (λ x. x.req.subject) (sym same))
      | inr (at, same) ↦ inr (e, g, sym (ap (λ x. x.req.subject) same))
    ]
step_subject now (finish other subject) id s entry h named =
    let (e, g, how) =
      change_effect (λ e. record e { req = record e.req { subject = subject; done_at = now } })
        other id s entry h in
    elim how [
      | inl same ↦ inr (e, g, ap (λ x. x.req.subject) (sym same))
      | inr (at, same) ↦ inl (ap₂ finish at (sym (ap (λ x. x.req.subject) same)))
    ]
step_subject now (issue token_id new req current) id s entry h named =
    inr (entry, ground arith, refl)
step_subject now (refresh token) id s entry h named = inr (entry, ground arith, refl)
step_subject now (revoke token) id s entry h named = inr (entry, h, refl)

completed_by_finish_from :
    (ops : List (ℕ × Op)) (id : String) (s : OidcStore) (entry : AuthRequestEntry)
    → get id (run ops s).auth_requests ≡ some entry
    → entry.req.subject ≢ ""
    → ((now : ℕ) × Among (now, finish id entry.req.subject) ops) ⊎ HadSubject id entry.req.subject s
unfolding run
completed_by_finish_from [] id s entry h named = inr (entry, h, refl)
completed_by_finish_from ((now, op) ∷ ops) id s entry h named =
    elim (completed_by_finish_from ops id (perform now op s).1 entry h named) [
      | inl (later, m) ↦ inl (later, inr m)
      | inr (e, g, same) ↦ elim (step_subject now op id s e g (λ blank. named (sym same ∙ blank))) [
        | inl it ↦ inl (now, inl (ap (λ o. (now, o)) (it ∙ ap (finish id) same)))
        | inr (before, k, equal) ↦ inr (before, k, equal ∙ same)
      ]
    ]

-- After any sequence of the calls of `Op` from an empty store, a request that has a subject was
-- completed, by a `finish` in the sequence, under its own id and with that very subject.
pub completed_by_finish :
    (ops : List (ℕ × Op)) (id : String) (entry : AuthRequestEntry)
    → get id (run ops new_store).auth_requests ≡ some entry
    → entry.req.subject ≢ ""
    → (now : ℕ) × Among (now, finish id entry.req.subject) ops
unfolding get
completed_by_finish ops id entry h named =
    elim (completed_by_finish_from ops id new_store entry h named) [
      | inl found ↦ found
      | inr (e, g, same) ↦ absurd (ground arith)
    ]

create_stores :
    (id : String) (start : ℕ) (req : Authorize) (s : OidcStore)
    → req.code_challenge ≢ ""
    → req.code_challenge_method ≡ "S256"
    → (create_auth_request id start req s).1
      ≡ put_auth_request (new_auth_request id start req "S256") start s
unfolding create_auth_request
create_stores id start req s challenged s256 =
    ground (arith, eq_iff req.code_challenge "", eq_iff req.code_challenge_method "S256")

complete_writes :
    (id subject : String) (now : ℕ) (s : OidcStore) (e : AuthRequestEntry)
    → get id s.auth_requests ≡ some e
    → get id (complete id subject now s).auth_requests
      ≡ some (record e { req = record e.req { subject = subject; done_at = now } })
unfolding complete
complete_writes id subject now s e h = ground (
  arith,
  get-put_self id (record e { req = record e.req { subject = subject; done_at = now } })
      s.auth_requests,
)

redeem_live :
    (code id : String) (now until : ℕ) (s : OidcStore) (e : AuthRequestEntry)
    → get code s.auth_codes ≡ some (record { auth_request_id = id; expires_at = until })
    → get id s.auth_requests ≡ some e
    → now ≤ until
    → now ≤ e.expires_at
    → (auth_request_by_code code now s).0 ≡ ok e.req
unfolding auth_request_by_code consume_auth_code get_auth_request
redeem_live code id now until s e c r fresh alive = ground (arith, c, r)

-- A login with PKCE by S256 that is completed, and whose code is saved, is redeemed by that code
-- within five minutes of the login's start and one of the code: the answer is the request as it was
-- made, with the subject and the time of its completion.
pub login_round_trip :
    (id code subject : String) (start finished saved now : ℕ) (req : Authorize) (s : OidcStore)
    → req.code_challenge ≢ ""
    → req.code_challenge_method ≡ "S256"
    → now ≤ start + auth_request_ttl
    → now ≤ saved + auth_code_ttl
    → (auth_request_by_code code now (
        save_auth_code id code saved
          (complete id subject finished (create_auth_request id start req s).1))).0
      ≡ ok (record (new_auth_request id start req "S256") { subject = subject; done_at = finished })
unfolding save_auth_code put_auth_code put_auth_request
login_round_trip id code subject start finished saved now req s challenged s256 alive fresh =
    let made : AuthRequestEntry = record {
      req = new_auth_request id start req "S256";
      expires_at = start + auth_request_ttl;
      verification_session_id = "";
    } in
    let created = (create_auth_request id start req s).1 in
    let held : get id created.auth_requests ≡ some made =
      ap (λ t. get id t.auth_requests) (create_stores id start req s challenged s256)
      ∙ get-put_self id made s.auth_requests in
    let completed = complete id subject finished created in
    redeem_live code id now (saved + auth_code_ttl) (save_auth_code id code saved completed)
      (record made { req = record made.req { subject = subject; done_at = finished } })
      (get-put_self code (record { auth_request_id = id; expires_at = saved + auth_code_ttl })
        completed.auth_codes)
      (complete_writes id subject finished created made held) fresh alive
