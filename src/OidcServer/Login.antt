-- ===== src/OidcServer/Login.antt =====
-- internal/oidcserver/login.go: the login page and its poll.
use fikua_lab_idp.Prelude.{
  ℕ, String, Option, none, some, [], ◌∷◌, ◌==◌, is_empty, ◌<>◌, if◌then◌else◌,
}
use fikua_lab_idp.Action.{ok, err}
use fikua_lab_idp.Session.Types.{Store, VerificationSession}
use fikua_lab_idp.Session.Verifications.{find_verification}
use fikua_lab_idp.Verifier.Types.{Service, CredentialRequest}
use fikua_lab_idp.Verifier.Create.{Signer, Draws, create_session}
use fikua_lab_idp.OidcClients.{Registry, CredentialScope, lookup, resolve_credential_scope}
use fikua_lab_idp.OidcServer.Types.{AuthRequest, OidcStore, is_done}
use fikua_lab_idp.OidcServer.Store.{
  get_auth_request, change_entry, link_verification_session, get_verification_session,
}

-- The provider's store and the Verifier's sessions.
pub record World : Type 0 where
  pub oidc : OidcStore
  pub sessions : Store

-- A page has the id that it polls with and the text of its `data-request-uri`.
pub data LoginReply : Type 0 where
  bad_request : String → LoginReply
  not_found : String → LoginReply
  bad_gateway : String → LoginReply
  redirect : String → LoginReply
  page : String → String → LoginReply

pub data PollReply : Type 0 where
  unknown : PollReply
  pending : PollReply
  done : String → PollReply
  failed : String → PollReply

unfoldable pub render_login_page : String → String → LoginReply
render_login_page auth_request_id verification_session_id =
    page auth_request_id verification_session_id

-- `ar.subject = v.SubjectID; ar.doneAt = time.Now()`, through the pointer that the entry holds.
unfoldable pub complete : String → String → ℕ → OidcStore → OidcStore
complete id subject now s =
    change_entry
      (λ entry. record entry { req = record entry.req { subject = subject; done_at = now } }) id s

-- `callback` is `h.callbackURL`.
module _ (callback : String → String) where
  -- The switch on the session's status.
  unfoldable pub settle :
      ℕ → String → AuthRequest → VerificationSession → OidcStore → PollReply × OidcStore
  unfolding complete
  settle now id ar v s =
      if v.status == "verified"
      then (if is_empty v.subject_id
          then (failed "verification succeeded but produced no subject identifier", s)
          else (done (callback ar.id), complete id v.subject_id now s))
      else if v.status == "failed"
      then (failed v.error, s)
      else (pending, s)

  abbrev pub poll_session :
      ℕ → String → AuthRequest → Option VerificationSession × Store → OidcStore → PollReply × World
  poll_session now id ar (none, sessions) s = (pending, record { oidc = s; sessions = sessions })
  poll_session now id ar (some v, sessions) s =
      let (reply, s') = settle now id ar v s in (reply, record { oidc = s'; sessions = sessions })

  abbrev pub poll_request : ℕ → String → Option AuthRequest × OidcStore → Store → PollReply × World
  poll_request now id (none, s) sessions = (unknown, record { oidc = s; sessions = sessions })
  poll_request now id (some ar, s) sessions =
      if is_done ar
      then (done (callback ar.id), record { oidc = s; sessions = sessions })
      else (elim (get_verification_session ar.id s) [
        | none ↦ (pending, record { oidc = s; sessions = sessions })
        | some session_id ↦ poll_session now id ar (find_verification session_id now sessions) s
      ])

  unfoldable pub poll_handler : ℕ → String → World → PollReply × World
  unfolding settle
  poll_handler now id w = poll_request now id (get_auth_request id now w.oidc) w.sessions

  module _ {Key : Type 0} (registry : Registry) (svc : Service Key) (signer : Signer) where
    abbrev pub requested_credential : CredentialScope → CredentialRequest
    requested_credential cs = record {
      id = "requested_credential";
      credential_type = cs.credential_type;
      claims = cs.claims;
      format = "";
    }

    -- The session of an earlier page load, or a new one.
    unfoldable pub show_page :
        ℕ → Draws → String → AuthRequest → CredentialScope → World → LoginReply × World
    show_page now draws id ar cs w = elim (get_verification_session ar.id w.oidc) [
      | some session_id ↦ (render_login_page id session_id, w)
      | none ↦
          let (result, sessions) =
            create_session svc signer now draws (requested_credential cs ∷ []) w.sessions in
          elim result [
            | err reason ↦ (
              bad_gateway ("failed to start verification: " <> reason),
              record w { sessions = sessions },
            )
            | ok created ↦ (
              render_login_page id created.session_id,
              record {
                oidc = link_verification_session ar.id created.session_id w.oidc;
                sessions = sessions;
              },
            )
          ]
    ]

    abbrev pub serve_request :
        ℕ → Draws → String → Option AuthRequest × OidcStore → Store → LoginReply × World
    serve_request now draws id (none, s) sessions =
        (not_found "unknown or expired login request", record { oidc = s; sessions = sessions })
    serve_request now draws id (some ar, s) sessions =
        let w : World = record { oidc = s; sessions = sessions } in
        if is_done ar
        then (redirect (callback ar.id), w)
        else (elim (lookup registry ar.client_id) [
          | none ↦ (bad_request "unknown client", w)
          | some cfg ↦ elim (resolve_credential_scope registry ar.scopes) [
            | none ↦ (bad_request "the requested scope names no known credential to present", w)
            | some cs ↦ show_page now draws id ar cs w
          ]
        ])

    unfoldable pub serve_login : ℕ → Draws → String → World → LoginReply × World
    unfolding show_page
    serve_login now draws id w =
        if is_empty id
        then (bad_request "missing id", w)
        else serve_request now draws id (get_auth_request id now w.oidc) w.sessions
