-- ===== src/OidcServer/SingleUse.antt =====
-- Codes and refresh tokens of internal/oidcserver that are gone for good.
use fikua_lab_idp.Prelude.{
  ℕ, ◌+◌, ◌≡◌, ◌≢◌, ◌⊎◌, refl, ap, ◌∙◌, inl, inr, String, none, List, [], ◌∷◌, arith, eq_iff,
}
use fikua_lab_idp.Assoc.{get, get-put, get-delete}
use fikua_lab_idp.Action.{err}
use fikua_lab_idp.OidcServer.Types.{
  OidcStore, TokenRequest, invalid_grant, invalid_refresh_token, auth_code_ttl, refresh_token_ttl,
}
use fikua_lab_idp.OidcServer.Store.{
  get_auth_request, put_auth_request, get_refresh_token, put_refresh_token, delete_refresh_token,
  consume_auth_code, put_auth_code, delete_auth_request, link_verification_session,
}
use fikua_lab_idp.OidcServer.Storage.{
  create_auth_request, auth_request_by_code, save_auth_code, create_access_and_refresh_tokens,
  token_request_by_refresh_token, revoke_token, rotate_out, client_id_from_token_request,
}
use fikua_lab_idp.OidcServer.Login.{complete}
use fikua_lab_idp.OidcServer.Trace.{
  Op, create, read, save_code, redeem, forget, link, finish, issue, refresh, revoke, perform, run,
}

-- No call of the sequence issues the refresh token, or saves the code.
abbrev pub IsUnissued : String → List (ℕ × Op) → Type 0
IsUnissued token [] = Unit {0}
IsUnissued token ((now, issue token_id new req current) ∷ ops) =
    (new ≢ token) × IsUnissued token ops
IsUnissued token ((now, op) ∷ ops) = IsUnissued token ops

abbrev pub IsUnsaved : String → List (ℕ × Op) → Type 0
IsUnsaved code [] = Unit {0}
IsUnsaved code ((now, save_code id saved) ∷ ops) = (saved ≢ code) × IsUnsaved code ops
IsUnsaved code ((now, op) ∷ ops) = IsUnsaved code ops

-- What a look-up of requests leaves of the other maps.
reads_requests :
    (id : String) (now : ℕ) (s : OidcStore)
    → ((get_auth_request id now s).1.auth_codes ≡ s.auth_codes)
      × ((get_auth_request id now s).1.refresh_tokens ≡ s.refresh_tokens)
unfolding get_auth_request
reads_requests id now s = (ground arith, ground arith)

redeem_keeps_tokens :
    (code : String) (now : ℕ) (s : OidcStore)
    → (auth_request_by_code code now s).1.refresh_tokens ≡ s.refresh_tokens
unfolding auth_request_by_code consume_auth_code get_auth_request
redeem_keeps_tokens code now s = ground arith

refresh_keeps_absent :
    (token other : String) (now : ℕ) (s : OidcStore)
    → get token s.refresh_tokens ≡ none
    → get token (token_request_by_refresh_token other now s).1.refresh_tokens ≡ none
unfolding token_request_by_refresh_token get_refresh_token
refresh_keeps_absent token other now s gone =
    ground (arith, get-delete other token s.refresh_tokens)

rotation_keeps_absent :
    (token token_id new current : String) (now : ℕ) (req : TokenRequest) (s : OidcStore)
    → new ≢ token
    → ((token ≡ current) × (current ≢ "")) ⊎ (get token s.refresh_tokens ≡ none)
    → get token (create_access_and_refresh_tokens token_id new now req current s).1.refresh_tokens
      ≡ none
unfolding create_access_and_refresh_tokens put_refresh_token delete_refresh_token
rotation_keeps_absent token token_id new current now req s other gone =
    let rotated : get token (rotate_out current s).refresh_tokens ≡ none = ground (
      arith,
      gone,
      eq_iff current "",
      eq_iff current token,
      get-delete current token s.refresh_tokens,
    ) in
    ground (
      arith,
      rotated,
      get-put new token
          (record {
            subject = req.subject;
            client_id = client_id_from_token_request req;
            scopes = req.scopes;
            expires_at = now + refresh_token_ttl;
          })
          (rotate_out current s).refresh_tokens,
      eq_iff new token,
    )

token_stays_gone :
    (token : String) (ops : List (ℕ × Op)) (s : OidcStore)
    → IsUnissued token ops
    → get token s.refresh_tokens ≡ none
    → get token (run ops s).refresh_tokens ≡ none
unfolding run perform create_auth_request put_auth_request save_auth_code put_auth_code
    auth_request_by_code consume_auth_code delete_auth_request link_verification_session complete
    create_access_and_refresh_tokens put_refresh_token delete_refresh_token
    token_request_by_refresh_token get_refresh_token revoke_token
token_stays_gone token [] s fresh gone = gone
token_stays_gone token ((now, create id req) ∷ ops) s fresh gone =
    token_stays_gone token ops (perform now (create id req) s).1 fresh (ground arith)
token_stays_gone token ((now, read id) ∷ ops) s fresh gone =
    token_stays_gone token ops (perform now (read id) s).1 fresh
      (ground (arith, (reads_requests id now s).1))
token_stays_gone token ((now, save_code id code) ∷ ops) s fresh gone =
    token_stays_gone token ops (perform now (save_code id code) s).1 fresh gone
token_stays_gone token ((now, redeem code) ∷ ops) s fresh gone =
    token_stays_gone token ops (perform now (redeem code) s).1 fresh
      (ap (get token) (redeem_keeps_tokens code now s) ∙ gone)
token_stays_gone token ((now, forget id) ∷ ops) s fresh gone =
    token_stays_gone token ops (perform now (forget id) s).1 fresh gone
token_stays_gone token ((now, link id session_id) ∷ ops) s fresh gone =
    token_stays_gone token ops (perform now (link id session_id) s).1 fresh (ground arith)
token_stays_gone token ((now, finish id subject) ∷ ops) s fresh gone =
    token_stays_gone token ops (perform now (finish id subject) s).1 fresh (ground arith)
token_stays_gone token ((now, issue token_id new req current) ∷ ops) s fresh gone =
    token_stays_gone token ops (perform now (issue token_id new req current) s).1 fresh.1
      (rotation_keeps_absent token token_id new current now req s fresh.0 (inr gone))
token_stays_gone token ((now, refresh t) ∷ ops) s fresh gone =
    token_stays_gone token ops (perform now (refresh t) s).1 fresh
      (refresh_keeps_absent token t now s gone)
token_stays_gone token ((now, revoke t) ∷ ops) s fresh gone =
    token_stays_gone token ops (perform now (revoke t) s).1 fresh
      (ground (arith, get-delete t token s.refresh_tokens))

absent_token_refused :
    (token : String) (now : ℕ) (s : OidcStore)
    → get token s.refresh_tokens ≡ none
    → (token_request_by_refresh_token token now s).0 ≡ err invalid_refresh_token
unfolding token_request_by_refresh_token get_refresh_token
absent_token_refused token now s gone = ground arith

-- A refresh token that was exchanged for another is refused ever after, at any time and whatever is
-- asked in between, unless the same token is issued anew.
pub rotated_token_refused :
    (token_id new current : String) (now later : ℕ) (req : TokenRequest) (ops : List (ℕ × Op))
    (s : OidcStore)
    → current ≢ ""
    → new ≢ current
    → IsUnissued current ops
    → (token_request_by_refresh_token current later
        (run ops (create_access_and_refresh_tokens token_id new now req current s).1)).0
      ≡ err invalid_refresh_token
rotated_token_refused token_id new current now later req ops s named other fresh =
    let s' = (create_access_and_refresh_tokens token_id new now req current s).1 in
    absent_token_refused current later (run ops s') (
      token_stays_gone current ops s' fresh
        (rotation_keeps_absent current token_id new current now req s other (inl (refl, named))))

redeem_keeps_absent :
    (code other : String) (now : ℕ) (s : OidcStore)
    → (code ≡ other) ⊎ (get code s.auth_codes ≡ none)
    → get code (auth_request_by_code other now s).1.auth_codes ≡ none
unfolding auth_request_by_code consume_auth_code get_auth_request
redeem_keeps_absent code other now s gone =
    ground (arith, gone, get-delete other code s.auth_codes, eq_iff other code)

code_stays_gone :
    (code : String) (ops : List (ℕ × Op)) (s : OidcStore)
    → IsUnsaved code ops
    → get code s.auth_codes ≡ none
    → get code (run ops s).auth_codes ≡ none
unfolding run perform create_auth_request put_auth_request save_auth_code put_auth_code
    delete_auth_request link_verification_session complete create_access_and_refresh_tokens
    put_refresh_token delete_refresh_token token_request_by_refresh_token get_refresh_token
    revoke_token
code_stays_gone code [] s fresh gone = gone
code_stays_gone code ((now, create id req) ∷ ops) s fresh gone =
    code_stays_gone code ops (perform now (create id req) s).1 fresh (ground arith)
code_stays_gone code ((now, read id) ∷ ops) s fresh gone =
    code_stays_gone code ops (perform now (read id) s).1 fresh
      (ap (get code) (reads_requests id now s).0 ∙ gone)
code_stays_gone code ((now, save_code id saved) ∷ ops) s fresh gone =
    code_stays_gone code ops (perform now (save_code id saved) s).1 fresh.1 (
      ground (
        arith,
        fresh.0,
        eq_iff saved code,
        get-put saved code (record { auth_request_id = id; expires_at = now + auth_code_ttl })
            s.auth_codes,
      ))
code_stays_gone code ((now, redeem other) ∷ ops) s fresh gone =
    code_stays_gone code ops (perform now (redeem other) s).1 fresh
      (redeem_keeps_absent code other now s (inr gone))
code_stays_gone code ((now, forget id) ∷ ops) s fresh gone =
    code_stays_gone code ops (perform now (forget id) s).1 fresh gone
code_stays_gone code ((now, link id session_id) ∷ ops) s fresh gone =
    code_stays_gone code ops (perform now (link id session_id) s).1 fresh (ground arith)
code_stays_gone code ((now, finish id subject) ∷ ops) s fresh gone =
    code_stays_gone code ops (perform now (finish id subject) s).1 fresh (ground arith)
code_stays_gone code ((now, issue token_id new req current) ∷ ops) s fresh gone =
    code_stays_gone code ops (perform now (issue token_id new req current) s).1 fresh (ground arith)
code_stays_gone code ((now, refresh t) ∷ ops) s fresh gone =
    code_stays_gone code ops (perform now (refresh t) s).1 fresh (ground arith)
code_stays_gone code ((now, revoke t) ∷ ops) s fresh gone =
    code_stays_gone code ops (perform now (revoke t) s).1 fresh gone

absent_code_refused :
    (code : String) (now : ℕ) (s : OidcStore)
    → get code s.auth_codes ≡ none
    → (auth_request_by_code code now s).0
      ≡ err (invalid_grant "invalid or expired authorization code")
unfolding auth_request_by_code consume_auth_code
absent_code_refused code now s gone = ground arith

-- An authorization code of a login that was redeemed, with or without success, is refused ever
-- after, whatever is asked in between, unless the same code is saved anew.
pub redeemed_code_refused :
    (code : String) (now later : ℕ) (ops : List (ℕ × Op)) (s : OidcStore)
    → IsUnsaved code ops
    → (auth_request_by_code code later (run ops (auth_request_by_code code now s).1)).0
      ≡ err (invalid_grant "invalid or expired authorization code")
redeemed_code_refused code now later ops s fresh =
    let s' = (auth_request_by_code code now s).1 in
    absent_code_refused code later (run ops s')
      (code_stays_gone code ops s' fresh (redeem_keeps_absent code code now s (inl refl)))
