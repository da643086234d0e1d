-- ===== src/OidcServer/Replies.antt =====
-- Sequences of calls of internal/oidcserver's store, answered as the ledger answers them.
use fikua_lab_idp.Prelude.{ℕ, ◌≤◌, ◌≡◌, refl, ap, inl, none, List, [], ◌∷◌}
use mathlib.Core.Path.{ap₂}
use fikua_lab_idp.Assoc.{get, delete}
use fikua_lab_idp.OidcServer.Types.{OidcStore, new_store}
use fikua_lab_idp.OidcServer.Trace
use fikua_lab_idp.OidcServer.Trace.{
  Op, create, read, save_code, redeem, forget, link, finish, issue, refresh, revoke,
}
use fikua_lab_idp.OidcServer.Ledger
use fikua_lab_idp.OidcServer.Tracked.{tracked_delete}
use fikua_lab_idp.OidcServer.Store.{delete_auth_request, link_verification_session}
use fikua_lab_idp.OidcServer.Storage.{create_access_and_refresh_tokens, revoke_token}
use fikua_lab_idp.OidcServer.Login.{complete}
use fikua_lab_idp.OidcServer.Ledger.{
  admitted, redemption, refreshing, retired, owner, record_request, request_at, code_at, token_at,
  Ledger, Table, set, live, change,
}
use fikua_lab_idp.OidcServer.Refine.{
  request_age, Tracks, Tracks-later, create_refines, read_refines, save_refines, redeem_refines,
  with_requests, change_refines, issue_refines, token_refines, without_token,
}

-- A call answers as the ledger does, and leaves a store that the ledger describes.
perform_refines :
    (now : ℕ) (op : Op) (s : OidcStore) (l : Ledger)
    → Tracks now s l
    → ((Trace.perform now op s).0 ≡ (Ledger.perform now op l).0)
      × Tracks now (Trace.perform now op s).1 (Ledger.perform now op l).1
unfolding Trace.perform Ledger.perform delete_auth_request link_verification_session complete
    revoke_token create_access_and_refresh_tokens
perform_refines now (create id req) s l t =
    let r = create_refines now s l t id req in (ap Trace.created r.0, r.1)
perform_refines now (read id) s l t = let r = read_refines now s l t id in (ap Trace.found r.0, r.1)
perform_refines now (save_code id code) s l t = (refl, save_refines now s l t id code)
perform_refines now (redeem code) s l t =
    let r = redeem_refines now s l t code in (ap Trace.redeemed r.0, r.1)
perform_refines now (forget id) s l t = (
  refl,
  with_requests now s l t (delete id s.auth_requests) (set id none l.requests)
      (tracked_delete request_age now s.auth_requests l.requests id t.requests),
)
perform_refines now (link id session_id) s l t = (
  refl,
  change_refines now s l t id (λ e. record e { verification_session_id = session_id }) (λ e. refl),
)
perform_refines now (finish id subject) s l t = (
  refl,
  change_refines now s l t id
      (λ e. record e { req = record e.req { subject = subject; done_at = now } }) (λ e. refl),
)
perform_refines now (issue token_id new req current) s l t =
    (refl, issue_refines now s l t token_id new req current)
perform_refines now (refresh token) s l t =
    let r = token_refines now s l t token in (ap Trace.refreshed r.0, r.1)
perform_refines now (revoke token) s l t = (refl, without_token now s l t token)

-- The clock does not run backwards.
abbrev pub IsOrdered : ℕ → List (ℕ × Op) → Type 0
IsOrdered now [] = Unit {0}
IsOrdered now ((later, op) ∷ ops) = (now ≤ later) × IsOrdered later ops

replies_track :
    (now : ℕ) (ops : List (ℕ × Op)) (s : OidcStore) (l : Ledger)
    → IsOrdered now ops
    → Tracks now s l
    → Trace.replies ops s ≡ Ledger.replies ops l
unfolding Trace.replies Ledger.replies
replies_track now [] s l ordered t = refl
replies_track now ((later, op) ∷ ops) s l ordered t =
    let r = perform_refines later op s l (Tracks-later now later s l ordered.0 t) in
    ap₂ (λ reply rest. reply ∷ rest) r.0
      (replies_track later ops (Trace.perform later op s).1 (Ledger.perform later op l).1 ordered.1
        r.1)

-- For any sequence of the calls of `Op` (creating, reading, linking, completing and deleting a login
-- request; saving and redeeming a code; issuing, refreshing and revoking a token), from an empty
-- store on and with a clock that does not run backwards, every reply is the one of an ideal store
-- whose entries are never removed for their age: through these calls it is not seen that the store
-- drops an expired entry only where a look-up meets it. `getVerificationSession`, which reads an
-- entry whatever its age, and `GetRefreshTokenInfo` are not among the calls.
pub replies_refine :
    (ops : List (ℕ × Op))
    → IsOrdered 0 ops
    → Trace.replies ops new_store ≡ Ledger.replies ops Ledger.empty
unfolding get
replies_refine ops ordered =
    replies_track 0 ops new_store Ledger.empty ordered
      (record { requests = λ id. inl refl; codes = λ code. refl; tokens = λ token. inl refl })
