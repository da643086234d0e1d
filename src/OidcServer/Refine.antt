-- ===== src/OidcServer/Refine.antt =====
-- internal/oidcserver's store, which removes expired entries where it meets them, against the ledger.
use fikua_lab_idp.Prelude.{
  ℕ, ◌+◌, ◌≤◌, ◌≡◌, ◌⊎◌, refl, sym, subst, inl, inr, String, none, some, arith, ne_of_test, ltb,
  ◌==◌, Bool-cases, Option-cases,
}
use fikua_lab_idp.Assoc.{Assoc, get, put, delete, get-put, get-delete}
use fikua_lab_idp.Action.{Result, ok, err}
use fikua_lab_idp.OidcServer.Types.{
  StorageError, AuthRequest, AuthRequestEntry, AuthCodeEntry, RefreshTokenEntry, Authorize,
  TokenRequest, OidcStore, auth_request_ttl, auth_code_ttl, refresh_token_ttl,
}
use fikua_lab_idp.OidcServer.Trace.{save_code, issue}
use fikua_lab_idp.OidcServer.Ledger
use fikua_lab_idp.OidcServer.Tracked.{
  IsTracked, tracked_later, tracked_put, tracked_delete, tracked_drop, tracked_change, live_same,
}
use fikua_lab_idp.OidcServer.Store.{
  change_entry, get_auth_request, get_refresh_token, consume_auth_code, put_auth_request,
  put_refresh_token, delete_refresh_token, put_auth_code,
}
use fikua_lab_idp.OidcServer.Storage.{
  create_auth_request, auth_request_by_code, save_auth_code, create_access_and_refresh_tokens,
  token_request_by_refresh_token,
}
use fikua_lab_idp.OidcServer.Ledger.{
  admitted, redemption, refreshing, retired, owner, record_request, request_at, code_at, token_at,
  Ledger, Table, set, live, change,
}

abbrev pub request_age : AuthRequestEntry → ℕ
request_age e = e.expires_at

abbrev pub token_age : RefreshTokenEntry → ℕ
token_age e = e.expires_at

pub record Tracks (now : ℕ) (s : OidcStore) (l : Ledger) : Type 0 where
  pub requests : IsTracked request_age now s.auth_requests l.requests
  pub codes : (code : String) → get code s.auth_codes ≡ l.codes code
  pub tokens : IsTracked token_age now s.refresh_tokens l.tokens

pub Tracks-later :
    (now later : ℕ) (s : OidcStore) (l : Ledger) → now ≤ later → Tracks now s l → Tracks later s l
Tracks-later now later s l le t = record {
  requests = tracked_later request_age now later s.auth_requests l.requests le t.requests;
  codes = t.codes;
  tokens = tracked_later token_age now later s.refresh_tokens l.tokens le t.tokens;
}

-- A look-up finds the entry if it lives, and otherwise leaves none.
read_cases :
    (id : String) (now : ℕ) (s : OidcStore)
    → ((entry : AuthRequestEntry) × (live request_age now (get id s.auth_requests) ≡ some entry)
        × (get_auth_request id now s ≡ (some entry.req, s)))
      ⊎ ((live request_age now (get id s.auth_requests) ≡ none)
          × (get_auth_request id now s
              ≡ (none, record s { auth_requests = delete id s.auth_requests })))
unfolding get_auth_request
read_cases id now s = elim (Option-cases (get id s.auth_requests)) [
  | inl e ↦ inr (ground arith, ground arith)
  | inr (entry, e) ↦ elim (Bool-cases (ltb entry.expires_at now)) [
    | inl p ↦ inr (ground arith, ground arith)
    | inr p ↦ inl (entry, ground arith, ground arith)
  ]
]

refresh_cases :
    (token : String) (now : ℕ) (s : OidcStore)
    → ((entry : RefreshTokenEntry) × (live token_age now (get token s.refresh_tokens) ≡ some entry)
        × (get_refresh_token token now s ≡ (some entry, s)))
      ⊎ ((live token_age now (get token s.refresh_tokens) ≡ none)
          × (get_refresh_token token now s
              ≡ (none, record s { refresh_tokens = delete token s.refresh_tokens })))
unfolding get_refresh_token
refresh_cases token now s = elim (Option-cases (get token s.refresh_tokens)) [
  | inl e ↦ inr (ground arith, ground arith)
  | inr (entry, e) ↦ elim (Bool-cases (ltb entry.expires_at now)) [
    | inl p ↦ inr (ground arith, ground arith)
    | inr p ↦ inl (entry, ground arith, ground arith)
  ]
]

module _ (now : ℕ) (s : OidcStore) (l : Ledger) (t : Tracks now s l) where
  pub with_requests :
      (m : Assoc AuthRequestEntry) (f : Table AuthRequestEntry)
      → IsTracked request_age now m f
      → Tracks now (record s { auth_requests = m }) (record l { requests = f })
  with_requests m f r = record { requests = r; codes = t.codes; tokens = t.tokens }

  with_tokens :
      (m : Assoc RefreshTokenEntry) (f : Table RefreshTokenEntry)
      → IsTracked token_age now m f
      → Tracks now (record s { refresh_tokens = m }) (record l { tokens = f })
  with_tokens m f r = record { requests = t.requests; codes = t.codes; tokens = r }

  with_codes :
      (m : Assoc AuthCodeEntry) (f : Table AuthCodeEntry)
      → ((code : String) → get code m ≡ f code)
      → Tracks now (record s { auth_codes = m }) (record l { codes = f })
  with_codes m f r = record { requests = t.requests; codes = r; tokens = t.tokens }

  -- A look-up of a request answers as the ledger does, and leaves it tracked.
  pub read_refines :
      (id : String)
      → ((get_auth_request id now s).0 ≡ request_at id now l)
        × Tracks now (get_auth_request id now s).1 l
  read_refines id =
      let same = live_same request_age now s.auth_requests l.requests id t.requests in
      elim (read_cases id now s) [
        | inl (entry, p, q) ↦
            subst (λ out. (out.0 ≡ request_at id now l) × Tracks now out.1 l) (sym q)
              (ground (arith, same), t)
        | inr (p, q) ↦
            subst (λ out. (out.0 ≡ request_at id now l) × Tracks now out.1 l) (sym q)
              (
                ground (arith, same),
                with_requests (delete id s.auth_requests) l.requests
                    (tracked_drop request_age now s.auth_requests l.requests id p t.requests),
              )
      ]

  refresh_refines :
      (token : String)
      → ((get_refresh_token token now s).0 ≡ token_at token now l)
        × Tracks now (get_refresh_token token now s).1 l
  refresh_refines token =
      let same = live_same token_age now s.refresh_tokens l.tokens token t.tokens in
      elim (refresh_cases token now s) [
        | inl (entry, p, q) ↦
            subst (λ out. (out.0 ≡ token_at token now l) × Tracks now out.1 l) (sym q)
              (ground (arith, same), t)
        | inr (p, q) ↦
            subst (λ out. (out.0 ≡ token_at token now l) × Tracks now out.1 l) (sym q)
              (
                ground (arith, same),
                with_tokens (delete token s.refresh_tokens) l.tokens
                    (tracked_drop token_age now s.refresh_tokens l.tokens token p t.tokens),
              )
      ]

  put_request :
      (ar : AuthRequest) → Tracks now (put_auth_request ar now s) (record_request now (ok ar) l)
  unfolding put_auth_request
  put_request ar =
      let entry : AuthRequestEntry = record {
        req = ar;
        expires_at = now + auth_request_ttl;
        verification_session_id = "";
      } in
      with_requests (put ar.id entry s.auth_requests) (set ar.id (some entry) l.requests)
        (tracked_put request_age now s.auth_requests l.requests ar.id entry t.requests)

  only_requests :
      (id : String) (c : AuthRequestEntry → AuthRequestEntry)
      → record s { auth_requests = (change_entry c id s).auth_requests } ≡ change_entry c id s
  only_requests id c = elim (Option-cases (get id s.auth_requests)) [
    | inl e ↦ ground arith
    | inr (v, e) ↦ ground arith
  ]

  pub change_refines :
      (id : String) (c : AuthRequestEntry → AuthRequestEntry)
      → ((e : AuthRequestEntry) → (c e).expires_at ≡ e.expires_at)
      → Tracks now
          (change_entry c id s)
          (record l { requests = set id (change c (l.requests id)) l.requests })
  change_refines id c same_age =
      subst
        (λ s'. Tracks now s' (record l { requests = set id (change c (l.requests id)) l.requests }))
        (only_requests id c)
        (with_requests (change_entry c id s).auth_requests
          (set id (change c (l.requests id)) l.requests)
          (tracked_change request_age now s.auth_requests (change_entry c id s).auth_requests
            l.requests id c same_age
            (elim (Option-cases (get id s.auth_requests)) [
              | inl e ↦ inl (e, ground arith)
              | inr (v, e) ↦ inr (v, e, ground arith)
            ])
            t.requests))

  stored : Result StorageError AuthRequest → Result StorageError AuthRequest × OidcStore
  stored (err e) = (err e, s)
  stored (ok ar) = (ok ar, put_auth_request ar now s)

  create_of_admitted :
      (id : String) (req : Authorize)
      → create_auth_request id now req s ≡ stored (admitted id now req)
  unfolding create_auth_request stored
  create_of_admitted id req =
      ground (arith, ne_of_test "S256" "plain" refl, ne_of_test "S256" "" refl)

  stored_refines :
      (r : Result StorageError AuthRequest)
      → ((stored r).0 ≡ r) × Tracks now (stored r).1 (record_request now r l)
  unfolding stored
  stored_refines (err e) = (refl, t)
  stored_refines (ok ar) = (refl, put_request ar)

  pub create_refines :
      (id : String) (req : Authorize)
      → ((create_auth_request id now req s).0 ≡ admitted id now req)
        × Tracks now
            (create_auth_request id now req s).1
            (record_request now (admitted id now req) l)
  create_refines id req =
      subst
        (λ out.
          (out.0 ≡ admitted id now req)
          × Tracks now out.1 (record_request now (admitted id now req) l))
        (sym (create_of_admitted id req)) (stored_refines (admitted id now req))

  without_code :
      (code : String)
      → Tracks now
          (record s { auth_codes = delete code s.auth_codes })
          (record l { codes = set code none l.codes })
  without_code code =
      with_codes (delete code s.auth_codes) (set code none l.codes)
        (λ j. ground (arith, get-delete code j s.auth_codes, t.codes j))

pub redeem_refines :
    (now : ℕ) (s : OidcStore) (l : Ledger)
    → Tracks now s l
    → (code : String)
    → ((auth_request_by_code code now s).0 ≡ redemption now (code_at code now l) l)
      × Tracks now (auth_request_by_code code now s).1 (record l { codes = set code none l.codes })
unfolding auth_request_by_code consume_auth_code
redeem_refines now s l t code =
    let s' : OidcStore = record s { auth_codes = delete code s.auth_codes } in
    let l' : Ledger = record l { codes = set code none l.codes } in
    let t' = without_code now s l t code in
    elim (Option-cases (code_at code now l)) [
      | inl e ↦
          let left : s' ≡ (auth_request_by_code code now s).1 = ground (arith, t.codes code) in
          (ground (arith, t.codes code), subst (λ x. Tracks now x l') left t')
      | inr (id, e) ↦
          let r = read_refines now s' l' t' id in
          let left : (get_auth_request id now s').1 ≡ (auth_request_by_code code now s).1 =
            ground (arith, t.codes code, Option-cases (get_auth_request id now s').0) in
          (
            ground (arith, t.codes code, r.0, Option-cases (get_auth_request id now s').0),
            subst (λ x. Tracks now x l') left r.1,
          )
    ]

pub token_refines :
    (now : ℕ) (s : OidcStore) (l : Ledger)
    → Tracks now s l
    → (token : String)
    → ((token_request_by_refresh_token token now s).0 ≡ refreshing (token_at token now l))
      × Tracks now (token_request_by_refresh_token token now s).1 l
unfolding token_request_by_refresh_token
token_refines now s l t token =
    let r = refresh_refines now s l t token in
    let left : (get_refresh_token token now s).1 ≡ (token_request_by_refresh_token token now s).1 =
      ground (arith, Option-cases (get_refresh_token token now s).0) in
    (
      ground (arith, r.0, Option-cases (get_refresh_token token now s).0),
      subst (λ x. Tracks now x l) left r.1,
    )

put_token :
    (now : ℕ) (s : OidcStore) (l : Ledger)
    → Tracks now s l
    → (new : String) (entry : RefreshTokenEntry)
    → Tracks now
        (record s { refresh_tokens = put new entry s.refresh_tokens })
        (record l { tokens = set new (some entry) l.tokens })
put_token now s l t new entry =
    with_tokens now s l t (put new entry s.refresh_tokens) (set new (some entry) l.tokens)
      (tracked_put token_age now s.refresh_tokens l.tokens new entry t.tokens)

pub without_token :
    (now : ℕ) (s : OidcStore) (l : Ledger)
    → Tracks now s l
    → (token : String)
    → Tracks now (delete_refresh_token token s) (record l { tokens = set token none l.tokens })
unfolding delete_refresh_token
without_token now s l t token =
    with_tokens now s l t (delete token s.refresh_tokens) (set token none l.tokens)
      (tracked_delete token_age now s.refresh_tokens l.tokens token t.tokens)

pub issue_refines :
    (now : ℕ) (s : OidcStore) (l : Ledger)
    → Tracks now s l
    → (token_id new : String) (req : TokenRequest) (current : String)
    → Tracks now
        (create_access_and_refresh_tokens token_id new now req current s).1
        (Ledger.perform now (issue token_id new req current) l).1
unfolding create_access_and_refresh_tokens put_refresh_token Ledger.perform
issue_refines now s l t token_id new req current =
    let entry : RefreshTokenEntry = record {
      subject = req.subject;
      client_id = owner req.client_id;
      scopes = req.scopes;
      expires_at = now + refresh_token_ttl;
    } in
    elim (Bool-cases (current == "")) [
      | inl e ↦ rw e (put_token now s l t new entry)
      | inr e ↦ rw e (
          put_token now (delete_refresh_token current s)
            (record l { tokens = set current none l.tokens }) (without_token now s l t current) new
            entry)
    ]

pub save_refines :
    (now : ℕ) (s : OidcStore) (l : Ledger)
    → Tracks now s l
    → (id code : String)
    → Tracks now (save_auth_code id code now s) (Ledger.perform now (save_code id code) l).1
unfolding save_auth_code put_auth_code Ledger.perform
save_refines now s l t id code =
    let entry : AuthCodeEntry = record { auth_request_id = id; expires_at = now + auth_code_ttl } in
    with_codes now s l t (put code entry s.auth_codes) (set code (some entry) l.codes)
      (λ j. ground (arith, get-put code j entry s.auth_codes, t.codes j))
