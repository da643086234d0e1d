-- ===== src/Session/Codes.antt =====
-- internal/session/store.go: authorization codes, and the denylist of revoked tokens.
use fikua_lab_idp.Prelude.{
  ℕ, ◌+◌, ◌-◌, ◌*◌, String, Bool, true, false, none, some, List, [], ◌∷◌, ltb, if◌then◌else◌,
}
use fikua_lab_idp.Assoc.{Assoc, get, put, delete}
use fikua_lab_idp.Session.Types.{Store, Data, auth_code_ttl, revoked_jti_retention}

-- `code` is the fresh token that the method returns; `created_at` is overwritten.
unfoldable pub create_auth_code : String → Data → ℕ → Store → Store
create_auth_code code session now s = record s {
  auth_codes = put code (record session { created_at = now }) s.auth_codes;
}

pub data Consumed : Type 0 where
  -- `ok`: the code was live, and this is its session
  redeemed : Data → Consumed
  -- not `ok`; the argument is `reused`
  refused : Bool → Consumed

unfoldable pub consume_auth_code : String → ℕ → Store → Consumed × Store
consume_auth_code code now s = elim (get code s.auth_codes) [
  | none ↦ (refused (elim (get code s.issued_jti_by_code) [ none ↦ false | some jti ↦ true ]), s)
  | some session ↦ (
    if ltb auth_code_ttl (now - session.created_at) then refused false else redeemed session,
    record s { auth_codes = delete code s.auth_codes },
  )
]

unfoldable pub record_issued_jti : String → String → Store → Store
record_issued_jti auth_code jti s = record s {
  issued_jti_by_code = put auth_code jti s.issued_jti_by_code;
}

unfoldable pub revoke_tokens_for_code : String → ℕ → Store → Store
revoke_tokens_for_code auth_code now s = elim (get auth_code s.issued_jti_by_code) [
  | none ↦ s
  | some jti ↦ record s {
    issued_jti_by_code = delete auth_code s.issued_jti_by_code;
    revoked_jtis = put jti (now + 2 * revoked_jti_retention) s.revoked_jtis;
  }
]

-- The loop of `RevokedJTIs`: what it collects, and what it leaves in the map.
unfoldable pub published : ℕ → Assoc ℕ → List String
published now [] = []
published now ((jti, expiry) ∷ rest) =
    let out = published now rest in if ltb expiry now then out else jti ∷ out

unfoldable pub unexpired : ℕ → Assoc ℕ → Assoc ℕ
unexpired now [] = []
unexpired now ((jti, expiry) ∷ rest) =
    let kept = unexpired now rest in if ltb expiry now then kept else (jti, expiry) ∷ kept

unfoldable pub revoked_jtis_list : ℕ → Store → List String × Store
unfolding published unexpired
revoked_jtis_list now s =
    (published now s.revoked_jtis, record s { revoked_jtis = unexpired now s.revoked_jtis })
