-- ===== src/Session/Revocation.antt =====
-- The denylist of internal/session/store.go: a revoked token stays on it for as long as it could
-- still be honoured.
use fikua_lab_idp.Prelude.{
  ℕ, ◌+◌, ◌*◌, ◌≤◌, ◌<◌, ◌≡◌, true, String, List, [], ◌∷◌, Option, none, some, Option-cases, inl,
  inr, All, elem, arith, eq_iff,
}
use fikua_lab_idp.Assoc.{Assoc, get, get-put, get-put_self}
use fikua_lab_idp.Session.Types.{Store, revoked_jti_retention}
use fikua_lab_idp.Session.Codes.{published, unexpired}
use fikua_lab_idp.Session.Codes
use fikua_lab_idp.Session.Trace.{
  Op, revoke_tokens_for_code, revoked_jtis_list, step, run, run_keeps,
}

abbrev expiry_or_zero : Option ℕ → ℕ
expiry_or_zero none = 0
expiry_or_zero (some e) = e

elem-published :
    (jti : String) (now : ℕ) (m : Assoc ℕ)
    → 0 < expiry_or_zero (get jti m)
    → now ≤ expiry_or_zero (get jti m)
    → elem jti (published now m) ≡ true
unfolding elem published get
elem-published jti now [] pos live = absurd (omega arith)
elem-published jti now ((j, e) ∷ m) pos live =
    ground (arith, elem-published jti now m, eq_iff j jti)

get-unexpired :
    (jti : String) (now : ℕ) (m : Assoc ℕ)
    → 0 < expiry_or_zero (get jti m)
    → now ≤ expiry_or_zero (get jti m)
    → expiry_or_zero (get jti m) ≤ expiry_or_zero (get jti (unexpired now m))
unfolding unexpired get
get-unexpired jti now [] pos live = absurd (omega arith)
get-unexpired jti now ((j, e) ∷ m) pos live = ground (arith, get-unexpired jti now m, eq_iff j jti)

-- The step happens from `start` to `start` plus twice the retention, as far as the clock matters.
abbrev pub Within : ℕ → Op → Type 0
Within start (revoke_tokens_for_code c at) = start ≤ at
Within start (revoked_jtis_list at) = at ≤ start + 2 * revoked_jti_retention
Within start _ = Unit {0}

abbrev Denied : String → ℕ → Store → Type 0
Denied jti start s = start + 2 * revoked_jti_retention ≤ expiry_or_zero (get jti s.revoked_jtis)

step_keeps_Denied :
    (jti : String) (start : ℕ) (op : Op) (s : Store)
    → Within start op
    → Denied jti start s
    → Denied jti start (step op s)
unfolding step
step_keeps_Denied jti start (revoke_tokens_for_code c at) s within held =
    elim (Option-cases (get c s.issued_jti_by_code)) [
      | inl e ↦ ground arith
      | inr (j, e) ↦
          ground
            (arith, get-put j jti (at + 2 * revoked_jti_retention) s.revoked_jtis, eq_iff j jti)
    ]
step_keeps_Denied jti start (revoked_jtis_list at) s within held =
    ground (arith, get-unexpired jti at s.revoked_jtis)
step_keeps_Denied jti start _ s within held = ground arith

-- When a code whose token `jti` is recorded is presented again at `start`, the denylist served at
-- any `now` up to twice the retention later names `jti`, whatever operations come in between, as
-- long as other revocations are not before `start` and other downloads of the list, with their lazy
-- clean-up, not later than that either.
pub revoked_stays_published :
    (code jti : String) (start now : ℕ) (ops : List Op) (s : Store)
    → get code s.issued_jti_by_code ≡ some jti
    → All (Within start) ops
    → now ≤ start + 2 * revoked_jti_retention
    → elem jti (Codes.revoked_jtis_list now (run ops (Codes.revoke_tokens_for_code code start s))).0
      ≡ true
unfolding Codes.revoked_jtis_list Codes.revoke_tokens_for_code
revoked_stays_published code jti start now ops s issued within early =
    let s' = Codes.revoke_tokens_for_code code start s in
    let put_there = get-put_self jti (start + 2 * revoked_jti_retention) s.revoked_jtis in
    let first : Denied jti start s' = ground (arith, put_there) in
    let last =
      run_keeps (Denied jti start) (Within start) (step_keeps_Denied jti start) ops s' within
        first in
    elem-published jti now (run ops s').revoked_jtis (omega arith) (omega arith)
