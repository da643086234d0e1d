-- ===== src/Session/Trace.antt =====
-- The store of internal/session/store.go as the whole service sees it: every method holds the mutex,
-- so what concurrent requests do to the store is some sequence of the steps below.
use fikua_lab_idp.Prelude.{ℕ, ◌+◌, ◌≤◌, String, List, [], ◌∷◌, All, arith}
use fikua_lab_idp.Assoc.{Assoc}
use fikua_lab_idp.Json.{Json}
use fikua_lab_idp.Session.Types.{Store, Params, Data, VerificationSession}
use fikua_lab_idp.Session.Requests
use fikua_lab_idp.Session.Codes
use fikua_lab_idp.Session.Verifications

-- One constructor for each method that may change the store.
pub data Op : Type 0 where
  store_par_request : String → Params → ℕ → Op
  consume_par_request : String → ℕ → Op
  peek_par_request : String → ℕ → Op
  store_pending_auth : String → Params → Op
  consume_pending_auth : String → Op
  mark_identified : String → String → String → Params → ℕ → Op
  store_identify_replay : String → String → ℕ → Op
  create_auth_code : String → Data → ℕ → Op
  consume_auth_code : String → ℕ → Op
  record_issued_jti : String → String → Op
  revoke_tokens_for_code : String → ℕ → Op
  revoked_jtis_list : ℕ → Op
  store_verification : VerificationSession → ℕ → Op
  find_verification : String → ℕ → Op
  find_verification_by_state : String → ℕ → Op
  find_verification_by_encryption_kid : String → ℕ → Op
  update_verification_status : String → String → ℕ → Op
  update_verification_result :
      String → String → Assoc String → Assoc (Assoc Json) → String → String → ℕ → Op

unfoldable pub step : Op → Store → Store
unfolding Requests.store_par_request Requests.consume_par_request Requests.peek_par_request
    Requests.store_pending_auth Requests.consume_pending_auth Requests.mark_identified
    Requests.store_identify_replay Codes.create_auth_code Codes.consume_auth_code
    Codes.record_issued_jti Codes.revoke_tokens_for_code Codes.revoked_jtis_list
    Verifications.store_verification Verifications.find_verification
    Verifications.find_verification_by_state Verifications.find_verification_by_encryption_kid
    Verifications.update_verification_status Verifications.update_verification_result
step (store_par_request uri params now) s = Requests.store_par_request uri params now s
step (consume_par_request uri now) s = (Requests.consume_par_request uri now s).1
step (peek_par_request uri now) s = (Requests.peek_par_request uri now s).1
step (store_pending_auth token params) s = Requests.store_pending_auth token params s
step (consume_pending_auth token) s = (Requests.consume_pending_auth token s).1
step (mark_identified cookie uri id params now) s =
    Requests.mark_identified cookie uri id params now s
step (store_identify_replay token redirect now) s =
    Requests.store_identify_replay token redirect now s
step (create_auth_code code session now) s = Codes.create_auth_code code session now s
step (consume_auth_code code now) s = (Codes.consume_auth_code code now s).1
step (record_issued_jti code jti) s = Codes.record_issued_jti code jti s
step (revoke_tokens_for_code code now) s = Codes.revoke_tokens_for_code code now s
step (revoked_jtis_list now) s = (Codes.revoked_jtis_list now s).1
step (store_verification v now) s = Verifications.store_verification v now s
step (find_verification id now) s = (Verifications.find_verification id now s).1
step (find_verification_by_state state now) s =
    (Verifications.find_verification_by_state state now s).1
step (find_verification_by_encryption_kid kid now) s =
    (Verifications.find_verification_by_encryption_kid kid now s).1
step (update_verification_status id status now) s =
    Verifications.update_verification_status id status now s
step (update_verification_result id status tokens claims subject reason now) s =
    Verifications.update_verification_result id status tokens claims subject reason now s

unfoldable pub run : List Op → Store → Store
run [] s = s
run (op ∷ ops) s = run ops (step op s)

-- How often something happens along a trace, where whether it happens depends on the store.
unfoldable pub total : (Op → Store → ℕ) → List Op → Store → ℕ
unfolding step
total f [] s = 0
total f (op ∷ ops) s = f op s + total f ops (step op s)

-- What each step uses up is paid for by what it puts in or by what was there.
pub total_balance :
    (uses gains : Op → Store → ℕ) (stock : Store → ℕ)
    → ((op : Op) (s : Store) → uses op s + stock (step op s) ≤ gains op s + stock s)
    → (ops : List Op) (s : Store) → total uses ops s ≤ total gains ops s + stock s
unfolding total
total_balance uses gains stock pays [] s = omega arith
total_balance uses gains stock pays (op ∷ ops) s =
    omega (arith, pays op s, total_balance uses gains stock pays ops (step op s))

-- A property that each step of a trace keeps, where the steps are those allowed.
pub run_keeps {ℓ κ} :
    (P : Store → Type ℓ) (Allowed : Op → Type κ)
    → ((op : Op) (s : Store) → Allowed op → P s → P (step op s))
    → (ops : List Op) (s : Store) → All Allowed ops
    → P s
    → P (run ops s)
unfolding run
run_keeps P Allowed keeps [] s a h = h
run_keeps P Allowed keeps (op ∷ ops) s a h =
    run_keeps P Allowed keeps ops (step op s) a.1 (keeps op s a.0 h)
