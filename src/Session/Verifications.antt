-- ===== src/Session/Verifications.antt =====
-- internal/session/store.go: the Verifier's sessions and their two indexes.
use fikua_lab_idp.Prelude.{ℕ, ◌-◌, String, Option, none, some, ltb, if◌then◌else◌}
use fikua_lab_idp.Assoc.{Assoc, get, put, delete}
use fikua_lab_idp.Json.{Json}
use fikua_lab_idp.Session.Types.{Store, VerificationSession, verification_session_ttl}

unfoldable pub store_verification : VerificationSession → ℕ → Store → Store
store_verification v now s = record s {
  verifications = put v.session_id (record v { created_at = now }) s.verifications;
  verification_id_by_state = put v.state v.session_id s.verification_id_by_state;
  verification_id_by_enc_kid = elim v.encryption_key [
    | none ↦ s.verification_id_by_enc_kid
    | some key ↦ put key.kid v.session_id s.verification_id_by_enc_kid
  ];
}

unfoldable pub delete_verification : VerificationSession → Store → Store
delete_verification v s = record s {
  verifications = delete v.session_id s.verifications;
  verification_id_by_state = delete v.state s.verification_id_by_state;
  verification_id_by_enc_kid = elim v.encryption_key [
    | none ↦ s.verification_id_by_enc_kid
    | some key ↦ delete key.kid s.verification_id_by_enc_kid
  ];
}

-- `findVerificationLocked` and `findVerificationPointerLocked`, which differ in copying only.
unfoldable pub find_verification : String → ℕ → Store → Option VerificationSession × Store
unfolding delete_verification
find_verification session_id now s = elim (get session_id s.verifications) [
  | none ↦ (none, s)
  | some v ↦
      if ltb verification_session_ttl (now - v.created_at)
      then (none, delete_verification v s)
      else (some v, s)
]

unfoldable pub find_verification_by_state : String → ℕ → Store → Option VerificationSession × Store
unfolding find_verification
find_verification_by_state state now s = elim (get state s.verification_id_by_state) [
  | none ↦ (none, s)
  | some session_id ↦ find_verification session_id now s
]

unfoldable pub find_verification_by_encryption_kid :
    String → ℕ → Store → Option VerificationSession × Store
unfolding find_verification
find_verification_by_encryption_kid kid now s = elim (get kid s.verification_id_by_enc_kid) [
  | none ↦ (none, s)
  | some session_id ↦ find_verification session_id now s
]

-- A write through the pointer that `find_verification` found under `session_id`.
unfoldable pub write_back :
    String
    → Option VerificationSession × Store
    → (VerificationSession → VerificationSession)
    → Store
write_back session_id (none, s) f = s
write_back session_id (some v, s) f = record s {
  verifications = put session_id (f v) s.verifications;
}

unfoldable pub update_verification_status : String → String → ℕ → Store → Store
unfolding find_verification write_back
update_verification_status session_id status now s =
    write_back session_id (find_verification session_id now s) λ v. record v { status = status }

unfoldable pub update_verification_result :
    String → String → Assoc String → Assoc (Assoc Json) → String → String → ℕ → Store → Store
unfolding find_verification write_back
update_verification_result session_id status vp_tokens claims subject_id verify_err now s =
    write_back session_id (find_verification session_id now s) λ v. record v {
      status = status;
      vp_tokens = vp_tokens;
      verified_claims = claims;
      subject_id = subject_id;
      error = verify_err;
    }
