-- ===== src/Session/Types.antt =====
-- internal/session/store.go: the entries, their lifetimes and the `Store`. Times are nanoseconds.
use fikua_lab_idp.Prelude.{ℕ, ◌*◌, String, Bool, Option, List, [], second, minute}
use fikua_lab_idp.Assoc.{Assoc}
use fikua_lab_idp.Json.{Json}

-- The form parameters of a request.
abbrev pub Params : Type 0
Params = Assoc String

-- `Metadata` only ever holds texts (see `auth_code_metadata` of internal/authz).
pub record Data : Type 0 where
  pub session_id : String
  pub created_at : ℕ
  pub metadata : Assoc String

pub record ParRequestEntry : Type 0 where
  pub params : Params
  pub created_at : ℕ

pub record IdentifyReplayEntry : Type 0 where
  pub redirect : String
  pub expiry : ℕ

pub record IdentifiedSessionEntry : Type 0 where
  pub request_uri : String
  pub record_id : String
  pub params : Params
  pub created_at : ℕ

pub record DcqlClaimQuery : Type 0 where
  pub path : List String
  pub values : List String
  pub essential : Option Bool

pub record DcqlMeta : Type 0 where
  pub vct_values : List String
  pub doctype_value : String

pub record DcqlCredentialQuery : Type 0 where
  pub id : String
  pub format : String
  pub meta : Option DcqlMeta
  pub claims : List DcqlClaimQuery

pub record DcqlCredentialSet : Type 0 where
  pub options : List (List String)

pub record DcqlQuery : Type 0 where
  pub credentials : List DcqlCredentialQuery
  pub credential_sets : List DcqlCredentialSet

-- The parts of `crypto.ResponseEncryptionKey` that the store and the Verifier read: its `kid`, and
-- the private half as an opaque handle that the decryption takes.
pub record ResponseEncryptionKey : Type 0 where
  pub private_key : String
  pub kid : String

pub record VerificationSession : Type 0 where
  pub session_id : String
  pub state : String
  pub nonce : String
  pub dcql_query : DcqlQuery
  pub response_mode : String
  pub client_id : String
  pub response_uri : String
  pub request_jwt : String
  pub encryption_key : Option ResponseEncryptionKey
  pub status : String
  pub vp_tokens : Assoc String
  pub verified_claims : Assoc (Assoc Json)
  pub subject_id : String
  pub error : String
  pub created_at : ℕ

abbrev pub verification_session_ttl : ℕ
verification_session_ttl = 5 * minute

abbrev pub par_request_ttl : ℕ
par_request_ttl = 60 * second

abbrev pub auth_code_ttl : ℕ
auth_code_ttl = 60 * second

abbrev pub revoked_jti_retention : ℕ
revoked_jti_retention = 10 * minute

abbrev pub identified_session_ttl : ℕ
identified_session_ttl = 10 * minute

abbrev pub identify_replay_ttl : ℕ
identify_replay_ttl = 120 * second

-- A `*VerificationSession` is reached through `verifications` alone, so the map holds the value and
-- a write through the pointer puts it back.
pub record Store : Type 0 where
  pub par_requests : Assoc ParRequestEntry
  pub auth_codes : Assoc Data
  pub pending_auth : Assoc Params
  pub identify_replay : Assoc IdentifyReplayEntry
  pub identified_sessions : Assoc IdentifiedSessionEntry
  pub issued_jti_by_code : Assoc String
  pub revoked_jtis : Assoc ℕ
  pub verifications : Assoc VerificationSession
  pub verification_id_by_state : Assoc String
  pub verification_id_by_enc_kid : Assoc String

unfoldable pub new_store : Store
new_store = record {
  par_requests = [];
  auth_codes = [];
  pending_auth = [];
  identify_replay = [];
  identified_sessions = [];
  issued_jti_by_code = [];
  revoked_jtis = [];
  verifications = [];
  verification_id_by_state = [];
  verification_id_by_enc_kid = [];
}
