-- ===== src/Verifier/Examples.antt =====
-- A service, its network, and a session that awaits its response, for the runs of internal/verifier.
use fikua_lab_idp.Prelude.{
  Among, ◌≡◌, ◌≢◌, inl, inr, String, none, some, List, [], ◌∷◌, arith, ne_of_test, Bool-cases,
  eq_iff, ap, ◌==◌, ◌<>◌, if◌then◌else◌,
}
use fikua_lab_idp.Assoc.{Assoc, get, put, delete}
use fikua_lab_idp.Json.{Json, text, number, object, field, end}
use fikua_lab_idp.Action.{ok, err}
use fikua_lab_idp.Session.Types.{Store, VerificationSession, new_store}
use fikua_lab_idp.StatusList.{Network}
use fikua_lab_idp.Verifier.Types.{Service, SdJwtResult, ResponseRequest, CredentialRequest}
use fikua_lab_idp.Verifier.Tokens.{build_dcql_query}
use fikua_lab_idp.Verifier.Holder.{IsVisit}

-- A network whose one list has the entries VALID and INVALID.
abbrev pub net : Network
net = record {
  build = λ uri. ok tt;
  send = λ uri. ok (200, ok uri);
  parse_token = λ token. ok tt;
  status_list = λ token. ok (("lst", text "list") ∷ []);
  decode = λ lst. ok (4 ∷ []);
  open_stream = λ raw. ok raw;
  inflate = λ raw. ok raw;
  to_int64 = λ n. n;
  decimal = λ n. "n";
}

-- The presentation "revoked" has the second entry of the list, and any other the first.
abbrev pub status_of : String → Assoc Json
status_of token =
    (
      "status_list",
      object (
          field "idx" (number (if token == "revoked" then 1 else 0))
            (field "uri" (text "lists/1") end)),
    )
    ∷ []

abbrev pub sd_jwt : String → SdJwtResult String
sd_jwt token = record {
  claims = ("given_name", text token) ∷ [];
  status = status_of token;
  holder_key = some "holder";
}

-- An order in which `range` may visit a map: each key once, with the entry that `get` finds.
abbrev pub first_of_each : Assoc String → Assoc String
first_of_each [] = []
first_of_each ((k, v) ∷ m) = put k v (first_of_each m)

Among-delete :
    (k id v : String) (m : Assoc String) → k ≢ id → Among (id, v) m → Among (id, v) (delete k m)
unfolding delete
Among-delete k id v [] other h = absurd h
Among-delete k id v ((j, w) ∷ m) other (inl e) = elim (Bool-cases (j == k)) [
  | inl y ↦ absurd (ground (arith, eq_iff j k, ap (λ p. p.0) e))
  | inr n ↦ rw n (inl e)
]
Among-delete k id v ((j, w) ∷ m) other (inr h) = elim (Bool-cases (j == k)) [
  | inl y ↦ rw y (Among-delete k id v m other h)
  | inr n ↦ rw n (inr (Among-delete k id v m other h))
]

Among-delete_inv :
    (k id v : String) (m : Assoc String) → Among (id, v) (delete k m) → (k ≢ id) × Among (id, v) m
unfolding delete
Among-delete_inv k id v [] h = absurd h
Among-delete_inv k id v ((j, w) ∷ m) h = elim (Bool-cases (j == k)) [
  | inl y ↦ let ih = Among-delete_inv k id v m (rw y at h) in (ih.0, inr ih.1)
  | inr n ↦ elim (rw n at h) [
    | inl e ↦ ((λ same. ground (arith, eq_iff j k, ap (λ p. p.0) e)), inl e)
    | inr g ↦ let ih = Among-delete_inv k id v m g in (ih.0, inr ih.1)
  ]
]

visits_all :
    (m : Assoc String) (id v : String) → get id m ≡ some v → Among (id, v) (first_of_each m)
unfolding get put
visits_all [] id v h = absurd (ground arith)
visits_all ((k, w) ∷ m) id v h = elim (Bool-cases (k == id)) [
  | inl y ↦ inl (ground (arith, eq_iff k id))
  | inr n ↦
      inr (
        Among-delete k id v (first_of_each m) (ne_of_test k id n)
          (visits_all m id v (ground arith)))
]

visits_held :
    (m : Assoc String) (id v : String) → Among (id, v) (first_of_each m) → get id m ≡ some v
unfolding get put
visits_held [] id v h = absurd h
visits_held ((k, w) ∷ m) id v (inl e) =
    ground (arith, eq_iff k id, ap (λ p. p.0) e, ap (λ p. p.1) e)
visits_held ((k, w) ∷ m) id v (inr h) =
    let g = Among-delete_inv k id v (first_of_each m) h in
    ground (arith, visits_held m id v g.1, g.0, eq_iff k id)

abbrev pub svc : Service String
svc = record {
  base_url = "https://verifier";
  response_mode = "direct_post.jwt";
  library = record {
    jwe_kid = λ jwe. ok "kid";
    decrypt = λ key jwe. ok jwe;
    read_payload = λ plaintext. ok (text plaintext, "st");
    unmarshal = λ s. none;
    thumbprint = λ key. ok "#";
    encryption_thumbprint = λ key. ok key.kid;
    sha256_hex = λ s. "sha256:" <> s;
    quote = λ s. s;
    normalise = λ s. s;
  };
  presentations = record {
    verify_with_status = λ token aud nonce. (sd_jwt token, none);
    verify_mdoc = λ token doc_type client_id nonce thumbprint response_uri. err "mdoc";
  };
  network = net;
  visit_keys = first_of_each;
  visit_holders = first_of_each;
  visit_claims = λ now m. m;
}

abbrev pub credentials : List CredentialRequest
credentials =
    record {
      id = "pid";
      credential_type = "urn:pid";
      claims = "given_name" ∷ [];
      format = "dc+sd-jwt";
    }
    ∷ []

abbrev pub session : VerificationSession
session = record {
  session_id = "v1";
  state = "st";
  nonce = "n";
  dcql_query = build_dcql_query (λ s. s) credentials;
  response_mode = "direct_post.jwt";
  client_id = "x509_hash:abc";
  response_uri = "https://verifier/oid4vp/v1/response";
  request_jwt = "jwt";
  encryption_key = some (record { private_key = "private"; kid = "kid" });
  status = "request_sent";
  vp_tokens = [];
  verified_claims = [];
  subject_id = "";
  error = "";
  created_at = 0;
}

abbrev pub asked : Store
asked = record new_store {
  verifications = ("v1", session) ∷ [];
  verification_id_by_state = ("st", "v1") ∷ [];
  verification_id_by_enc_kid = ("kid", "v1") ∷ [];
}

abbrev pub encrypted : ResponseRequest
encrypted = record { vp_token = ""; state = ""; response = "token" }

pub keys_visited : IsVisit svc.visit_keys × IsVisit svc.visit_holders
keys_visited = (
  record { all_visited = visits_all; only_held = visits_held },
  record { all_visited = visits_all; only_held = visits_held },
)
