-- ===== src/Verifier/Types.antt =====
-- internal/verifier/service.go: the service's requests and results, and what it calls.
use fikua_lab_idp.Prelude.{ℕ, String, Option, List, []}
use fikua_lab_idp.Assoc.{Assoc}
use fikua_lab_idp.Json.{Json}
use fikua_lab_idp.Action.{Result, Action}
use fikua_lab_idp.Session.Types.{Store, ResponseEncryptionKey}
use fikua_lab_idp.OAuth2.Error.{Exception}
use fikua_lab_idp.StatusList.{Network}

abbrev pub api_prefix : String
api_prefix = "/oid4vp/v1"

abbrev pub format_sd_jwt_vc : String
format_sd_jwt_vc = "dc+sd-jwt"

abbrev pub format_mso_mdoc : String
format_mso_mdoc = "mso_mdoc"

abbrev pub response_type_vp_token : String
response_type_vp_token = "vp_token"

abbrev pub response_mode_direct_post_jwt : String
response_mode_direct_post_jwt = "direct_post.jwt"

pub record CredentialRequest : Type 0 where
  pub id : String
  pub credential_type : String
  pub claims : List String
  pub format : String

pub record CreateSessionResult : Type 0 where
  pub session_id : String
  pub request_uri : String
  pub client_id : String
  pub state : String

-- A wallet's response: `response` set for direct_post.jwt, or `vp_token` and `state`.
pub record ResponseRequest : Type 0 where
  pub vp_token : String
  pub state : String
  pub response : String

pub record VpResult : Type 0 where
  pub status : String
  pub claims : Assoc Json
  pub error : String
  pub error_description : String

abbrev pub success_result : Assoc Json → VpResult
success_result claims = record {
  status = "success";
  claims = claims;
  error = "";
  error_description = "";
}

abbrev pub error_result : String → String → VpResult
error_result code description = record {
  status = "error";
  claims = [];
  error = code;
  error_description = description;
}

-- `sdjwtverify.Result`. A nil map is the empty one, and a nil key is `none`.
pub record SdJwtResult (Key : Type 0) : Type 0 where
  pub claims : Assoc Json
  pub status : Assoc Json
  pub holder_key : Option Key

-- What the Verifier asks of internal/sdjwtverify and internal/mdocverify: the two functions that
-- check one presentation. `Key` is `jwk.Key`; a text on the left of a `Result` is the error's.
pub record Presentations (Key : Type 0) : Type 0 where
  -- `VerifyWithStatus(presentation, aud, nonce)`: the result, and the error if there is one
  pub verify_with_status : String → String → String → SdJwtResult Key × Option String
  -- `Verify(token, docType, clientID, nonce, thumbprint, responseURI, nil)`
  pub verify_mdoc :
      String → String → String → String → Option String → String → Result String (Assoc Json)

-- The functions of the JWE, JWK, JSON and text libraries.
pub record Library (Key : Type 0) : Type 0 where
  -- `jwe.ParseString` and the `kid` of the protected headers, empty where there is none
  pub jwe_kid : String → Result String String
  -- `key.Decrypt(jwe)`
  pub decrypt : ResponseEncryptionKey → String → Result String String
  -- `json.Unmarshal` into `vp_token` and `state`
  pub read_payload : String → Result String (Json × String)
  -- `json.Unmarshal` into an `any`
  pub unmarshal : String → Option Json
  -- `key.Thumbprint(SHA256)`, base64url
  pub thumbprint : Key → Result String String
  -- `key.ThumbprintSHA256()` of the response encryption key
  pub encryption_thumbprint : ResponseEncryptionKey → Result String String
  -- SHA-256 of a text, in hexadecimal
  pub sha256_hex : String → String
  -- `%q`
  pub quote : String → String
  -- `strings.ToLower(strings.TrimSpace(s))`
  pub normalise : String → String

-- The orders in which `range` visits the map of holder keys, in the loop that compares them and in the
-- one that takes the subject of the first, and the map of claims: this one depends on the time of
-- the call, as a later loop over the same map may take another order.
pub record Service (Key : Type 0) : Type 0 where
  pub base_url : String
  pub response_mode : String
  pub library : Library Key
  pub presentations : Presentations Key
  pub network : Network
  pub visit_keys : Assoc Key → Assoc Key
  pub visit_holders : Assoc Key → Assoc Key
  pub visit_claims : ℕ → Assoc (Assoc Json) → Assoc (Assoc Json)

abbrev pub Endpoint : Type 0 → Type 0
Endpoint A = Action Store Exception A
