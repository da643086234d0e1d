-- ===== src/Verifier/Create.antt =====
-- internal/verifier/service.go and requestobject.go: `CreateSession`.
use fikua_lab_idp.Prelude.{
  ℕ, String, Bool, true, false, ◌||◌, Option, none, some, List, [], ◌∷◌, ◌==◌, ◌<>◌, if◌then◌else◌,
}
use fikua_lab_idp.Json.{Json}
use fikua_lab_idp.Action.{Result, ok, err, Action, pure, lift, steps, reject_if, ◌>>=◌, ◌>>◌}
use fikua_lab_idp.Session.Types.{
  Store, VerificationSession, DcqlQuery, DcqlCredentialQuery, ResponseEncryptionKey,
}
use fikua_lab_idp.Session.Verifications.{store_verification}
use fikua_lab_idp.Verifier.Types.{
  Service, CredentialRequest, CreateSessionResult, api_prefix, response_type_vp_token,
  response_mode_direct_post_jwt, format_mso_mdoc, format_sd_jwt_vc,
}
use fikua_lab_idp.Verifier.Tokens.{build_dcql_query}

-- `vp_formats_supported` has an entry, the same for every session, for each format that is asked
-- for; an encrypted response adds the public key and the encryption methods.
pub record ClientMetadata : Type 0 where
  pub supports_mdoc : Bool
  pub supports_sd_jwt_vc : Bool
  pub jwk : Option Json

pub record AuthorizationRequest : Type 0 where
  pub response_type : String
  pub client_id : String
  pub response_mode : String
  pub response_uri : String
  pub nonce : String
  pub state : String
  pub dcql_query : DcqlQuery
  pub client_metadata : ClientMetadata
  pub audience : String
  pub issuer : String

-- The signing key, a remote service, and the new response encryption key.
pub record Signer : Type 0 where
  -- SHA-256 of the leaf certificate, base64url, where there is one
  pub leaf_hash : Option String
  -- `GenerateResponseEncryptionKey` and `PublicJWK`
  pub generate : Result String ResponseEncryptionKey
  pub public_jwk : ResponseEncryptionKey → Result String Json
  -- `signRequestObject`: the JWT of a request
  pub sign : AuthorizationRequest → Result String String

pub record Draws : Type 0 where
  pub session_id : String
  pub state : String
  pub nonce : String

unfoldable pub cert_hash : Option String → Result String String
cert_hash none =
    err "verifier: x509_hash client_id requires a certificate, but the signing key has no x5c chain"
cert_hash (some hash) = ok ("x509_hash:" <> hash)

abbrev asks_for : String → List DcqlCredentialQuery → Bool
asks_for format [] = false
asks_for format (c ∷ rest) = c.format == format || asks_for format rest

module _ {Key : Type 0} (svc : Service Key) (signer : Signer) where
  abbrev pub new_key : Result String (Option ResponseEncryptionKey)
  new_key =
      if svc.response_mode == response_mode_direct_post_jwt
      then (elim signer.generate [ err reason ↦ err reason | ok key ↦ ok (some key) ])
      else ok none

  -- With no key, Go panics.
  abbrev public_jwk_of : Option ResponseEncryptionKey → Result String (Option Json)
  public_jwk_of none = err "panic: nil response encryption key"
  public_jwk_of (some key) = elim (signer.public_jwk key) [
    | err reason ↦ err reason
    | ok jwk ↦ ok (some jwk)
  ]

  abbrev published_jwk : Option ResponseEncryptionKey → Result String (Option Json)
  published_jwk encryption_key =
      if svc.response_mode == response_mode_direct_post_jwt
      then public_jwk_of encryption_key
      else ok none

  unfoldable pub build_client_metadata :
      DcqlQuery → Option ResponseEncryptionKey → Result String ClientMetadata
  build_client_metadata dcql encryption_key = elim (published_jwk encryption_key) [
    | err reason ↦ err reason
    | ok jwk ↦ ok (record {
      supports_mdoc = asks_for format_mso_mdoc dcql.credentials;
      supports_sd_jwt_vc = asks_for format_sd_jwt_vc dcql.credentials;
      jwk = jwk;
    })
  ]

  abbrev pub authorization_request :
      Draws → List CredentialRequest → String → ClientMetadata → AuthorizationRequest
  authorization_request draws credentials client_id client_metadata = record {
    response_type = response_type_vp_token;
    client_id = client_id;
    response_mode = svc.response_mode;
    response_uri = svc.base_url <> api_prefix <> "/response";
    nonce = draws.nonce;
    state = draws.state;
    dcql_query = build_dcql_query svc.library.normalise credentials;
    client_metadata = client_metadata;
    audience = "https://self-issued.me/v2";
    issuer = client_id;
  }

  abbrev pub new_session :
      Draws
      → List CredentialRequest
      → String
      → String
      → Option ResponseEncryptionKey
      → VerificationSession
  new_session draws credentials client_id request_jwt encryption_key = record {
    session_id = draws.session_id;
    state = draws.state;
    nonce = draws.nonce;
    dcql_query = build_dcql_query svc.library.normalise credentials;
    response_mode = svc.response_mode;
    client_id = client_id;
    response_uri = svc.base_url <> api_prefix <> "/response";
    request_jwt = request_jwt;
    encryption_key = encryption_key;
    status = "pending";
    vp_tokens = [];
    verified_claims = [];
    subject_id = "";
    error = "";
    created_at = 0;
  }

  abbrev is_nil : List CredentialRequest → Bool
  is_nil [] = true
  is_nil (c ∷ rest) = false

  unfoldable pub create_session :
      ℕ → Draws → List CredentialRequest → Action Store String CreateSessionResult
  unfolding cert_hash build_client_metadata
  create_session now draws credentials = do
    reject_if (is_nil credentials) "verifier: CreateSession requires at least one credential"
    client_id ← lift (cert_hash signer.leaf_hash)
    encryption_key ← lift new_key
    client_metadata ←
        lift (
          build_client_metadata (build_dcql_query svc.library.normalise credentials) encryption_key)
    request_jwt ←
        lift (signer.sign (authorization_request draws credentials client_id client_metadata))
    steps (λ s. (
      tt,
      store_verification (new_session draws credentials client_id request_jwt encryption_key) now s,
    ))
    pure (record {
      session_id = draws.session_id;
      request_uri = svc.base_url <> api_prefix <> "/request/" <> draws.session_id;
      client_id = client_id;
      state = draws.state;
    })
