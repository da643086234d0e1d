-- ===== src/OAuth2/Token.antt =====
-- internal/oauth2/token.go and pkce.go: token requests, PKCE and RFC 9068 access tokens.
use fikua_lab_idp.Prelude.{
  ℕ, ◌+◌, ◌*◌, ◌/◌, String, Bool, List, [], ◌∷◌, Option, none, some, ◌==◌, is_empty, if◌then◌else◌,
  second, minute,
}
use fikua_lab_idp.Assoc.{Assoc, text_at}
use fikua_lab_idp.Action.{Result, ok, err}
use fikua_lab_idp.OAuth2.Jose.{Jose}

abbrev pub authorization_code_grant_type : String
authorization_code_grant_type = "authorization_code"

abbrev pub access_token_ttl : ℕ
access_token_ttl = 5 * minute

abbrev pub access_token_type : String
access_token_type = "at+jwt"

pub record TokenRequest : Type 0 where
  pub grant_type : String
  pub code : String
  pub redirect_uri : String
  pub code_verifier : String
  pub client_id : String
  pub client_assertion_type : String
  pub client_assertion : String

unfoldable pub token_request_from_form : Assoc String → TokenRequest
unfolding text_at
token_request_from_form form = record {
  grant_type = text_at "grant_type" form;
  code = text_at "code" form;
  redirect_uri = text_at "redirect_uri" form;
  code_verifier = text_at "code_verifier" form;
  client_id = text_at "client_id" form;
  client_assertion_type = text_at "client_assertion_type" form;
  client_assertion = text_at "client_assertion" form;
}

unfoldable pub is_authorization_code : TokenRequest → Bool
is_authorization_code r = r.grant_type == authorization_code_grant_type

pub record TokenResponse : Type 0 where
  pub access_token : String
  pub token_type : String
  pub expires_in : ℕ

pub record AccessTokenClaims (Key : Type 0) : Type 0 where
  pub issuance_record_id : String
  pub c_nonce : String
  pub client_id : String
  pub dpop_key : Key

-- The JWT that `Mint` builds: the protected headers and the claims.
pub record AccessToken : Type 0 where
  pub typ : String
  pub kid : String
  pub iss : String
  pub aud : List String
  pub iat : ℕ
  pub exp : ℕ
  pub jti : String
  pub sub : String
  pub client_id : String
  pub jkt : String
  pub issuance_record_id : String
  pub c_nonce : Option String

-- The signer and the identifiers of this server. `sign` is `builder.Build` and `jwt.Sign`.
pub record Minter : Type 0 where
  pub kid : String
  pub issuer : String
  pub audience : String
  pub sign : AccessToken → Result String String

module _ {Key Cert : Type 0} (jose : Jose Key Cert) where
  unfoldable pub compute_s256_challenge : String → String
  compute_s256_challenge code_verifier = jose.sha256 code_verifier

  unfoldable pub verify_pkce_s256 : String → String → Bool
  unfolding compute_s256_challenge
  verify_pkce_s256 code_verifier stored_challenge =
      compute_s256_challenge code_verifier == stored_challenge

  -- The claims of a token minted at `now`, for a key with this thumbprint.
  unfoldable pub access_token : Minter → ℕ → String → String → AccessTokenClaims Key → AccessToken
  access_token m now jti thumbprint claims = record {
    typ = access_token_type;
    kid = m.kid;
    iss = m.issuer;
    aud = m.audience ∷ [];
    iat = now;
    exp = now + access_token_ttl;
    jti = jti;
    sub = claims.client_id;
    client_id = claims.client_id;
    jkt = thumbprint;
    issuance_record_id = claims.issuance_record_id;
    c_nonce = if is_empty claims.c_nonce then none else some claims.c_nonce;
  }

  -- `jti` is the identifier that `RandomJTI` draws, which is returned beside the token.
  unfoldable pub mint :
      Minter → ℕ → String → AccessTokenClaims Key → Result String (String × String)
  unfolding access_token
  mint m now jti claims = elim (jose.thumbprint claims.dpop_key) [
    | err e ↦ err e
    | ok thumbprint ↦ elim (m.sign (access_token m now jti thumbprint claims)) [
      | err e ↦ err e
      | ok signed ↦ ok (signed, jti)
    ]
  ]

unfoldable pub dpop_token : String → TokenResponse
dpop_token access_token = record {
  access_token = access_token;
  token_type = "DPoP";
  expires_in = access_token_ttl / second;
}
