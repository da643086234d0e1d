-- ===== src/OAuth2/Jose.antt =====
-- What internal/oauth2 takes from the JOSE, X.509 and URL libraries, which are not part of the
-- repository: the functions it calls, as one record that the model's definitions take.
use fikua_lab_idp.Prelude.{ℕ, String, Bool, Option, List}
use fikua_lab_idp.Assoc.{Assoc}
use fikua_lab_idp.Json.{Json}
use fikua_lab_idp.Action.{Result}

-- What `jws.Parse` gives: how many signatures, and the protected headers of the first.
pub record Message (Key : Type 0) : Type 0 where
  pub signatures : ℕ
  pub typ : String
  pub alg : String
  pub jwk : Option Key
  pub x5c : List String

-- The claims of a JWT whose signature was verified.
pub record Claims : Type 0 where
  pub subject : Option String
  pub audience : List String
  pub issued_at : Option ℕ
  pub expiration : Option ℕ
  -- `token.Get` into a string; empty where the claim is missing or is no text
  pub claim : String → String
  -- `token.Get("cnf", …)` into a map; `none` where it fails or the map is nil
  pub cnf : Option (Assoc Json)

-- A URL, cut into what `RawQuery` and `Fragment` hold and all the rest.
pub record Url : Type 0 where
  pub location : String
  pub raw_query : String
  pub fragment : String

-- `Key` is `jwk.Key`; `Cert` is `*x509.Certificate`. A text on the left of a `Result` is the error's.
pub record Jose (Key Cert : Type 0) : Type 0 where
  -- `jws.Parse`
  pub parse : String → Result String (Message Key)
  -- `jwt.Parse` with ES256 and the key, and no validation of claims
  pub verify : String → Key → Option Claims
  -- `key.Has("d")`
  pub has_private_part : Key → Bool
  -- `key.Thumbprint(SHA256)`, base64url
  pub thumbprint : Key → Result String String
  -- `base64.StdEncoding.DecodeString` then `x509.ParseCertificate`
  pub parse_certificate : String → Option Cert
  -- `leaf.CheckSignatureFrom(anchor)` has no error
  pub signed_by : Cert → Cert → Bool
  -- the certificate's key, where it is an EC key
  pub ec_key : Cert → Option Key
  -- `json.Marshal` then `jwk.ParseKey`
  pub parse_key : Json → Option Key
  -- `url.Parse` and `URL.String`
  pub parse_url : String → Option Url
  pub print_url : Url → String
  -- SHA-256 of a text, base64url
  pub sha256 : String → String
