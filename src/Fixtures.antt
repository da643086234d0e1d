-- ===== src/Fixtures.antt =====
-- A concrete set of the outside functions, and a service over them, for the tests of internal/oauth2
-- and internal/authz. Keys and certificates are their own names.
use fikua_lab_idp.Prelude.{
  ℕ, String, false, Option, none, some, [], ◌∷◌, ◌*◌, ◌==◌, ◌<>◌, if◌then◌else◌, second,
}
use fikua_lab_idp.Json.{Json, text}
use fikua_lab_idp.Action.{ok}
use fikua_lab_idp.OAuth2.Jose.{Jose, Message, Claims}
use fikua_lab_idp.OAuth2.Attestation.{Validator}
use fikua_lab_idp.OAuth2.Token.{Minter}
use fikua_lab_idp.Session.Types.{Params, new_store}
use fikua_lab_idp.Authz.Types.{Service, State, Urls}

-- The JWT "chained" has a certificate chain; any other has the key "key" in its header.
abbrev pub headers_of : String → Message String
headers_of jwt = record {
  signatures = 1;
  typ = "dpop+jwt";
  alg = "ES256";
  jwk = some "key";
  x5c = if jwt == "chained" then "leaf" ∷ [] else [];
}

abbrev pub claim_of : String → String → String
claim_of jwt name =
    if name == "htm"
    then "post"
    else if name == "htu"
    then (if jwt == "par-proof" then "as/oid4vci/v1/par" else "as/oid4vci/v1/token")
    else if name == "jti"
    then jwt
    else ""

abbrev pub claims_of : String → Claims
claims_of jwt = record {
  subject = some "wallet";
  audience = "as" ∷ [];
  issued_at = some (100 * second);
  expiration = none;
  claim = claim_of jwt;
  cnf = some (("jwk", text "key") ∷ []);
}

abbrev pub key_of : Json → Option String
key_of (text k) = some k
key_of _ = none

abbrev pub toy_jose : Jose String String
toy_jose = record {
  parse = λ jwt. ok (headers_of jwt);
  verify = λ jwt key. some (claims_of jwt);
  has_private_part = λ key. false;
  thumbprint = λ key. ok key;
  parse_certificate = λ b64. some b64;
  signed_by = λ leaf anchor. leaf == anchor;
  ec_key = λ leaf. some leaf;
  parse_key = key_of;
  parse_url = λ s. some (record { location = s; raw_query = ""; fragment = "" });
  print_url = λ u. u.location;
  sha256 = λ s. "#" <> s;
}

abbrev pub anchored : Validator String
anchored = record { wallet_provider_anchor = some "root"; expected_audience = "as" }

abbrev pub toy_minter : Minter
toy_minter = record {
  kid = "k1";
  issuer = "as";
  audience = "issuer";
  sign = λ t. ok ("jwt:" <> t.jti);
}

abbrev pub toy_urls : Urls
toy_urls = record {
  parse = λ s. ok (record { location = s; query = [] });
  print = λ u. u.location;
  query_escape = λ s. s;
}

abbrev pub toy_service : Service String String
toy_service = record {
  base_url = "as";
  jose = toy_jose;
  urls = toy_urls;
  minter = toy_minter;
  attestations = anchored;
  visit = λ xs. xs;
}

abbrev pub idle : State
idle = record { sessions = new_store; jtis = record { set = [] } }

abbrev pub clock : ℕ
clock = 100 * second

abbrev pub pushed_params : Params
pushed_params =
    ("response_type", "code")
    ∷ ("client_id", "wallet")
    ∷ ("scope", "pid")
    ∷ ("redirect_uri", "cb")
    ∷ ("state", "st")
    ∷ ("code_challenge", "#verifier")
    ∷ ("code_challenge_method", "S256")
    ∷ []
