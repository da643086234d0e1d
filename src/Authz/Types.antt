-- ===== src/Authz/Types.antt =====
-- internal/authz/service.go: the service, the state that its endpoints share, and redirects.
use fikua_lab_idp.Prelude.{String, List, [], ◌∷◌, is_empty, if◌then◌else◌}
use fikua_lab_idp.Assoc.{Assoc, put, text_at}
use fikua_lab_idp.Json.{Json}
use fikua_lab_idp.Action.{Result, ok, err, Action}
use fikua_lab_idp.Session.Types.{Params, Store}
use fikua_lab_idp.OAuth2.Error.{Exception, bad_request, invalid_request}
use fikua_lab_idp.OAuth2.Jose.{Jose}
use fikua_lab_idp.OAuth2.Jti.{JtiStore}
use fikua_lab_idp.OAuth2.Attestation.{Validator}
use fikua_lab_idp.OAuth2.Token.{Minter}

abbrev pub bound_client_id_key : String
bound_client_id_key = "_bound_client_id"

abbrev pub pending_request_uri_key : String
pending_request_uri_key = "_pending_request_uri"

abbrev pub request_uri_prefix : String
request_uri_prefix = "urn:ietf:params:oauth:request_uri:"

-- A parsed redirect URI: its query, and the rest.
pub record Target : Type 0 where
  pub location : String
  pub query : Assoc (List String)

-- `url.Parse` (its error is a text), `URL.String` once the query is encoded, and `url.QueryEscape`.
pub record Urls : Type 0 where
  pub parse : String → Result String Target
  pub print : Target → String
  pub query_escape : String → String

-- `q.Set(key, value)`
unfoldable pub set_query : String → String → Target → Target
set_query key value u = record u { query = put key (value ∷ []) u.query }

-- `visit` is the order in which `range` visits the set of identifiers.
pub record Service (Key Cert : Type 0) : Type 0 where
  pub base_url : String
  pub jose : Jose Key Cert
  pub urls : Urls
  pub minter : Minter
  pub attestations : Validator Cert
  pub visit : List String → List String

pub record State : Type 0 where
  pub sessions : Store
  pub jtis : JtiStore

abbrev pub Endpoint : Type 0 → Type 0
Endpoint A = Action State Exception A

abbrev pub invalid : String → Exception
invalid description = bad_request invalid_request description

-- An action on a part of the state.
abbrev pub on_jtis : {A : Type 0} → Action JtiStore Exception A → Endpoint A
on_jtis m s = let (r, j) = m s.jtis in (r, record s { jtis = j })

abbrev pub on_sessions : {A : Type 0} → (Store → A × Store) → Endpoint A
on_sessions f s = let (a, t) = f s.sessions in (ok a, record s { sessions = t })

abbrev pub update_sessions : (Store → Store) → Endpoint (Unit {0})
update_sessions f s = (ok tt, record s { sessions = f s.sessions })

pub record AuthorizeResult : Type 0 where
  pub code : String
  pub redirect_uri : String
  pub state : String
  pub identify_redirect : String

-- A query parameter that is set where its value is not empty.
abbrev pub set_if_given : String → String → Target → Target
set_if_given key value u = if is_empty value then u else set_query key value u

unfoldable pub build_authorization_redirect : Urls → AuthorizeResult → String → Result String String
unfolding set_query
build_authorization_redirect urls result issuer = elim (urls.parse result.redirect_uri) [
  | err e ↦ err e
  | ok u ↦ ok (
      urls.print (
        set_query "iss" issuer
          (set_if_given "state" result.state (set_query "code" result.code u))))
]

unfoldable pub identified_scope : Params → Result Exception String
unfolding text_at
identified_scope params =
    let scope = text_at "scope" params in
    if is_empty scope
    then err (invalid "Missing scope: cannot determine which credential is being identified for")
    else ok scope

-- internal/issuerclient: the request that records a new issuance.
pub record CreateRequest : Type 0 where
  pub credential_type : String
  pub credential_data : Assoc Json
  pub source_type : String
  pub source_ref : String
