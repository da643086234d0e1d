-- ===== src/OidcClients.antt =====
-- internal/oidcclients/registry.go: the Relying Parties and the scopes that select a credential.
pub mod Scopes
pub mod Loaded
pub mod Tests
use Prim.Native.String.{◌∷◌, []}
use fikua_lab_idp.Prelude.{
  String, Bool, true, false, not, ◌||◌, Option, none, some, List, ◌==◌, ◌/=◌, is_empty, ◌<>◌,
  if◌then◌else◌,
}
use fikua_lab_idp.Assoc.{Assoc, get, put}
use fikua_lab_idp.Action.{Result, ok, err}
use fikua_lab_idp.Fallible.{◌>>=◌, ◌>>◌, reject_if, wrapped}

pub record Client : Type 0 where
  pub client_id : String
  pub token_endpoint_auth_method : String
  pub redirect_uris : List String
  pub scope : String

pub record CredentialScope : Type 0 where
  pub name : String
  pub credential_type : String
  pub claims : List String

pub record Registry : Type 0 where
  pub clients : Assoc Client
  pub credential_scopes : Assoc CredentialScope

-- What the YAML file holds.
pub record Document : Type 0 where
  pub clients : List Client
  pub credential_scopes : List CredentialScope

-- `os.ReadFile`, then `yaml.Unmarshal`; and `%q`. A text on the left of a `Result` is the error's.
pub record Files : Type 0 where
  pub read : String → Result String String
  pub unmarshal : String → Result String Document
  pub quote : String → String

-- The loop of `containsScope`, with the text `scope[start:i]` that it has passed since the last
-- space.
unfoldable pub contains_from : String → String → String → Bool
contains_from want passed [] = passed == want
contains_from want passed (c ∷ rest) = elim (c ∷ [] == " ") [
  | true ↦ passed == want || contains_from want "" rest
  | false ↦ contains_from want (passed <> (c ∷ [])) rest
]

unfoldable pub contains_scope : String → String → Bool
unfolding contains_from
contains_scope scope want = contains_from want "" scope

abbrev is_held : {V : Type 0} → Option V → Bool
is_held none = false
is_held (some v) = true

abbrev pub is_standard : String → Bool
is_standard name =
    name == "openid" || name == "offline_access" || name == "profile" || name == "email"

abbrev none_of : List String → Bool
none_of List.[] = true
none_of (List.◌∷◌ x xs) = false

module _ (files : Files) where
  unfoldable pub validate_client : Client → Result String (Unit {0})
  unfolding contains_scope
  validate_client c = do
    reject_if (is_empty c.client_id) "client_id is required"
    reject_if (c.token_endpoint_auth_method /= "none") (
        "token_endpoint_auth_method must be \"none\" (public client + PKCE) — "
        <> files.quote c.token_endpoint_auth_method
        <> " is not supported")
    reject_if (none_of c.redirect_uris) "redirect_uris must list at least one URI"
    reject_if (not (contains_scope c.scope "openid")) "scope must include \"openid\""

  unfoldable pub validate_credential_scope : CredentialScope → Result String (Unit {0})
  validate_credential_scope cs = do
    reject_if (is_empty cs.name) "name is required"
    reject_if (is_empty cs.credential_type) "credential_type is required"

  -- The loop over the clients.
  unfoldable pub load_clients : List Client → Assoc Client → Result String (Assoc Client)
  unfolding validate_client
  load_clients List.[] clients = ok clients
  load_clients (List.◌∷◌ c cs) clients = do
    wrapped ("oidcclients: client " <> files.quote c.client_id <> ": ") (validate_client c)
    reject_if (is_held (get c.client_id clients))
        ("oidcclients: duplicate client_id " <> files.quote c.client_id)
    load_clients cs (put c.client_id c clients)

  -- The loop over the scopes.
  unfoldable pub load_credential_scopes :
      List CredentialScope → Assoc CredentialScope → Result String (Assoc CredentialScope)
  unfolding validate_credential_scope
  load_credential_scopes List.[] scopes = ok scopes
  load_credential_scopes (List.◌∷◌ cs rest) scopes = do
    wrapped ("oidcclients: credential scope " <> files.quote cs.name <> ": ")
        (validate_credential_scope cs)
    reject_if (is_held (get cs.name scopes))
        ("oidcclients: duplicate credential scope name " <> files.quote cs.name)
    reject_if (is_standard cs.name) (
        "oidcclients: credential scope "
        <> files.quote cs.name
        <> " collides with a standard OIDC scope name")
    load_credential_scopes rest (put cs.name cs scopes)

  unfoldable pub load : String → Result String Registry
  unfolding load_clients load_credential_scopes
  load path = do
    data_read ← wrapped ("oidcclients: reading " <> path <> ": ") (files.read path)
    doc ← wrapped ("oidcclients: parsing " <> path <> ": ") (files.unmarshal data_read)
    clients ← load_clients doc.clients List.[]
    credential_scopes ← load_credential_scopes doc.credential_scopes List.[]
    ok (record { clients = clients; credential_scopes = credential_scopes })

unfoldable pub lookup : Registry → String → Option Client
lookup r client_id = get client_id r.clients

-- The first of the scopes that is registered.
unfoldable pub resolve_credential_scope : Registry → List String → Option CredentialScope
resolve_credential_scope r List.[] = none
resolve_credential_scope r (List.◌∷◌ s scopes) =
    let rest = resolve_credential_scope r scopes in
    elim (get s r.credential_scopes) [ none ↦ rest | some cs ↦ some cs ]

unfoldable pub is_credential_scope : Registry → String → Bool
is_credential_scope r scope = is_held (get scope r.credential_scopes)
