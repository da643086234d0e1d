-- ===== src/OidcClients/Tests.antt =====
-- A registry, loaded as internal/oidcclients/registry.go loads it.
use fikua_lab_idp.Prelude.{◌≡◌, refl, String, [], ◌∷◌, elem, ◌==◌, if◌then◌else◌}
use fikua_lab_idp.Texts.{split}
use fikua_lab_idp.Assoc.{get, put}
use fikua_lab_idp.Action.{ok, err}
use fikua_lab_idp.OidcClients.{
  Files, Document, Client, CredentialScope, Registry, load, contains_scope,
}
use fikua_lab_idp.OidcClients.Scopes.{contains_scope-split}
use fikua_lab_idp.OidcClients.Loaded.{IsLoaded, load_sound}

abbrev decidim : Client
decidim = record {
  client_id = "decidim";
  token_endpoint_auth_method = "none";
  redirect_uris = "https://decidim/callback" ∷ [];
  scope = "openid profile";
}

abbrev padro : CredentialScope
padro = record { name = "padro"; credential_type = "urn:padro"; claims = [] }

abbrev document : Document
document = record { clients = decidim ∷ []; credential_scopes = padro ∷ [] }

abbrev files : Files
files = record {
  read = λ path. ok path;
  unmarshal = λ s.
      if s == "twice"
      then ok (record { clients = decidim ∷ decidim ∷ []; credential_scopes = [] })
      else ok document;
  quote = λ s. s;
}

abbrev pub registry : Registry
registry = record { clients = ("decidim", decidim) ∷ []; credential_scopes = ("padro", padro) ∷ [] }

loads : load files "clients.yaml" ≡ ok registry
unfolding load get put
loads = refl

refuses_twice : load files "twice" ≡ err "oidcclients: duplicate client_id decidim"
unfolding load get put
refuses_twice = refl

load_sound_example :
    (data_read : String) × (doc : Document) × (files.read "clients.yaml" ≡ ok data_read)
    × (files.unmarshal data_read ≡ ok doc)
    × IsLoaded files doc registry
load_sound_example = load_sound files "clients.yaml" registry loads

contains_scope-split_example :
    contains_scope "openid profile" "openid" ≡ elem "openid" (split " " "openid profile")
contains_scope-split_example = contains_scope-split "openid profile" "openid"
