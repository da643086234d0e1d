-- ===== src/Verifier/Tokens.antt =====
-- internal/verifier/service.go: the query that a session asks, and the shapes of a `vp_token`.
use fikua_lab_idp.Prelude.{
  String, Bool, ◌||◌, Option, none, some, List, [], ◌∷◌, map, ◌==◌, is_empty, if◌then◌else◌,
}
use fikua_lab_idp.Assoc.{Assoc}
use fikua_lab_idp.Json.{Json, Items, text, array, object, nil, cons, entries}
use fikua_lab_idp.Session.Types.{DcqlQuery, DcqlCredentialQuery, DcqlClaimQuery, DcqlCredentialSet}
use fikua_lab_idp.Verifier.Types.{CredentialRequest, format_sd_jwt_vc, format_mso_mdoc}

-- The argument is the format in lower case and trimmed.
unfoldable pub is_mdoc_format : String → Bool
is_mdoc_format format = format == format_mso_mdoc || format == "mdoc" || format == "iso_mdl"

abbrev claim_at : List String → DcqlClaimQuery
claim_at path = record { path = path; values = []; essential = none }

unfoldable pub credential_query : (String → String) → CredentialRequest → DcqlCredentialQuery
unfolding is_mdoc_format
credential_query normalise req =
    if is_mdoc_format (normalise req.format)
    then record {
      id = req.id;
      format = format_mso_mdoc;
      meta = some (record { vct_values = []; doctype_value = req.credential_type });
      claims = map (λ name. claim_at (req.credential_type ∷ name ∷ [])) req.claims;
    }
    else record {
      id = req.id;
      format = format_sd_jwt_vc;
      meta = some (record { vct_values = req.credential_type ∷ []; doctype_value = "" });
      claims = map (λ name. claim_at (name ∷ [])) req.claims;
    }

abbrev all_together : List CredentialRequest → List DcqlCredentialSet
all_together (a ∷ b ∷ rest) = record { options = map (λ r. r.id) (a ∷ b ∷ rest) ∷ [] } ∷ []
all_together _ = []

unfoldable pub build_dcql_query : (String → String) → List CredentialRequest → DcqlQuery
unfolding credential_query
build_dcql_query normalise requests = record {
  credentials = map (credential_query normalise) requests;
  credential_sets = all_together requests;
}

-- The first text of a `vp_token` entry, which may be an array, or empty.
unfoldable mutual
  pub first_of : Json → String
  first_of (text s) = s
  first_of (array xs) = first_item xs
  first_of _ = ""

  pub first_item : Items → String
  first_item nil = ""
  first_item (cons v rest) = first_of v

-- `if object { return decoded }`
abbrev object_or : String → Option Json → Json
object_or s (some (object fs)) = object fs
object_or s _ = text s

unfoldable pub parse_vp_token : (String → Option Json) → Json → Json
parse_vp_token unmarshal (text s) = object_or s (unmarshal s)
parse_vp_token unmarshal raw = raw

-- The loop over the entries of an object.
unfoldable pub tokens_of : Assoc Json → Assoc String
unfolding first_of
tokens_of [] = []
tokens_of ((id, value) ∷ rest) =
    let tokens = tokens_of rest in
    if is_empty (first_of value) then tokens else (id, first_of value) ∷ tokens

abbrev first_token : String → List DcqlCredentialQuery → Option (Assoc String)
first_token v [] = none
first_token v (cred ∷ rest) = if is_empty v then none else some ((cred.id, v) ∷ [])

-- `none` is the nil map.
unfoldable pub all_vp_tokens : Json → DcqlQuery → Option (Assoc String)
unfolding tokens_of entries
all_vp_tokens (text v) query = first_token v query.credentials
all_vp_tokens (object fs) query = some (tokens_of (entries fs))
all_vp_tokens _ query = none
