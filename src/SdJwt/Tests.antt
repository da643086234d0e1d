-- ===== src/SdJwt/Tests.antt =====
-- Presentations as internal/sdjwtverify/verify.go accepts and refuses them.
use package.text.Mathlib.TextLemmas.{append_cancel_left}
use fikua_lab_idp.Prelude.{
  ◌≡◌, ◌↔◌, refl, String, true, none, some, [], ◌∷◌, ◌==◌, ◌<>◌, if◌then◌else◌, ne_of_test, elem,
}
use fikua_lab_idp.Texts.{split, up_to_last, trim_right}
use fikua_lab_idp.Assoc.{Assoc, get, put}
use fikua_lab_idp.Json.{
  Json, text, array, object, cons, nil, field, end, as_text, as_array, as_object,
}
use fikua_lab_idp.Action.{ok, err}
use fikua_lab_idp.Verifier.Types.{SdJwtResult}
use fikua_lab_idp.SdJwt.{
  Library, PresentationParts, Disclosure, KbToken, IssuerMessage, parse, parse_disclosures,
  parse_disclosure, read_disclosure, digest, status_of,
}
use fikua_lab_idp.SdJwt.Check.{
  verify_with_status, compute_sd_hash, committed_digests, claims_from, cnf_key,
}
use fikua_lab_idp.SdJwt.Signed.{IsIssuerSigned, IsKeyBound}
use fikua_lab_idp.SdJwt.Decoded.{IsSpelled}
use fikua_lab_idp.SdJwt.Sound.{IsPresented, verify_with_status_sound}
use fikua_lab_idp.SdJwt.Complete.{
  parse-IsSpelled_iff, sd_hash_fixes_content, verify_with_status_complete,
}

abbrev pub holder_jwk : Json
holder_jwk = object (field "kty" (text "EC") end)

abbrev pub signed_claims : Assoc Json
signed_claims =
    ("_sd", array (cons (text "#d1") (cons (text "#d2") nil)))
    ∷ ("cnf", object (field "jwk" holder_jwk end))
    ∷ []

-- A JWT "issuer" with the claims above, disclosures "d1" and "d2", and a hash that marks its text.
abbrev pub library : Library String String String
library = record {
  parse_jws = λ jwt.
      if jwt == "issuer"
      then ok (record { signatures = 1; x5c = some ("leaf" ∷ []); payload = "payload" })
      else err "no JWS";
  decode_base64 = λ s. ok s;
  parse_certificate = λ der. ok der;
  ec_key = λ cert. ok cert;
  verify_jws = λ jwt key. some "payload";
  unmarshal_object = λ s. if s == "payload" then ok signed_claims else err "no object";
  unmarshal_array = λ s.
      if s == "d1"
      then ok (text "salt" ∷ text "given_name" ∷ text "Ana" ∷ [])
      else if s == "d2"
      then ok (text "salt" ∷ text "age" ∷ text "30" ∷ [])
      else ok (text "short" ∷ []);
  marshal_object = λ m. ok "holder";
  parse_key = λ s. ok s;
  verify_jwt = λ jwt key. some (record {
    audience = some ("x509_hash:abc" ∷ []);
    issued_at = some 1000;
    claim =
        λ name. if name == "nonce" then "n" else if name == "sd_hash" then "#issuer~d1~" else "";
  });
  decode_base64_url = λ s. ok s;
  sha256_base64_url = λ s. "#" <> s;
  quote = λ s. s;
  decimal = λ n. "1";
  skew_text = λ now iat. "";
}

abbrev first_disclosure : Disclosure
first_disclosure = record {
  encoded = "d1";
  salt = "salt";
  claim_name = "given_name";
  claim_value = text "Ana";
}

abbrev parsed : PresentationParts
parsed = record { issuer_jwt = "issuer"; disclosures = first_disclosure ∷ []; kb_jwt = "kb" }

abbrev pub result : SdJwtResult String
result = record {
  claims = ("given_name", text "Ana") ∷ [];
  status = [];
  holder_key = some "holder";
}

parses : parse library "issuer~d1~kb" ≡ ok parsed
unfolding parse split trim_right as_text
parses = refl

accepts : verify_with_status library 1000 "issuer~d1~kb" "x509_hash:abc" "n" ≡ (result, none)
unfolding verify_with_status parse split trim_right as_text fikua_lab_idp.SdJwt.Check.check_digests
    elem committed_digests get as_array digest as_object up_to_last put
accepts = refl

-- A disclosure more than the holder signed.
refuses_more : verify_with_status library 1000 "issuer~d1~d2~kb" "x509_hash:abc" "n" ≡ (
  record { claims = []; status = []; holder_key = none },
  some "KB-JWT sd_hash does not match the presentation",
)
unfolding verify_with_status parse split trim_right as_text fikua_lab_idp.SdJwt.Check.check_digests
    elem committed_digests get as_array digest as_object up_to_last
refuses_more = refl

-- A disclosure that is no array of three.
refuses_short : verify_with_status library 1000 "issuer~d3~kb" "x509_hash:abc" "n" ≡ (
  record { claims = []; status = []; holder_key = none },
  some "disclosure must be a 3-element array, got 1",
)
unfolding verify_with_status parse split trim_right
refuses_short = refl

verify_with_status_sound_example :
    IsPresented library 1000 "issuer~d1~kb" "x509_hash:abc" "n" result
verify_with_status_sound_example =
    verify_with_status_sound library 1000 "issuer~d1~kb" "x509_hash:abc" "n" result accepts

parse-IsSpelled_iff_example :
    (parse library "issuer~d1~kb" ≡ ok parsed) ↔ IsSpelled library "issuer~d1~kb" parsed
parse-IsSpelled_iff_example = parse-IsSpelled_iff library "issuer~d1~kb" parsed

-- The same content with no KB-JWT, and an empty text between two separators.
abbrev unbound : PresentationParts
unbound = record { issuer_jwt = "issuer"; disclosures = first_disclosure ∷ []; kb_jwt = "" }

parses_unbound : parse library "issuer~d1~" ≡ ok unbound
unfolding parse split trim_right as_text
parses_unbound = refl

same_hash : compute_sd_hash library "issuer~d1~kb" ≡ compute_sd_hash library "issuer~d1~"
unfolding compute_sd_hash up_to_last
same_hash = refl

sd_hash_fixes_content_example :
    (parsed.issuer_jwt ≡ unbound.issuer_jwt) × (parsed.disclosures ≡ unbound.disclosures)
sd_hash_fixes_content_example =
    sd_hash_fixes_content library (λ s t e. append_cancel_left "#" s t e) "issuer~d1~kb"
      "issuer~d1~" parsed unbound parses parses_unbound same_hash

abbrev kb_token : KbToken
kb_token = record {
  audience = some ("x509_hash:abc" ∷ []);
  issued_at = some 1000;
  claim = λ name. if name == "nonce" then "n" else if name == "sd_hash" then "#issuer~d1~" else "";
}

signed : IsIssuerSigned library "issuer" signed_claims
signed = record {
  msg = record { signatures = 1; x5c = some ("leaf" ∷ []); payload = "payload" };
  leaf = "leaf";
  rest = [];
  der = "leaf";
  cert = "leaf";
  key = "leaf";
  payload = "payload";
  parses = refl;
  one_signature = refl;
  chain = refl;
  decodes = refl;
  certificate = refl;
  certified_key = refl;
  signed = refl;
  holds = refl;
}

bound : IsKeyBound library 1000 "kb" "issuer~d1~kb" "x509_hash:abc" "n" signed_claims "holder"
unfolding cnf_key compute_sd_hash get as_object up_to_last
bound = record {
  token = kb_token;
  iat = 1000;
  present = ne_of_test "kb" "" refl;
  bound_key = refl;
  signed = refl;
  audience = refl;
  nonce = refl;
  sd_hash = refl;
  issued = refl;
  fresh = refl;
}

committed : elem (digest library first_disclosure) (committed_digests signed_claims) ≡ true
unfolding digest committed_digests elem get as_array as_text
committed = refl

verify_with_status_complete_example :
    verify_with_status library 1000 "issuer~d1~kb" "x509_hash:abc" "n" ≡ (
      record {
        claims = claims_from (first_disclosure ∷ []) [];
        status = status_of signed_claims;
        holder_key = some "holder";
      },
      none,
    )
verify_with_status_complete_example =
    verify_with_status_complete library 1000 "issuer~d1~kb" "x509_hash:abc" "n" parsed signed_claims
      "holder" ((parse-IsSpelled_iff library "issuer~d1~kb" parsed).0 parses) signed (committed, tt)
      bound
