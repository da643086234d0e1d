-- ===== src/SdJwt.antt =====
-- internal/sdjwtverify/verify.go: SD-JWT VC presentations, taken apart and checked.
pub mod Check
mod Signed
mod Decoded
pub mod Sound
mod Complete
pub mod Tests
use fikua_lab_idp.Prelude.{
  ℕ, ◌*◌, String, true, false, Option, none, some, List, [], ◌∷◌, ◌==◌, is_empty, ◌<>◌,
  if◌then◌else◌, all_but_last, last_of, length, minute,
}
use fikua_lab_idp.Texts.{split, trim_right}
use fikua_lab_idp.Assoc.{Assoc, get}
use fikua_lab_idp.Json.{Json, as_text, object_at}
use fikua_lab_idp.Action.{Result, ok, err}
use fikua_lab_idp.Fallible.{◌>>=◌, or_fail, wrapped}

abbrev pub kb_iat_skew : ℕ
kb_iat_skew = 5 * minute

-- What `jws.Parse` gives: how many signatures, the certificate chain of the first one's protected
-- headers, base64 as it stands there (`none` where there is no `x5c`), and the payload.
pub record IssuerMessage : Type 0 where
  pub signatures : ℕ
  pub x5c : Option (List String)
  pub payload : String

-- The claims of a KB-JWT whose signature was verified.
pub record KbToken : Type 0 where
  pub audience : Option (List String)
  pub issued_at : Option ℕ
  -- `token.Get` into a string; empty where the claim is missing or is no text
  pub claim : String → String

-- The functions of the JOSE, X.509, base64, JSON and hash libraries that the package calls. `Key` is
-- `jwk.Key`, `Cert` is `*x509.Certificate` and `EcKey` is `*ecdsa.PublicKey`. A text on the left of a
-- `Result` is the error's; bytes are a text.
pub record Library (Key Cert EcKey : Type 0) : Type 0 where
  -- `jws.Parse`
  pub parse_jws : String → Result String IssuerMessage
  -- `base64.StdEncoding.DecodeString`
  pub decode_base64 : String → Result String String
  -- `x509.ParseCertificate`
  pub parse_certificate : String → Result String Cert
  -- the certificate's public key; on the left what `%T` prints of a key that is not EC
  pub ec_key : Cert → Result String EcKey
  -- `jws.Verify` with ES256: the payload
  pub verify_jws : String → EcKey → Option String
  -- `json.Unmarshal` into a `map[string]any`, and into a `[]any`
  pub unmarshal_object : String → Result String (Assoc Json)
  pub unmarshal_array : String → Result String (List Json)
  -- `json.Marshal` of a map
  pub marshal_object : Assoc Json → Result String String
  -- `jwk.ParseKey`
  pub parse_key : String → Result String Key
  -- `jwt.Parse` with ES256 and the key, and no validation of claims
  pub verify_jwt : String → Key → Option KbToken
  -- `base64.RawURLEncoding.DecodeString`
  pub decode_base64_url : String → Result String String
  -- `base64.RawURLEncoding.EncodeToString(sha256.Sum256(s))`
  pub sha256_base64_url : String → String
  -- `%q`, `%d`, and `%s` of `time.Since(iat).Truncate(time.Second)` for `now` and `iat`
  pub quote : String → String
  pub decimal : ℕ → String
  pub skew_text : ℕ → ℕ → String

-- One decoded disclosure, beside the text that it stood in.
pub record Disclosure : Type 0 where
  pub encoded : String
  pub salt : String
  pub claim_name : String
  pub claim_value : Json

pub record PresentationParts : Type 0 where
  pub issuer_jwt : String
  pub disclosures : List Disclosure
  pub kb_jwt : String

module _ {Key Cert EcKey : Type 0} (lib : Library Key Cert EcKey) where
  abbrev not_three : List Json → Result String Disclosure
  not_three arr = err ("disclosure must be a 3-element array, got " <> lib.decimal (length arr))

  -- The checks of `arr`, the decoded array.
  unfoldable pub read_disclosure : String → List Json → Result String Disclosure
  read_disclosure encoded (salt_value ∷ name_value ∷ value ∷ []) = do
    salt ← or_fail (as_text salt_value) "disclosure salt is not a string"
    name ← or_fail (as_text name_value) "disclosure claim name is not a string"
    ok (record { encoded = encoded; salt = salt; claim_name = name; claim_value = value })
  read_disclosure encoded arr = not_three arr

  unfoldable pub parse_disclosure : String → Result String Disclosure
  unfolding read_disclosure
  parse_disclosure encoded = do
    raw ← wrapped "malformed disclosure: " (lib.decode_base64_url (trim_right "=" encoded))
    arr ← wrapped "malformed disclosure: " (lib.unmarshal_array raw)
    read_disclosure encoded arr

  -- The loop over `parts[1:last]`.
  unfoldable pub parse_disclosures : List String → Result String (List Disclosure)
  unfolding parse_disclosure
  parse_disclosures [] = ok []
  parse_disclosures (encoded ∷ rest) =
      let others = parse_disclosures rest in
      if is_empty encoded
      then others
      else (do d ← parse_disclosure encoded; ds ← others; ok (d ∷ ds))

  abbrev pub too_short : String
  too_short = "malformed SD-JWT: expected at least one '~' separator"

  -- The parts of the presentation, cut at each `~`.
  abbrev pub parse_parts : List String → Result String PresentationParts
  parse_parts (issuer_jwt ∷ part ∷ parts) = do
    disclosures ← parse_disclosures (all_but_last (part ∷ parts))
    ok (record { issuer_jwt = issuer_jwt; disclosures = disclosures; kb_jwt = last_of part parts })
  parse_parts parts = err too_short

  unfoldable pub parse : String → Result String PresentationParts
  unfolding parse_disclosures
  parse presentation = parse_parts (split "~" presentation)

  unfoldable pub digest : Disclosure → String
  digest d = lib.sha256_base64_url d.encoded

-- `status, _ := claims["status"].(map[string]any)`: a nil map where there is none.
abbrev pub status_of : Assoc Json → Assoc Json
status_of claims = elim (object_at "status" claims) [ none ↦ [] | some status ↦ status ]
