-- ===== src/OAuth2/Dpop.antt =====
-- internal/oauth2/dpop.go: validation of DPoP proofs.
pub mod Laws
use Prim.Native.Char.{code}
use Prim.Native.String.{◌∷◌, []}
use mathlib.Core.List
use fikua_lab_idp.Prelude.{
  ℕ, ◌+◌, ◌-◌, ◌*◌, String, Bool, true, false, not, ◌&&◌, ◌||◌, Option, none, some, List, ltb, leb,
  nat_eq, ◌==◌, ◌/=◌, is_empty, ◌<>◌, if◌then◌else◌, length, minute,
}
use fikua_lab_idp.Action.{
  Result, ok, err, Action, pure, fail, lift, steps, or_fail, reject_if, ◌>>=◌, ◌>>◌,
}
use fikua_lab_idp.OAuth2.Error.{Exception, bad_request, invalid_request}
use fikua_lab_idp.OAuth2.Jose.{Jose, Message, Claims, Url}
use fikua_lab_idp.OAuth2.Jti.{JtiStore, accept}

abbrev pub dpop_iat_window : ℕ
dpop_iat_window = 5 * minute

abbrev pub bad : String → Exception
bad description = bad_request invalid_request description

-- The values of the request's DPoP headers, in order.
unfoldable pub single_dpop_header : List String → Result Exception String
single_dpop_header List.[] = ok ""
single_dpop_header (List.◌∷◌ v List.[]) = ok v
single_dpop_header (List.◌∷◌ v (List.◌∷◌ w rest)) =
    err (bad "Multiple DPoP headers are not allowed")

-- The code points of a text. Bytes of UTF-8 below 128 stand for themselves and no others contain
-- one, so two texts are equal up to ASCII case as bytes just when they are as code points.
abbrev pub codes : String → List ℕ
codes [] = List.[]
codes (c ∷ s) = List.◌∷◌ (code c) (codes s)

-- `if 'A' <= c && c <= 'Z' { c += 'a' - 'A' }`
unfoldable pub lower_ascii : ℕ → ℕ
lower_ascii c = if leb b'A' c && leb c b'Z' then c + (b'a' - b'A') else c

-- The loop over the indexes, which both texts have in common.
unfoldable pub same_letters : List ℕ → List ℕ → Bool
same_letters (List.◌∷◌ ca a) (List.◌∷◌ cb b) =
    let rest = same_letters a b in if nat_eq (lower_ascii ca) (lower_ascii cb) then rest else false
same_letters _ _ = true

unfoldable pub equal_fold_ascii : List ℕ → List ℕ → Bool
unfolding same_letters
equal_fold_ascii a b = if nat_eq (length a) (length b) then same_letters a b else false

-- `skew > window || skew < -window` for `skew := time.Since(iat)`.
abbrev pub outside : ℕ → ℕ → ℕ → Bool
outside window now iat = ltb window (now - iat) || ltb window (iat - now)

module _ {Key Cert : Type 0} (jose : Jose Key Cert) where
  -- `String()` of a URL after `RawQuery` and `Fragment` were set to the empty text.
  unfoldable pub without_query : Url → String
  without_query u = jose.print_url (record u { raw_query = ""; fragment = "" })

  unfoldable pub htu_matches : String → String → Bool
  unfolding without_query
  htu_matches claimed expected = elim (jose.parse_url claimed) [
    | none ↦ claimed == expected
    | some claimed_url ↦ elim (jose.parse_url expected) [
      | none ↦ claimed == expected
      | some expected_url ↦ without_query claimed_url == without_query expected_url
    ]
  ]

  -- The checks of the proof's protected headers; the key that they carry.
  unfoldable pub check_headers : Message Key → Result Exception Key
  check_headers msg =
      if not (nat_eq msg.signatures 1)
      then err (bad "Invalid DPoP proof: expected exactly one signature")
      else if msg.typ /= "dpop+jwt"
      then err (bad "DPoP typ must be dpop+jwt")
      else elim msg.jwk [
        | none ↦ err (bad "DPoP must contain jwk header")
        | some wallet_jwk ↦
            if jose.has_private_part wallet_jwk
            then err (bad "DPoP jwk header must not contain a private key")
            else if msg.alg /= "ES256"
            then err (bad "DPoP must use ES256")
            else ok wallet_jwk
      ]

  -- The checks of the proof's claims up to its age.
  unfoldable pub check_claims : String → String → ℕ → Claims → Result Exception (Unit {0})
  unfolding equal_fold_ascii htu_matches
  check_claims htm htu now token =
      if not (equal_fold_ascii (codes (token.claim "htm")) (codes htm))
      then err (bad "DPoP htm mismatch")
      else if not (htu_matches (token.claim "htu") htu)
      then err (bad "DPoP htu mismatch")
      else elim token.issued_at [
        | none ↦ err (bad "DPoP proof expired")
        | some iat ↦
            if outside dpop_iat_window now iat then err (bad "DPoP proof expired") else ok tt
      ]

  -- The replay check, which registers the identifier, and then the access token hash.
  unfoldable pub check_replay :
      (List String → List String) → String → Claims → Action JtiStore Exception (Unit {0})
  unfolding accept
  check_replay visit ath token = do
    reject_if (is_empty (token.claim "jti")) (bad "DPoP jti replay detected")
    fresh ← steps (accept visit (token.claim "jti"))
    reject_if (not fresh) (bad "DPoP jti replay detected")
    reject_if (not (is_empty ath) && (token.claim "ath" /= ath)) (bad "DPoP ath mismatch")

  abbrev parsed : Result String (Message Key) → Result Exception (Message Key)
  parsed (ok msg) = ok msg
  parsed (err reason) = err (bad ("Invalid DPoP proof: " <> reason))

  unfoldable pub validate_dpop_proof :
      (List String → List String)
      → ℕ
      → String
      → String
      → String
      → String
      → Action JtiStore Exception Key
  validate_dpop_proof visit now dpop_header htm htu ath = do
    reject_if (is_empty dpop_header) (bad "Missing DPoP proof")
    msg ← lift (parsed (jose.parse dpop_header))
    wallet_jwk ← lift (check_headers msg)
    token ← or_fail (jose.verify dpop_header wallet_jwk) (bad "DPoP signature invalid")
    lift (check_claims htm htu now token)
    check_replay visit ath token
    pure wallet_jwk
