-- ===== src/SdJwt/Decoded.antt =====
-- A presentation taken apart by internal/sdjwtverify/verify.go.
use fikua_lab_idp.Prelude.{
  ◌≡◌, ◌≢◌, refl, sym, subst, ne_of_test, ap, ◌∙◌, ◌++◌, all_but_last-snoc, last_of-snoc, inl, inr,
  String, true, List, [], ◌∷◌, All, is_empty, arith, eq_of_test, Bool-cases, Option-cases,
  List-cases,
}
use fikua_lab_idp.Texts.{trim_right, terminated, lacks}
use fikua_lab_idp.Texts.Cut.{cut, split-Cut}
use fikua_lab_idp.Json.{Json, as_text}
use fikua_lab_idp.Fallible.{◌>>=◌}
use fikua_lab_idp.Action.{ok, Result-cases}
use fikua_lab_idp.SdJwt.{
  parse_parts, Library, PresentationParts, Disclosure, parse, read_disclosure, parse_disclosure,
  parse_disclosures,
}
use mathlib.Core.Path.{ap₂}

module _ {Key Cert EcKey : Type 0} (lib : Library Key Cert EcKey) where
  encoded_of_read :
      (encoded : String) (arr : List Json) (d : Disclosure)
      → read_disclosure lib encoded arr ≡ ok d
      → d.encoded ≡ encoded
  unfolding read_disclosure as_text
  encoded_of_read encoded [] d h = absurd (ground arith)
  encoded_of_read encoded (s ∷ []) d h = absurd (ground arith)
  encoded_of_read encoded (s ∷ n ∷ []) d h = absurd (ground arith)
  encoded_of_read encoded (s ∷ n ∷ v ∷ []) d h = elim (Option-cases (as_text s)) [
    | inl e ↦ absurd (ground arith)
    | inr (salt, e) ↦ elim (Option-cases (as_text n)) [
      | inl f ↦ absurd (ground arith)
      | inr (name, f) ↦ ground arith
    ]
  ]
  encoded_of_read encoded (s ∷ n ∷ v ∷ w ∷ ws) d h = absurd (ground arith)

  encoded_of_parse :
      (encoded : String) (d : Disclosure)
      → parse_disclosure lib encoded ≡ ok d
      → d.encoded ≡ encoded
  unfolding parse_disclosure
  encoded_of_parse encoded d h =
      elim (Result-cases (lib.decode_base64_url (trim_right "=" encoded))) [
        | inr (x, p) ↦ absurd (ground arith)
        | inl (raw, p) ↦ elim (Result-cases (lib.unmarshal_array raw)) [
          | inr (x, q) ↦ absurd (ground arith)
          | inl (arr, q) ↦ encoded_of_read encoded arr d (ground arith)
        ]
      ]

  -- The parts that are not empty, each decoded.
  pub data IsDecoded : List String → List Disclosure → Type 0 where
    none_left : IsDecoded [] []
    skipped :
        {parts : List String} {ds : List Disclosure}
        → IsDecoded parts ds
        → IsDecoded ("" ∷ parts) ds
    decoded :
        {part : String} {parts : List String} {d : Disclosure} {ds : List Disclosure}
        → part ≢ ""
        → d.encoded ≡ part
        → parse_disclosure lib part ≡ ok d
        → IsDecoded parts ds
        → IsDecoded (part ∷ parts) (d ∷ ds)

  pub parse_disclosures-IsDecoded :
      (parts : List String) (ds : List Disclosure)
      → parse_disclosures lib parts ≡ ok ds
      → IsDecoded parts ds
  unfolding parse_disclosures
  parse_disclosures-IsDecoded [] ds h = subst (IsDecoded []) (ground arith) none_left
  parse_disclosures-IsDecoded (part ∷ parts) ds h = elim (Bool-cases (is_empty part)) [
    | inl e ↦
        subst (λ p. IsDecoded (p ∷ parts) ds) (sym (eq_of_test part "" e))
          (skipped (parse_disclosures-IsDecoded parts ds (ground arith)))
    | inr e ↦ elim (Result-cases (parse_disclosure lib part)) [
      | inr (x, p) ↦ absurd (ground arith)
      | inl (d, p) ↦ elim (Result-cases (parse_disclosures lib parts)) [
        | inr (x, q) ↦ absurd (ground arith)
        | inl (rest, q) ↦ subst (IsDecoded (part ∷ parts)) {x = d ∷ rest} (ground arith) (
            decoded (ne_of_test part "" e) (encoded_of_parse part d p) p
              (parse_disclosures-IsDecoded parts rest q))
      ]
    ]
  ]

  -- What a presentation spells: the issuer's JWT, the disclosures and the KB-JWT, with a `~` between
  -- each two.
  pub record IsSpelled (presentation : String) (parsed : PresentationParts) : Type 0 where
    pub encoded : List String
    pub spells : presentation ≡ terminated "~" (parsed.issuer_jwt ∷ encoded) parsed.kb_jwt
    pub parts_lack : All (λ part. lacks "~" part ≡ true) (parsed.issuer_jwt ∷ encoded)
    pub last_lacks : lacks "~" parsed.kb_jwt ≡ true
    pub disclosures : IsDecoded encoded parsed.disclosures

  abbrev pub parts_of : String → String → List Disclosure → PresentationParts
  parts_of issuer_jwt kb_jwt ds = record {
    issuer_jwt = issuer_jwt;
    disclosures = ds;
    kb_jwt = kb_jwt;
  }

  pub parse_parts-snoc :
      (issuer_jwt : String) (encoded : List String) (kb_jwt : String)
      → parse_parts lib (issuer_jwt ∷ (encoded ++ kb_jwt ∷ []))
        ≡ (parse_disclosures lib encoded >>= λ ds. ok (parts_of issuer_jwt kb_jwt ds))
  parse_parts-snoc issuer_jwt [] kb_jwt = refl
  parse_parts-snoc issuer_jwt (part ∷ parts) kb_jwt =
      ap₂ (λ middle last. parse_disclosures lib middle >>= λ ds. ok (parts_of issuer_jwt last ds))
        (all_but_last-snoc (part ∷ parts) kb_jwt) (last_of-snoc part parts kb_jwt)

  pub parse-IsSpelled :
      (presentation : String) (parsed : PresentationParts)
      → parse lib presentation ≡ ok parsed
      → IsSpelled presentation parsed
  unfolding parse
  parse-IsSpelled presentation parsed h =
      let r = cut "~" presentation in
      let pieces = ap (parse_parts lib) (split-Cut "~" presentation r) in
      elim (List-cases r.parts) [
        | inl e ↦ absurd (ground (arith, pieces, ap (λ ps. parse_parts lib (ps ++ r.last ∷ [])) e))
        | inr (issuer_jwt, encoded, e) ↦
            let taken = parse_parts-snoc issuer_jwt encoded r.last in
            let whole = ap (λ ps. parse_parts lib (ps ++ r.last ∷ [])) e in
            elim (Result-cases (parse_disclosures lib encoded)) [
              | inr (x, p) ↦ absurd (ground (arith, pieces, taken, whole))
              | inl (ds, p) ↦
                  let same : parts_of issuer_jwt r.last ds ≡ parsed =
                    ground (arith, pieces, taken, whole) in
                  subst (IsSpelled presentation) same (record {
                    encoded = encoded;
                    spells = r.spells ∙ ap (λ ps. terminated "~" ps r.last) e;
                    parts_lack = subst (All (λ part. lacks "~" part ≡ true)) e r.parts_lack;
                    last_lacks = r.last_lacks;
                    disclosures = parse_disclosures-IsDecoded encoded ds p;
                  })
            ]
      ]
