-- ===== src/Mdoc/Elements.antt =====
-- The elements that internal/mdocverify/verify.go collects.
use fikua_lab_idp.Prelude.{
  ◌≡◌, subst, ◌∙◌, inl, inr, String, some, List, [], ◌∷◌, ◌==◌, arith, eq_iff, eq_of_test,
  Bool-cases, Option-cases,
}
use fikua_lab_idp.Assoc.{Assoc, get, put, get-put}
use fikua_lab_idp.Action.{ok, Result-cases}
use fikua_lab_idp.Mdoc.Cbor.{ℤ, Value, bytes, tag, text_of, as_array, as_any_map}
use fikua_lab_idp.Mdoc.Cose.{Library}
use fikua_lab_idp.Mdoc.Transcript.{tag_encoded_cbor}
use fikua_lab_idp.Mdoc.Digests.{
  lookup_digest, digest_id_of, element_value, verify_item, verify_items, verify_name_spaces,
  item_bytes,
}

module _ {Cert EcKey : Type 0} (lib : Library Cert EcKey) (value_digests : Assoc Value) where
  -- The element is that of an item whose tagged encoding has the digest that the issuer's
  -- `valueDigests` hold for the item's namespace and id.
  pub record IsCommitted (name : String) (value : Value) : Type 0 where
    pub ns : String
    pub ns_digests : List (Value × Value)
    pub inner : String
    pub tagged_bytes : String
    pub item : Assoc Value
    pub digest_id : ℤ
    pub digests : as_any_map (get ns value_digests) ≡ some ns_digests
    pub encodes : lib.marshal (tag tag_encoded_cbor (bytes inner)) ≡ ok tagged_bytes
    pub decodes : lib.unmarshal_map inner ≡ ok item
    pub identified : digest_id_of lib item ≡ some digest_id
    pub committed : lookup_digest lib ns_digests digest_id ≡ some (lib.sha256 tagged_bytes)
    pub named : text_of (get "elementIdentifier" item) ≡ name
    pub valued : element_value lib item ≡ value

  item_sound :
      (ns : String) (ns_digests : List (Value × Value)) (raw_item : Value) (name : String)
      (value : Value)
      → as_any_map (get ns value_digests) ≡ some ns_digests
      → verify_item lib ns ns_digests raw_item ≡ ok (name, value)
      → IsCommitted name value
  unfolding verify_item
  item_sound ns ns_digests raw_item name value d h =
      elim (Result-cases (item_bytes lib ns raw_item)) [
        | inr (x, b) ↦ absurd (ground arith)
        | inl (inner, b) ↦ elim (Result-cases (lib.marshal (tag tag_encoded_cbor (bytes inner)))) [
          | inr (x, m) ↦ absurd (ground arith)
          | inl (tagged_bytes, m) ↦ elim (Result-cases (lib.unmarshal_map inner)) [
            | inr (x, u) ↦ absurd (ground arith)
            | inl (item, u) ↦ elim (Option-cases (digest_id_of lib item)) [
              | inl i ↦ absurd (ground arith)
              | inr (digest_id, i) ↦ elim (Option-cases (lookup_digest lib ns_digests digest_id)) [
                | inl l ↦ absurd (ground arith)
                | inr (expected, l) ↦ record {
                  ns = ns;
                  ns_digests = ns_digests;
                  inner = inner;
                  tagged_bytes = tagged_bytes;
                  item = item;
                  digest_id = digest_id;
                  digests = d;
                  encodes = m;
                  decodes = u;
                  identified = i;
                  committed = ground (arith, eq_iff expected (lib.sha256 tagged_bytes));
                  named = ground arith;
                  valued = ground arith;
                }
              ]
            ]
          ]
        ]
      ]

  -- Whatever the map of claims holds is committed.
  abbrev pub AllCommitted : Assoc Value → Type 0
  AllCommitted claims =
      (name : String) (value : Value) → get name claims ≡ some value → IsCommitted name value

  put-AllCommitted :
      (name : String) (value : Value) (claims : Assoc Value)
      → IsCommitted name value
      → AllCommitted claims
      → AllCommitted (put name value claims)
  put-AllCommitted name value claims c all j w h = elim (Bool-cases (name == j)) [
    | inr differ ↦ all j w (ground (arith, get-put name j value claims))
    | inl same ↦ record {
      ns = c.ns;
      ns_digests = c.ns_digests;
      inner = c.inner;
      tagged_bytes = c.tagged_bytes;
      item = c.item;
      digest_id = c.digest_id;
      digests = c.digests;
      encodes = c.encodes;
      decodes = c.decodes;
      identified = c.identified;
      committed = c.committed;
      named = c.named ∙ eq_of_test name j same;
      valued = c.valued ∙ ground (arith, get-put name j value claims);
    }
  ]

  items_sound :
      (ns : String) (ns_digests : List (Value × Value)) (items : List Value)
      (claims out : Assoc Value)
      → as_any_map (get ns value_digests) ≡ some ns_digests
      → AllCommitted claims
      → verify_items lib ns ns_digests items claims ≡ ok out
      → AllCommitted out
  unfolding verify_items
  items_sound ns ns_digests [] claims out d all h = subst AllCommitted (ground arith) all
  items_sound ns ns_digests (raw_item ∷ rest) claims out d all h =
      elim (Result-cases (verify_item lib ns ns_digests raw_item)) [
        | inr (x, v) ↦ absurd (ground arith)
        | inl ((name, value), v) ↦
            items_sound ns ns_digests rest (put name value claims) out d
              (put-AllCommitted name value claims (item_sound ns ns_digests raw_item name value d v)
                all)
              (ground arith)
      ]

  pub name_spaces_sound :
      (name_spaces claims out : Assoc Value)
      → AllCommitted claims
      → verify_name_spaces lib value_digests name_spaces claims ≡ ok out
      → AllCommitted out
  unfolding verify_name_spaces
  name_spaces_sound [] claims out all h = subst AllCommitted (ground arith) all
  name_spaces_sound ((ns, raw_items) ∷ rest) claims out all h =
      elim (Option-cases (as_array (some raw_items))) [
        | inl a ↦ absurd (ground arith)
        | inr (items, a) ↦ elim (Option-cases (as_any_map (get ns value_digests))) [
          | inl d ↦ absurd (ground arith)
          | inr (ns_digests, d) ↦
              elim (Result-cases (verify_items lib ns ns_digests items claims)) [
                | inr (x, v) ↦ absurd (ground arith)
                | inl (collected, v) ↦
                    name_spaces_sound rest collected out
                      (items_sound ns ns_digests items claims collected d all v) (ground arith)
              ]
        ]
      ]
