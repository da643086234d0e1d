-- ===== src/OidcClients/Loaded.antt =====
-- What internal/oidcclients/registry.go loads.
use fikua_lab_idp.Prelude.{
  Among, ◌≡◌, ◌≢◌, ◌↔◌, sym, ap, ◌∙◌, subst, inl, inr, ◌⊎◌, String, true, false, none, some, List,
  [], ◌∷◌, ◌==◌, elem, arith, eq_iff, eq_of_test, Bool-cases,
}
use fikua_lab_idp.Texts.{split}
use fikua_lab_idp.Assoc.{Assoc, get, put, get-put, get-put_self, get-empty}
use fikua_lab_idp.Action.{ok, Result-cases}
use fikua_lab_idp.OidcClients.{
  Files, Document, Client, CredentialScope, Registry, validate_client, validate_credential_scope,
  load_clients, load_credential_scopes, load, lookup, is_standard,
}
use fikua_lab_idp.OidcClients.Scopes.{contains_scope-split}

-- A public client with a redirect URI and the scope `openid`.
pub record IsValidClient (c : Client) : Type 0 where
  pub named : c.client_id ≢ ""
  pub public_client : c.token_endpoint_auth_method ≡ "none"
  pub redirects : c.redirect_uris ≢ []
  pub openid : elem "openid" (split " " c.scope) ≡ true

pub record IsValidScope (cs : CredentialScope) : Type 0 where
  pub named : cs.name ≢ ""
  pub typed : cs.credential_type ≢ ""
  pub not_standard : is_standard cs.name ≡ false

-- Entries put one by one under their keys, none of which was held before.
module _ {V : Type 0} (key : V → String) (IsValid : V → Type 0) where
  record AreAdded (vs : List V) (before after : Assoc V) : Type 0 where
    valid : (v : V) → Among v vs → IsValid v
    added : (v : V) → Among v vs → get (key v) after ≡ some v
    kept : (k : String) (v : V) → get k before ≡ some v → get k after ≡ some v
    only :
        (k : String) (v : V)
        → get k after ≡ some v
        → (get k before ≡ some v) ⊎ (Among v vs × (key v ≡ k))

  add_none : (before after : Assoc V) → before ≡ after → AreAdded [] before after
  add_none before after same = record {
    valid = λ v m. absurd m;
    added = λ v m. absurd m;
    kept = λ k v e. ground (arith, same);
    only = λ k v e. inl (ground (arith, same));
  }

  add_one :
      (v : V) (vs : List V) (before after : Assoc V)
      → IsValid v
      → get (key v) before ≡ none
      → AreAdded vs (put (key v) v before) after
      → AreAdded (v ∷ vs) before after
  add_one v vs before after ok_v fresh rest = record {
    valid = λ w m. elim m [ inl e ↦ subst IsValid e ok_v | inr m ↦ rest.valid w m ];
    added = λ w m. elim m [
      | inr m ↦ rest.added w m
      | inl e ↦
          subst (λ w. get (key w) after ≡ some w) e
            (rest.kept (key v) v (get-put_self (key v) v before))
    ];
    kept = λ k w e. rest.kept k w (ground (arith, get-put (key v) k v before, eq_iff (key v) k));
    only = λ k w e. elim (rest.only k w e) [
      | inr (m, n) ↦ inr (inr m, n)
      | inl p ↦ elim (Bool-cases (key v == k)) [
        | inr other ↦ inl (ground (arith, get-put (key v) k v before))
        | inl same ↦
            let it : v ≡ w = ground (arith, get-put (key v) k v before) in
            inr (inl it, ap key (sym it) ∙ eq_of_test (key v) k same)
      ]
    ];
  }

module _ (files : Files) where
  valid_client : (c : Client) (u : Unit {0}) → validate_client files c ≡ ok u → IsValidClient c
  unfolding validate_client
  valid_client c u h = record {
    named = ground (arith, eq_iff c.client_id "");
    public_client = ground (arith, eq_iff c.token_endpoint_auth_method "none");
    redirects = ground arith;
    openid = ground (arith, contains_scope-split c.scope "openid");
  }

  load_clients_sound :
      (cs : List Client) (before after : Assoc Client)
      → load_clients files cs before ≡ ok after
      → AreAdded (λ c. c.client_id) IsValidClient cs before after
  unfolding load_clients
  load_clients_sound [] before after h =
      add_none (λ c. c.client_id) IsValidClient before after (ground arith)
  load_clients_sound (c ∷ cs) before after h = elim (Result-cases (validate_client files c)) [
    | inr (x, v) ↦ absurd (ground arith)
    | inl (u, v) ↦
        add_one (λ c. c.client_id) IsValidClient c cs before after (valid_client c u v)
          (ground arith) (load_clients_sound cs (put c.client_id c before) after (ground arith))
  ]

  load_credential_scopes_sound :
      (cs : List CredentialScope) (before after : Assoc CredentialScope)
      → load_credential_scopes files cs before ≡ ok after
      → AreAdded (λ c. c.name) IsValidScope cs before after
  unfolding load_credential_scopes validate_credential_scope
  load_credential_scopes_sound [] before after h =
      add_none (λ c. c.name) IsValidScope before after (ground arith)
  load_credential_scopes_sound (c ∷ cs) before after h =
      add_one (λ c. c.name) IsValidScope c cs before after
        (record {
          named = ground (arith, eq_iff c.name "");
          typed = ground (arith, eq_iff c.credential_type "");
          not_standard = ground arith;
        })
        (ground arith) (load_credential_scopes_sound cs (put c.name c before) after (ground arith))

  -- The registry holds the document's entries, each valid, under their own names, and nothing else.
  pub record IsLoaded (doc : Document) (r : Registry) : Type 0 where
    pub clients_valid : (c : Client) → Among c doc.clients → IsValidClient c
    pub scopes_valid : (cs : CredentialScope) → Among cs doc.credential_scopes → IsValidScope cs
    pub clients_held :
        (id : String) (c : Client)
        → (lookup r id ≡ some c) ↔ (Among c doc.clients × (c.client_id ≡ id))
    pub scopes_held :
        (name : String) (cs : CredentialScope)
        → (get name r.credential_scopes ≡ some cs)
          ↔ (Among cs doc.credential_scopes × (cs.name ≡ name))

  held_iff :
      {V : Type 0} (key : V → String) (IsValid : V → Type 0) (vs : List V) (m : Assoc V)
      → AreAdded key IsValid vs [] m
      → (k : String) (v : V) → (get k m ≡ some v) ↔ (Among v vs × (key v ≡ k))
  held_iff {V} key IsValid vs m all k v = (
    λ e. elim (all.only k v e) [ inl h ↦ absurd (ground (arith, get-empty {V = V} k)) | inr h ↦ h ],
    λ h. subst (λ k. get k m ≡ some v) h.1 (all.added v h.0),
  )

  -- A registry that loads holds exactly the clients and the scopes of the document, each under its
  -- own name: every client has a name, the authentication method "none", a redirect URI and the
  -- scope "openid"; every scope has a name that is none of openid, offline_access,
  -- profile and email, and a credential type.
  pub load_sound :
      (path : String) (r : Registry)
      → load files path ≡ ok r
      → (data_read : String) × (doc : Document) × (files.read path ≡ ok data_read)
        × (files.unmarshal data_read ≡ ok doc)
        × IsLoaded doc r
  unfolding load lookup
  load_sound path r h = elim (Result-cases (files.read path)) [
    | inr (x, a) ↦ absurd (ground arith)
    | inl (data_read, a) ↦ elim (Result-cases (files.unmarshal data_read)) [
      | inr (x, b) ↦ absurd (ground arith)
      | inl (doc, b) ↦ elim (Result-cases (load_clients files doc.clients [])) [
        | inr (x, c) ↦ absurd (ground arith)
        | inl (clients, c) ↦
            elim (Result-cases (load_credential_scopes files doc.credential_scopes [])) [
              | inr (x, d) ↦ absurd (ground arith)
              | inl (scopes, d) ↦
                  let clients_in = load_clients_sound doc.clients [] clients c in
                  let scopes_in = load_credential_scopes_sound doc.credential_scopes [] scopes d in
                  let it : record { clients = clients; credential_scopes = scopes } ≡ r =
                    ground arith in
                  (
                    data_read,
                    doc,
                    a,
                    b,
                    subst (IsLoaded doc) it (record {
                      clients_valid = clients_in.valid;
                      scopes_valid = scopes_in.valid;
                      clients_held =
                          held_iff (λ c. c.client_id) IsValidClient doc.clients clients clients_in;
                      scopes_held =
                          held_iff (λ c. c.name) IsValidScope doc.credential_scopes scopes
                            scopes_in;
                    }),
                  )
            ]
      ]
    ]
  ]
