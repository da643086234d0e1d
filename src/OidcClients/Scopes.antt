-- ===== src/OidcClients/Scopes.antt =====
-- Scope texts and the scopes that select a credential, for internal/oidcclients/registry.go.
use Prim.Native.String.{◌∷◌, []}
use package.text.Mathlib.TextLemmas.{append_assoc, append-nil, nil-append}
use fikua_lab_idp.Prelude.{
  ◌≡◌, refl, ap, inl, inr, ◌⊎◌, String, Bool, false, ◌||◌, none, some, List, ◌++◌, ◌==◌, ◌<>◌, All,
  elem, arith, Bool-cases, Option-cases,
}
use fikua_lab_idp.Texts.{split, put_first}
use fikua_lab_idp.Assoc.{get}
use fikua_lab_idp.OidcClients.{
  CredentialScope, Registry, contains_from, contains_scope, resolve_credential_scope,
  is_credential_scope,
}

-- The parts, of which the first stands behind a text that was passed already.
abbrev elem_behind : String → String → List String → Bool
elem_behind want passed List.[] = false
elem_behind want passed (List.◌∷◌ part parts) = (passed <> part) == want || elem want parts

split_of_text :
    (s : String) → (part : String) × (parts : List String) × (split " " s ≡ List.◌∷◌ part parts)
unfolding split put_first
split_of_text [] = ("", List.[], refl)
split_of_text (c ∷ s) = elim (Bool-cases (c ∷ [] == " ")) [
  | inl e ↦ ("", split " " s, ground arith)
  | inr e ↦ let (part, parts, p) = split_of_text s in ((c ∷ []) <> part, parts, ground (arith, p))
]

contains_from-split :
    (want passed s : String) → contains_from want passed s ≡ elem_behind want passed (split " " s)
unfolding contains_from split put_first elem
contains_from-split want passed [] = rw append-nil (ground arith)
contains_from-split want passed (c ∷ s) =
    let (part, parts, p) = split_of_text s in
    elim (Bool-cases (c ∷ [] == " ")) [
      | inl e ↦ ground (arith, contains_from-split want "" s, p, append-nil passed, nil-append part)
      | inr e ↦ ground (
        arith,
        contains_from-split want (passed <> (c ∷ [])) s,
        p,
        append_assoc passed (c ∷ []) part,
      )
    ]

-- `containsScope`, which walks the text by index, finds exactly the elements of the text's split at
-- spaces.
pub contains_scope-split :
    (scope want : String) → contains_scope scope want ≡ elem want (split " " scope)
unfolding contains_scope elem
contains_scope-split scope want =
    let (part, parts, p) = split_of_text scope in
    ground (arith, contains_from-split want "" scope, p, nil-append part)

module _ (r : Registry) where
  -- The scope is the first of the request's scopes that is registered.
  pub record IsFirst (scopes : List String) (cs : CredentialScope) : Type 0 where
    pub before : List String
    pub name : String
    pub after : List String
    pub spells : scopes ≡ before ++ List.◌∷◌ name after
    pub none_before : All (λ s. is_credential_scope r s ≡ false) before
    pub registered : get name r.credential_scopes ≡ some cs

  -- A login's credential is the one of the first requested scope that is registered, and there is
  -- none where no requested scope is registered.
  pub resolve-IsFirst :
      (scopes : List String)
      → ((cs : CredentialScope) × (resolve_credential_scope r scopes ≡ some cs) × IsFirst scopes cs)
        ⊎ ((resolve_credential_scope r scopes ≡ none)
            × All (λ s. is_credential_scope r s ≡ false) scopes)
  unfolding resolve_credential_scope is_credential_scope
  resolve-IsFirst List.[] = inr (refl, tt)
  resolve-IsFirst (List.◌∷◌ s scopes) = elim (Option-cases (get s r.credential_scopes)) [
    | inr (cs, e) ↦ inl (
      cs,
      ground arith,
      record {
        before = List.[];
        name = s;
        after = scopes;
        spells = refl;
        none_before = tt;
        registered = e;
      },
    )
    | inl e ↦ elim (resolve-IsFirst scopes) [
      | inr (p, q) ↦ inr (ground arith, (ground arith, q))
      | inl (cs, p, f) ↦ inl (
        cs,
        ground arith,
        record {
          before = List.◌∷◌ s f.before;
          name = f.name;
          after = f.after;
          spells = ap (List.◌∷◌ s) f.spells;
          none_before = (ground arith, f.none_before);
          registered = f.registered;
        },
      )
    ]
  ]
