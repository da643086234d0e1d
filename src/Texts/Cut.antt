-- ===== src/Texts/Cut.antt =====
-- Cutting a text and putting it together again.
use Prim.Native.Char.{Char}
use Prim.Native.String.{◌∷◌, []}
use text.Mathlib.TextLemmas.{cons-append, nil-append, append-nil}
use fikua_lab_idp.Prelude.{
  ◌≡◌, refl, sym, ap, ◌∙◌, subst, inl, inr, String, true, false, none, some, List, ◌++◌, ◌==◌, ◌<>◌,
  All, arith, eq_of_test, Bool-cases, eq_refl, List-cases, all_but_last, all_but_last-snoc,
}
use fikua_lab_idp.Texts.{split, put_first, up_to_last, lacks, terminated}

module _ (a : Char) where
  abbrev sep : String
  sep = a ∷ []

  cons_as_append : (c : Char) (s : String) → (c ∷ []) <> s ≡ c ∷ s
  cons_as_append c s = simp (cons-append, nil-append)

  pub split-lacks : (s : String) → lacks sep s ≡ true → split sep s ≡ List.◌∷◌ s List.[]
  unfolding split lacks put_first
  split-lacks [] h = refl
  split-lacks (c ∷ s) h = elim (Bool-cases (c ∷ [] == sep)) [
    | inl e ↦ absurd (ground arith)
    | inr e ↦ ground (arith, split-lacks s, cons_as_append c s)
  ]

  split_of_sep : (s : String) → split sep (sep <> s) ≡ List.◌∷◌ "" (split sep s)
  unfolding split
  split_of_sep s = rw cons_as_append (ground (arith, eq_refl sep))

  pub split-front :
      (p s : String) → lacks sep p ≡ true → split sep (p <> (sep <> s)) ≡ List.◌∷◌ p (split sep s)
  unfolding split lacks put_first
  split-front [] s h = rw nil-append (split_of_sep s)
  split-front (c ∷ p) s h = elim (Bool-cases (c ∷ [] == sep)) [
    | inl e ↦ absurd (ground arith)
    | inr e ↦ rw cons-append (ground (arith, split-front p s, cons_as_append c p))
  ]

  abbrev pub Lack : List String → Type 0
  Lack parts = All (λ part. lacks sep part ≡ true) parts

  pub split-terminated :
      (parts : List String) (last : String)
      → Lack parts
      → lacks sep last ≡ true
      → split sep (terminated sep parts last) ≡ parts ++ List.◌∷◌ last List.[]
  unfolding terminated
  split-terminated List.[] last hs h = split-lacks last h
  split-terminated (List.◌∷◌ part parts) last hs h =
      split-front part (terminated sep parts last) hs.0
      ∙ ap (List.◌∷◌ part) (split-terminated parts last hs.1 h)

  up_to_last-lacks : (s : String) → lacks sep s ≡ true → up_to_last sep s ≡ none
  unfolding up_to_last lacks
  up_to_last-lacks [] h = refl
  up_to_last-lacks (c ∷ s) h = ground (arith, up_to_last-lacks s)

  up_to_last-front :
      (p s front : String)
      → up_to_last sep s ≡ some front
      → up_to_last sep (p <> s) ≡ some (p <> front)
  unfolding up_to_last
  up_to_last-front [] s front h = rw nil-append (rw nil-append h)
  up_to_last-front (c ∷ p) s front h =
      rw cons-append
        (rw cons-append (ground (arith, up_to_last-front p s front, cons_as_append c (p <> front))))

  up_to_last_of_sep : (s : String) → lacks sep s ≡ true → up_to_last sep (a ∷ s) ≡ some sep
  unfolding up_to_last
  up_to_last_of_sep s h = ground (arith, up_to_last-lacks s h, eq_refl sep)

  pub up_to_last-terminated :
      (part : String) (parts : List String) (last : String)
      → lacks sep last ≡ true
      → up_to_last sep (terminated sep (List.◌∷◌ part parts) last)
        ≡ some (terminated sep (List.◌∷◌ part parts) "")
  unfolding terminated
  up_to_last-terminated part List.[] last h =
      up_to_last-front part (sep <> last) (sep <> "")
        (rw cons_as_append (rw append-nil (up_to_last_of_sep last h)))
  up_to_last-terminated part (List.◌∷◌ next parts) last h =
      up_to_last-front part (sep <> terminated sep (List.◌∷◌ next parts) last)
        (sep <> terminated sep (List.◌∷◌ next parts) "")
        (up_to_last-front sep (terminated sep (List.◌∷◌ next parts) last)
          (terminated sep (List.◌∷◌ next parts) "") (up_to_last-terminated next parts last h))

  -- Every text is parts without the separator, each with one behind it, and a last.
  pub record Cut (s : String) : Type 0 where
    pub parts : List String
    pub last : String
    pub spells : s ≡ terminated sep parts last
    pub parts_lack : Lack parts
    pub last_lacks : lacks sep last ≡ true

  longer : (c : Char) {s : String} → (c ∷ [] == sep) ≡ false → Cut s → Cut (c ∷ s)
  unfolding terminated lacks
  longer c {s} e r = elim (List-cases r.parts) [
    | inl none_before ↦ record {
      parts = List.[];
      last = c ∷ r.last;
      spells = ap (λ t. c ∷ t) (r.spells ∙ ap (λ ps. terminated sep ps r.last) none_before);
      parts_lack = tt;
      last_lacks = ground (arith, r.last_lacks);
    }
    | inr (part, parts, before) ↦ record {
      parts = List.◌∷◌ (c ∷ part) parts;
      last = r.last;
      spells =
          ap (λ t. c ∷ t) (r.spells ∙ ap (λ ps. terminated sep ps r.last) before)
          ∙ sym (cons-append c part (sep <> terminated sep parts r.last));
      parts_lack = let lack = subst Lack before r.parts_lack in (ground (arith, lack.0), lack.1);
      last_lacks = r.last_lacks;
    }
  ]

  pub cut : (s : String) → Cut s
  unfolding terminated lacks
  cut [] = record { parts = List.[]; last = ""; spells = refl; parts_lack = tt; last_lacks = refl }
  cut (c ∷ s) = elim (Bool-cases (c ∷ [] == sep)) [
    | inr e ↦ longer c e (cut s)
    | inl e ↦
        let r = cut s in
        record {
          parts = List.◌∷◌ "" r.parts;
          last = r.last;
          spells =
              ap (λ t. c ∷ t) r.spells
              ∙ sym (cons_as_append c (terminated sep r.parts r.last))
              ∙ ap (λ x. x <> terminated sep r.parts r.last) (eq_of_test (c ∷ []) sep e)
              ∙ sym (nil-append (sep <> terminated sep r.parts r.last));
          parts_lack = (refl, r.parts_lack);
          last_lacks = r.last_lacks;
        }
  ]

  pub split-Cut : (s : String) (r : Cut s) → split sep s ≡ r.parts ++ List.◌∷◌ r.last List.[]
  split-Cut s r =
      ap (split sep) r.spells ∙ split-terminated r.parts r.last r.parts_lack r.last_lacks

  -- Parts that spell the same text are the same.
  pub terminated-injective :
      (parts others : List String)
      → Lack parts
      → Lack others
      → terminated sep parts "" ≡ terminated sep others ""
      → parts ≡ others
  unfolding lacks
  terminated-injective parts others hs ks same =
      let split_same =
        sym (split-terminated parts "" hs refl)
        ∙ ap (split sep) same
        ∙ split-terminated others "" ks refl in
      sym (all_but_last-snoc parts "") ∙ ap all_but_last split_same ∙ all_but_last-snoc others ""
