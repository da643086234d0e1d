-- ===== src/StatusList/Entries.antt =====
-- Which entry of a status list internal/statuslistcheck reads.
use fikua_lab_idp.Prelude.{
  String, ℕ, zero, suc, ◌+◌, ◌*◌, ◌/◌, ◌%◌, ◌^◌, ◌<◌, ◌≡◌, refl, sym, ap, ◌∙◌, ◌≢◌, ◌⊎◌, Option,
  none, some, List, [], ◌∷◌, ◌++◌, arith, Option-cases, inl, inr, Bool-cases, nat_eq,
}
use fikua_lab_idp.Assoc.{Assoc}
use fikua_lab_idp.Json.{Json}
use fikua_lab_idp.Action.{ok, Result-cases}
use fikua_lab_idp.StatusList.{
  Network, StatusListRef, get_elem?, entry_at, bits_per_entry, bits_at, bits_of, string_at,
  status_valid, decompress_lst, status_at, fetch, check_valid,
}

-- The entries of two bits that a byte holds, from its low end.
abbrev pub entries_of_byte : ℕ → List ℕ
entries_of_byte b = b % 4 ∷ (b / 4) % 4 ∷ (b / 16) % 4 ∷ (b / 64) % 4 ∷ []

unfoldable pub entries_of : List ℕ → List ℕ
entries_of [] = []
entries_of (b ∷ raw) = entries_of_byte b ++ entries_of raw

abbrev pick : ℕ → Option ℕ → Option ℕ
pick offset none = none
pick offset (some b) = some ((b / 2 ^ offset) % 4)

pick_lem :
    (idx : ℕ) (raw : List ℕ)
    → get_elem? idx (entries_of raw) ≡ pick (idx * 2 % 8) (get_elem? (idx * 2 / 8) raw)
unfolding get_elem? entries_of
pick_lem idx [] = refl
pick_lem zero (b ∷ raw) = ap some (omega arith)
pick_lem (suc zero) (b ∷ raw) = refl
pick_lem (suc (suc zero)) (b ∷ raw) = refl
pick_lem (suc (suc (suc zero))) (b ∷ raw) = refl
pick_lem (suc (suc (suc (suc i)))) (b ∷ raw) =
    let q : suc (suc (suc (suc i))) * 2 / 8 ≡ suc (i * 2 / 8) = omega arith in
    let r : suc (suc (suc (suc i))) * 2 % 8 ≡ i * 2 % 8 = omega arith in rw (q, r) (pick_lem i raw)

-- For every index below 2 ^ 62, the code reads the entry at that index of the list, of two bits
-- each, that the bytes hold, and finds it out of range exactly where that list has none.
pub entry_at-entries :
    (idx : ℕ) (raw : List ℕ)
    → idx < 2 ^ 62
    → entry_at idx bits_per_entry raw ≡ get_elem? idx (entries_of raw)
unfolding entry_at bits_at
entry_at-entries idx raw small =
    let p : (idx * 2) % 2 ^ 64 ≡ idx * 2 = omega arith in
    let h = pick_lem idx raw in
    elim (Option-cases (get_elem? (idx * 2 / 8) raw)) [
      | inl e ↦ ground (arith, p, h, e)
      | inr (b, e) ↦ ground (arith, p, h, e)
    ]

-- An index whose bit position does not fit into 64 bits wraps around: with four bits per entry,
-- the index 2 ^ 62 + i reads the entry i.
pub entry_at_wraps :
    (i : ℕ) (raw : List ℕ) → i < 2 ^ 61 → entry_at (2 ^ 62 + i) 4 raw ≡ entry_at i 4 raw
unfolding entry_at
entry_at_wraps i raw small =
    let p : ((2 ^ 62 + i) * 4) % 2 ^ 64 ≡ (i * 4) % 2 ^ 64 = omega arith in
    ap (λ n. bits_at n 4 raw) p

-- The list that was fetched from the reference's URI with status 200 holds the status VALID at the
-- reference's index among its entries of two bits, unless it declares another width.
pub record IsValidEntry (net : Network) (ref : StatusListRef) : Type 0 where
  pub token : String
  pub claim : Assoc Json
  pub lst : String
  pub raw : List ℕ
  pub served : net.send ref.uri ≡ ok (200, ok token)
  pub has_list : net.status_list token ≡ ok claim
  pub has_lst : string_at "lst" claim ≡ some lst
  pub inflates : decompress_lst net lst ≡ ok raw
  pub entry_is_valid :
      (bits_of claim ≢ bits_per_entry) ⊎ (get_elem? ref.idx (entries_of raw) ≡ some status_valid)

status_at_sound :
    (net : Network) (token : String) (idx status : ℕ)
    → status_at net token idx ≡ ok status
    → (claim : Assoc Json) × (lst : String) × (raw : List ℕ) × (net.status_list token ≡ ok claim)
      × (string_at "lst" claim ≡ some lst)
      × (decompress_lst net lst ≡ ok raw)
      × (entry_at idx (bits_of claim) raw ≡ some status)
unfolding status_at
status_at_sound net token idx status h = elim (Result-cases (net.parse_token token)) [
  | inr (x, p) ↦ absurd (ground arith)
  | inl (u, p) ↦ elim (Result-cases (net.status_list token)) [
    | inr (x, q) ↦ absurd (ground arith)
    | inl (claim, q) ↦ elim (Option-cases (string_at "lst" claim)) [
      | inl e ↦ absurd (ground arith)
      | inr (lst, e) ↦ elim (Result-cases (decompress_lst net lst)) [
        | inr (x, d) ↦ absurd (ground arith)
        | inl (raw, d) ↦ elim (Option-cases (entry_at idx (bits_of claim) raw)) [
          | inl f ↦ absurd (ground arith)
          | inr (b, f) ↦ (claim, lst, raw, q, e, d, ground arith)
        ]
      ]
    ]
  ]
]

two_bits :
    (idx bits : ℕ) (raw : List ℕ) (status : ℕ)
    → idx < 2 ^ 62
    → entry_at idx bits raw ≡ some status
    → (bits ≢ bits_per_entry) ⊎ (get_elem? idx (entries_of raw) ≡ some status)
two_bits idx bits raw status small h = elim (Bool-cases (nat_eq bits bits_per_entry)) [
  | inr other ↦ inl (ground arith)
  | inl two ↦
      inr (
        sym (entry_at-entries idx raw small)
        ∙ ap (λ b. entry_at idx b raw) (sym (ground arith))
        ∙ h)
]

-- Whenever `CheckValid` accepts a reference with an index below 2^62, its URI served, with status
-- 200, a token whose list inflates to bytes that hold, where the list does not declare another
-- width than two bits, VALID as the entry of that index: counting four entries a byte, from the low
-- bits up.
pub check_valid_sound :
    (net : Network) (ref : StatusListRef) (u : Unit {0})
    → ref.idx < 2 ^ 62
    → check_valid net ref ≡ ok u
    → IsValidEntry net ref
unfolding check_valid fetch
check_valid_sound net ref u small h = elim (Result-cases (net.build ref.uri)) [
  | inr (x, p) ↦ absurd (ground arith)
  | inl (w, p) ↦ elim (Result-cases (net.send ref.uri)) [
    | inr (x, q) ↦ absurd (ground arith)
    | inl ((code, body), q) ↦ elim (Result-cases body) [
      | inr (x, b) ↦ absurd (ground arith)
      | inl (token, b) ↦ elim (Result-cases (status_at net token ref.idx)) [
        | inr (x, a) ↦ absurd (ground arith)
        | inl (status, a) ↦
            let (claim, lst, raw, c, e, d, f) = status_at_sound net token ref.idx status a in
            record {
              token = token;
              claim = claim;
              lst = lst;
              raw = raw;
              served = ground (arith, q, b);
              has_list = c;
              has_lst = e;
              inflates = d;
              entry_is_valid =
                  two_bits ref.idx (bits_of claim) raw status_valid small (ground (arith, f));
            }
      ]
    ]
  ]
]
