-- ===== src/StatusList.antt =====
-- internal/statuslistcheck/statuslistcheck.go: the status of a credential in a Token Status List.
pub mod Entries
use fikua_lab_idp.Prelude.{
  ℕ, zero, suc, ◌+◌, ◌-◌, ◌*◌, ◌/◌, ◌%◌, ◌^◌, ◌<◌, String, Bool, true, false, not, Option, none,
  some, List, [], ◌∷◌, ltb, leb, nat_eq, ◌<>◌, is_empty, if◌then◌else◌, length,
}
use fikua_lab_idp.Assoc.{Assoc, get}
use fikua_lab_idp.Json.{object_at, Json, as_text, as_object, as_number}
use fikua_lab_idp.Action.{Result, ok, err}
use fikua_lab_idp.Fallible.{wrapped, or_fail, reject_if, ◌>>=◌, ◌>>◌}

-- The functions of the HTTP, JWT, base64 and zlib libraries; a text on the left is an error's.
pub record Network : Type 0 where
  -- `http.NewRequestWithContext`
  pub build : String → Result String (Unit {0})
  -- `http.DefaultClient.Do`: the status code, and what reading the body gives
  pub send : String → Result String (ℕ × Result String String)
  -- `jwt.Parse` with no verification
  pub parse_token : String → Result String (Unit {0})
  -- `token.Get("status_list", …)` into a map
  pub status_list : String → Result String (Assoc Json)
  -- `base64.RawURLEncoding.DecodeString(strings.TrimSpace(lst))`
  pub decode : String → Result String (List ℕ)
  -- `zlib.NewReader` and `io.ReadAll`
  pub open_stream : List ℕ → Result String (List ℕ)
  pub inflate : List ℕ → Result String (List ℕ)
  -- the 64 bits of `int64(f)`, for the float64 `f` that `encoding/json` makes of this number
  pub to_int64 : ℕ → ℕ
  -- `%d`, of an `int64` by its 64 bits
  pub decimal : ℕ → String

abbrev pub status_valid : ℕ
status_valid = 0

abbrev pub status_invalid : ℕ
status_invalid = 1

abbrev pub status_suspended : ℕ
status_suspended = 2

abbrev pub bits_per_entry : ℕ
bits_per_entry = 2

-- `idx` is an `int64`, by its 64 bits.
pub record StatusListRef : Type 0 where
  pub idx : ℕ
  pub uri : String

abbrev number_at : String → Assoc Json → Option ℕ
number_at key m = elim (get key m) [ none ↦ none | some v ↦ as_number v ]

abbrev pub string_at : String → Assoc Json → Option String
string_at key m = elim (get key m) [ none ↦ none | some v ↦ as_text v ]

unfoldable pub parse_ref : Network → Assoc Json → Option StatusListRef
parse_ref net status = elim (object_at "status_list" status) [
  | none ↦ none
  | some inner ↦ elim (number_at "idx" inner) [
    | none ↦ none
    | some idx ↦ elim (string_at "uri" inner) [
      | none ↦ none
      | some uri ↦
          if is_empty uri then none else some (record { idx = net.to_int64 idx; uri = uri })
    ]
  ]
]

-- `b, ok := claim["bits"].(float64); ok && b > 0`
unfoldable pub bits_of : Assoc Json → ℕ
bits_of claim = elim (number_at "bits" claim) [
  | none ↦ bits_per_entry
  | some b ↦ if ltb 0 b then b else bits_per_entry
]

-- The byte at an index, if the index is in range.
unfoldable pub get_elem? : ℕ → List ℕ → Option ℕ
get_elem? i [] = none
get_elem? zero (b ∷ raw) = some b
get_elem? (suc i) (b ∷ raw) = get_elem? i raw

-- `(b >> offset) & mask`, for the mask `uint8((1 << bits) - 1)`, which is 255 from 8 bits on.
abbrev masked : ℕ → ℕ → ℕ → ℕ
masked bits offset b = (b / 2 ^ offset) % 2 ^ (if leb bits 8 then bits else 8)

-- The entry at a bit position, which is an `int64` of which `product` is the 64 bits. Where it is
-- negative, Go's quotient by 8 is 0 for the last seven values and negative for the others, and the
-- remainder, as an unsigned shift, leaves no bit.
unfoldable pub bits_at : ℕ → ℕ → List ℕ → Option ℕ
unfolding get_elem?
bits_at product bits raw =
    if ltb product (2 ^ 63)
    then (elim (get_elem? (product / 8) raw) [
      | none ↦ none
      | some b ↦ some (masked bits (product % 8) b)
    ])
    else if ltb (2 ^ 64 - 8) product
    then (elim (get_elem? 0 raw) [ none ↦ none | some b ↦ some 0 ])
    else none

-- The status bits at `idx`; the product wraps around.
unfoldable pub entry_at : ℕ → ℕ → List ℕ → Option ℕ
unfolding bits_at
entry_at idx bits raw = bits_at ((idx * bits) % 2 ^ 64) bits raw

-- `switch status { … }`
unfoldable pub status_name : (ℕ → String) → ℕ → String
status_name decimal status =
    if nat_eq status status_valid
    then "VALID"
    else if nat_eq status status_invalid
    then "INVALID"
    else if nat_eq status status_suspended
    then "SUSPENDED"
    else "UNKNOWN(" <> decimal status <> ")"

module _ (net : Network) where
  unfoldable pub decompress_lst : String → Result String (List ℕ)
  decompress_lst lst = do
    compressed ← wrapped "statuslistcheck: lst is not valid base64url: " (net.decode lst)
    stream ←
        wrapped "statuslistcheck: lst is not a valid zlib stream: " (net.open_stream compressed)
    wrapped "statuslistcheck: inflating lst: " (net.inflate stream)

  unfoldable pub status_at : String → ℕ → Result String ℕ
  unfolding bits_of entry_at decompress_lst
  status_at token idx = do
    wrapped "statuslistcheck: parsing status list token: " (net.parse_token token)
    claim ←
        wrapped "statuslistcheck: status list token has no status_list claim: "
          (net.status_list token)
    lst ← or_fail (string_at "lst" claim) "statuslistcheck: status_list claim has no lst field"
    reject_if (is_empty lst) "statuslistcheck: status_list claim has no lst field"
    raw ← decompress_lst lst
    or_fail (entry_at idx (bits_of claim) raw) (
        "statuslistcheck: idx "
        <> net.decimal idx
        <> " out of range for a "
        <> net.decimal (length raw)
        <> "-byte bitstring")

  unfoldable pub fetch : String → ℕ → Result String ℕ
  unfolding status_at
  fetch uri idx = do
    wrapped ("statuslistcheck: building request for " <> uri <> ": ") (net.build uri)
    (code, body) ← wrapped ("statuslistcheck: fetching " <> uri <> ": ") (net.send uri)
    reject_if (not (nat_eq code 200))
        ("statuslistcheck: fetching " <> uri <> ": unexpected status " <> net.decimal code)
    token ← wrapped ("statuslistcheck: reading " <> uri <> ": ") body
    status_at token idx

  unfoldable pub check_valid : StatusListRef → Result String (Unit {0})
  unfolding fetch status_name
  check_valid ref = do
    status ←
        wrapped
          ("statuslistcheck: checking status list entry "
            <> net.decimal ref.idx
            <> " at "
            <> ref.uri
            <> ": ")
          (fetch ref.uri ref.idx)
    reject_if (not (nat_eq status status_valid)) (
        "statuslistcheck: credential status is " <> status_name net.decimal status <> ", not VALID")
