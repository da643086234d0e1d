-- ===== src/Mdoc/Cbor.antt =====
-- internal/mdocverify/verify.go and cose.go: decoded CBOR values, and what reads them.
use fikua_lab_idp.Prelude.{
  ℕ, ◌-◌, ◌^◌, String, Bool, false, Option, none, some, List, [], ◌∷◌, ltb, nat_eq, ◌==◌, ◌||◌,
  ◌<>◌, if◌then◌else◌,
}
use fikua_lab_idp.Assoc.{Assoc, get, put}
use fikua_lab_idp.Action.{Result, ok, err}

-- An `int64`.
pub data ℤ : Type 0 where
  pos : ℕ → ℤ
  negsuc : ℕ → ℤ

-- Go's `any` after `cbor.Unmarshal`. `raw` is a `cbor.RawMessage`, `date` a `time.Time`, and `other` a
-- value of another type, by the type's name.
mutual
  pub data Value : Type 0 where
    null : Value
    boolean : Bool → Value
    uint64 : ℕ → Value
    int64 : ℤ → Value
    bytes : String → Value
    text : String → Value
    raw : String → Value
    date : ℕ → Value
    tag : ℕ → Value → Value
    array : Items → Value
    text_map : Fields → Value
    any_map : Pairs → Value
    other : String → Value

  pub data Items : Type 0 where
    nil : Items
    cons : Value → Items → Items

  pub data Fields : Type 0 where
    end : Fields
    field : String → Value → Fields → Fields

  pub data Pairs : Type 0 where
    stop : Pairs
    pair : Value → Value → Pairs → Pairs

abbrev pub same_int : ℤ → ℤ → Bool
same_int (pos m) (pos n) = nat_eq m n
same_int (negsuc m) (negsuc n) = nat_eq m n
same_int _ _ = false

-- `int64(n)` of a `uint64` wraps around.
unfoldable pub to_int64 : Value → Option ℤ
to_int64 (uint64 n) = some (if ltb n (2 ^ 63) then pos n else negsuc (2 ^ 64 - 1 - n))
to_int64 (int64 n) = some n
to_int64 _ = none

abbrev pub as_text : Option Value → Option String
as_text (some (text s)) = some s
as_text _ = none

-- `s, _ := m[key].(string)`
abbrev pub text_of : Option Value → String
text_of v = elim (as_text v) [ none ↦ "" | some s ↦ s ]

abbrev pub as_bytes : Value → Option String
as_bytes (bytes s) = some s
as_bytes _ = none

abbrev pub items : Items → List Value
items nil = []
items (cons v rest) = v ∷ items rest

abbrev pub as_array : Option Value → Option (List Value)
as_array (some (array xs)) = some (items xs)
as_array _ = none

abbrev pub entries : Fields → Assoc Value
entries end = []
entries (field k v rest) = (k, v) ∷ entries rest

abbrev pub pairs : Pairs → List (Value × Value)
pairs stop = []
pairs (pair k v rest) = (k, v) ∷ pairs rest

-- `m, ok := v.(map[string]any)`
abbrev pub as_text_map : Value → Option (Assoc Value)
as_text_map (text_map fs) = some (entries fs)
as_text_map _ = none

-- `m, ok := v.(map[any]any)`
abbrev pub as_any_map : Option Value → Option (List (Value × Value))
as_any_map (some (any_map ps)) = some (pairs ps)
as_any_map _ = none

-- The value under the first key that is this integer, in the order in which `range` visits the map.
unfoldable pub at_int : ℤ → List (Value × Value) → Option Value
at_int n [] = none
at_int n ((k, v) ∷ rest) =
    let others = at_int n rest in
    elim (to_int64 k) [ none ↦ others | some m ↦ if same_int m n then some v else others ]

-- `print_key` is `fmt.Sprint`, and `type_name` is `%T`.
module _ (print_key : Value → String) (type_name : Value → String) where
  -- `out[fmt.Sprint(k)] = v`, for each entry
  unfoldable pub keyed_by_text : List (Value × Value) → Assoc Value → Assoc Value
  keyed_by_text [] out = out
  keyed_by_text ((k, v) ∷ rest) out = keyed_by_text rest (put (print_key k) v out)

  unfoldable pub require_map : Assoc Value → String → String → Result String (Assoc Value)
  unfolding keyed_by_text
  require_map parent key message = elim (get key parent) [
    | none ↦ err message
    | some value ↦ elim value [
      | text_map fs ↦ ok (entries fs)
      | any_map ps ↦ ok (keyed_by_text (pairs ps) [])
      | v ↦ err (message <> ": not a CBOR map (" <> type_name v <> ")")
    ]
  ]

-- `delete(out, k)`, and `out[k] = v`
abbrev without_field : String → Fields → Fields
without_field k end = end
without_field k (field j v rest) =
    let others = without_field k rest in if j == k then others else field j v others

abbrev set_field : String → Value → Fields → Fields
set_field k v fs = field k v (without_field k fs)

abbrev date_text : ℕ → Value → Option String
date_text n (text s) = if nat_eq n 0 || nat_eq n 1004 then some s else none
date_text n _ = none

module _ (print_key : Value → String) where
  -- A plain value: tags are taken off, and all keys become texts.
  unfoldable mutual
    pub cbor_to_go : Value → Value
    cbor_to_go (tag n v) =
        let inner = cbor_to_go v in elim (date_text n v) [ none ↦ inner | some s ↦ text s ]
    cbor_to_go (array xs) = array (items_to_go xs)
    cbor_to_go (any_map ps) = text_map (pairs_to_go ps end)
    cbor_to_go (text_map fs) = text_map (fields_to_go fs)
    cbor_to_go v = v

    items_to_go : Items → Items
    items_to_go nil = nil
    items_to_go (cons v rest) = cons (cbor_to_go v) (items_to_go rest)

    pairs_to_go : Pairs → Fields → Fields
    pairs_to_go stop out = out
    pairs_to_go (pair k v rest) out = pairs_to_go rest (set_field (print_key k) (cbor_to_go v) out)

    fields_to_go : Fields → Fields
    fields_to_go end = end
    fields_to_go (field k v rest) = field k (cbor_to_go v) (fields_to_go rest)
