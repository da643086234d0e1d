-- ===== src/Json.antt =====
-- Go's `any` after `json.Unmarshal`: the values of `encoding/json`. Numbers are those that are whole
-- and not negative; `encoding/json` gives every number as a float64.
use fikua_lab_idp.Prelude.{ℕ, String, Bool, Option, none, some, List, [], ◌∷◌}
use fikua_lab_idp.Assoc.{Assoc, get}

mutual
  pub data Json : Type 0 where
    null : Json
    boolean : Bool → Json
    number : ℕ → Json
    text : String → Json
    array : Items → Json
    object : Fields → Json

  pub data Items : Type 0 where
    nil : Items
    cons : Json → Items → Items

  pub data Fields : Type 0 where
    end : Fields
    field : String → Json → Fields → Fields

-- The entries of an object, in the order in which `range` visits them.
unfoldable pub entries : Fields → Assoc Json
entries end = []
entries (field k v rest) = (k, v) ∷ entries rest

-- `s, _ := v.(string)`
unfoldable pub as_text : Json → Option String
as_text (text s) = some s
as_text _ = none

-- `m, ok := v.(map[string]any)`
unfoldable pub as_object : Json → Option (Assoc Json)
unfolding entries
as_object (object fs) = some (entries fs)
as_object _ = none

-- `f, ok := v.(float64)`
unfoldable pub as_number : Json → Option ℕ
as_number (number n) = some n
as_number _ = none

abbrev pub items : Items → List Json
items nil = []
items (cons v rest) = v ∷ items rest

-- `a, ok := v.([]any)`
unfoldable pub as_array : Json → Option (List Json)
as_array (array xs) = some (items xs)
as_array _ = none

-- `inner, ok := m[key].(map[string]any)`
abbrev pub object_at : String → Assoc Json → Option (Assoc Json)
object_at key m = elim (get key m) [ none ↦ none | some v ↦ as_object v ]
