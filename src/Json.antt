-- ===== src/Json.antt =====
-- The values of `interface{}` that the program reads from JSON and from GraphQL arguments. A Go map
-- is the list of its entries in the order in which one `range` over it yields them: Go leaves that
-- order open, and what holds for every list holds for every order.
use graphpost.Prelude.{String, Bool, Option, none, some, List, [], ◌∷◌, ◌==◌, if◌then◌else◌}
use graphpost.Prelude.Int.{ℤ}

mutual
  pub data Value : Type 0 where
    null : Value
    bool : Bool → Value
    num : ℤ → Value
    str : String → Value
    obj : Fields → Value
    arr : Items → Value

  -- the entries of a `map[string]interface{}`
  pub data Fields : Type 0 where
    end : Fields
    field : (key : String) (v : Value) (rest : Fields) → Fields

  -- the elements of a `[]interface{}`
  pub data Items : Type 0 where
    nil : Items
    cons : (v : Value) (rest : Items) → Items

-- `m[key]`; the second result of the comma-ok form is whether it is there.
unfoldable pub get? : String → Fields → Option Value
get? key end = none
get? key (field k v rest) = if k == key then some v else get? key rest

unfoldable pub entries : Fields → List (String × Value)
entries end = []
entries (field k v rest) = (k, v) ∷ entries rest

unfoldable pub elements : Items → List Value
elements nil = []
elements (cons v rest) = v ∷ elements rest

-- `v.(string)`
abbrev pub as_string : Value → Option String
as_string (str s) = some s
as_string _ = none

-- `v.([]interface{})`
abbrev pub as_array : Value → Option Items
as_array (arr items) = some items
as_array _ = none

-- `v.(map[string]interface{})`
abbrev pub as_object : Value → Option Fields
as_object (obj fields) = some fields
as_object _ = none
