-- ===== src/Json.antt =====
-- The JSON of an audit entry's metadata, as backend/app/json_values.py and audit_integrity.py read it.
-- Numbers are naturals, which the ids that the program writes are.
use perchtail.Prelude.{
  ℕ, Bool, Option, none, some, String, List, [], ◌∷◌, ◌==◌, string_eq, if◌then◌else◌,
}

mutual
  -- an object's keys with their values, in order
  pub data Fields : Type 0 where
    end : Fields
    field : String → Value → Fields → Fields

  pub data Value : Type 0 where
    null : Value
    bool : Bool → Value
    str : String → Value
    num : ℕ → Value
    obj : Fields → Value
    arr : Items → Value

  pub data Items : Type 0 where
    nil : Items
    cons : Value → Items → Items

abbrev pub items : Items → List Value
items nil = []
items (cons v vs) = v ∷ items vs

-- `as_int`
abbrev pub as_int : Value → Option ℕ
as_int (num n) = some n
as_int _ = none

abbrev pub as_str : Value → Option String
as_str (str s) = some s
as_str _ = none

-- `d.get(key)`, with `null` for a missing key
unfoldable pub value_at : String → Fields → Value
value_at key end = null
value_at key (field k v rest) = let later = value_at key rest in if k == key then v else later
