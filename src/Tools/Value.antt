-- ===== src/Tools/Value.antt =====
-- The JSON-compatible data of tools/src/cauco_tools/execution.py (`_freeze`).
use cauco.Base.{ℕ, String, Bool, Option, none, some, string_eq, ◌==◌, if◌then◌else◌}

mutual
  -- An integer is a sign (true: negative) and a magnitude; a float is its 64-bit pattern.
  pub data Value : Type 0 where
    null : Value
    flag : Bool → Value
    integer : Bool → ℕ → Value
    real : ℕ → Value
    text : String → Value
    items : Items → Value
    mapping : Fields → Value

  pub data Items : Type 0 where
    nil : Items
    cons : Value → Items → Items

  pub data Fields : Type 0 where
    end : Fields
    field : String → Value → Fields → Fields

-- `mapping.get(key)`: the keys of a mapping are distinct.
unfoldable pub get : Fields → String → Option Value
get end k = none
get (field j v fs) k = if j == k then some v else get fs k
