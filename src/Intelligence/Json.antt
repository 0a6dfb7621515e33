-- ===== src/Intelligence/Json.antt =====
-- The values that a tool takes and gives: what Python's `json` reads and writes. A number is kept as
-- it is written.
use text.Mathlib.Text.{◌==◌ as str_eq}
use python_fullstack.Base.{Bool, Option, none, some, String, if◌then◌else◌}

mutual
  pub data Json : Type 0 where
    null : Json
    bool : Bool → Json
    number : String → Json
    string : String → Json
    array : Items → Json
    object : Fields → Json

  pub data Items : Type 0 where
    end : Items
    item : Json → Items → Items

  pub data Fields : Type 0 where
    empty : Fields
    field : String → Json → Fields → Fields

-- `fields.get(key)`
unfoldable pub get : String → Fields → Option Json
get k empty = none
get k (field j v rest) = if str_eq j k then some v else get k rest
