-- ===== src/Registry/Json.antt =====
-- JSON values, as `json.load` gives them: an object is a `dict`, in the order of its keys.
use voxbench.Base.{Bool, Option, none, some, String, text_eq, if◌then◌else◌}
use voxbench.Base.Int.{ℤ}

mutual
  pub data Json : Type 0 where
    null : Json
    boolean : (value : Bool) → Json
    integer : (value : ℤ) → Json
    float : (literal : String) → Json
    text : (value : String) → Json
    array : (items : Items) → Json
    object : (fields : Fields) → Json

  pub data Items : Type 0 where
    no_items : Items
    item : (value : Json) → (rest : Items) → Items

  pub data Fields : Type 0 where
    no_fields : Fields
    field : (key : String) → (value : Json) → (rest : Fields) → Fields

-- `fields.get(key)`
unfoldable pub lookup : String → Fields → Option Json
lookup key no_fields = none
lookup key (field k v rest) = if text_eq k key then some v else lookup key rest

-- `fields[key] = value`: in place, or at the end.
unfoldable pub assign : String → Json → Fields → Fields
assign key value no_fields = field key value no_fields
assign key value (field k v rest) =
    if text_eq k key then field k value rest else field k v (assign key value rest)
