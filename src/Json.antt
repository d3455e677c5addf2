-- ===== src/Json.antt =====
-- JSON values, as the JSONB columns hold them. Numbers that are not integers do not occur in what is
-- modelled.
use agenticqueue.Base.{String, Bool, Option, none, some, string_eq, ◌==◌, if◌then◌else◌}
use agenticqueue.Base.Int.{ℤ}

mutual
  pub data Json : Type 0 where
    null : Json
    boolean : Bool → Json
    int : ℤ → Json
    text : String → Json
    array : Items → Json
    object : Fields → Json

  pub data Items : Type 0 where
    nil : Items
    cons : Json → Items → Items

  pub data Fields : Type 0 where
    end : Fields
    field : String → Json → Fields → Fields

-- `payload.get(key)`
unfoldable pub get_field : String → Fields → Option Json
get_field k end = none
get_field k (field j v fs) = let rest = get_field k fs in if j == k then some v else rest
