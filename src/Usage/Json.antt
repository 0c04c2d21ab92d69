-- ===== src/Usage/Json.antt =====
-- A JSON value as `serde_json` hands it over. A number that `as_i64` does not read (a fraction, or
-- one beyond the type) is `other_number`.
use yunova.Base.{Bool, true, false, Option, none, some, String, if◌then◌else◌}
use text.Mathlib.Text.{◌==◌ as str_eq}
use yunova.Base.Int.{ℤ}

mutual
  pub data Value : Type 0 where
    null other_number : Value
    boolean : Bool → Value
    number : ℤ → Value
    string : String → Value
    array : Items → Value
    obj : Fields → Value

  pub data Items : Type 0 where
    nil : Items
    cons : Value → Items → Items

  pub data Fields : Type 0 where
    end : Fields
    field : String → Value → Fields → Fields

unfoldable pub get_field : String → Fields → Option Value
get_field k end = none
get_field k (field j v fs) = if str_eq j k then some v else get_field k fs

-- `Value::get` with a string
unfoldable pub get : String → Value → Option Value
unfolding get_field
get k (obj fs) = get_field k fs
get k _ = none

-- `Value::as_i64`
unfoldable pub value_i64 : Value → Option ℤ
value_i64 (number n) = some n
value_i64 _ = none

unfoldable pub is_object : Value → Bool
is_object (obj fs) = true
is_object _ = false
