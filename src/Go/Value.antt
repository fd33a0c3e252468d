-- ===== src/Go/Value.antt =====
-- The values of `any` that occur in table metadata: what encoding/json decodes, and the `int` and
-- `int64` that the handlers write.
pub mod Decoded
use bingsan.Prelude.{String, Bool, Option, none, some}
use bingsan.Prelude.Int.{ℤ}
use bingsan.Go.Float64.{Float64, to_int64, of_int64}

-- A slice of values and a `map[string]any` stand in the block with the values that they hold.
mutual
  pub data Value : Type 0 where
    null : Value
    bool : Bool → Value
    float64 : Float64 → Value
    int : ℤ → Value
    int64 : ℤ → Value
    string : String → Value
    slice : Items → Value
    object : Fields → Value

  pub data Items : Type 0 where
    nil : Items
    cons : Value → Items → Items

  pub data Fields : Type 0 where
    end : Fields
    field : String → Value → Fields → Fields

-- The type assertions `v.(map[string]any)`, `v.([]any)` and `v.(string)`.
abbrev pub as_object : Value → Option Fields
as_object (object m) = some m
as_object _ = none

abbrev pub as_slice : Value → Option Items
as_slice (slice items) = some items
as_slice _ = none

abbrev pub as_string : Value → Option String
as_string (string s) = some s
as_string _ = none

-- The type switch of `getInt64` and `getInt`; `int` has the 64 bits of `int64`.
abbrev pub as_int64 : Value → Option ℤ
as_int64 (float64 f) = some (to_int64 f)
as_int64 (int64 n) = some n
as_int64 (int n) = some n
as_int64 _ = none

-- A value written as JSON and decoded into `any`: every number comes back as a float64.
unfoldable mutual
  pub json_trip : Value → Value
  json_trip null = null
  json_trip (bool b) = bool b
  json_trip (float64 f) = float64 f
  json_trip (int n) = float64 (of_int64 n)
  json_trip (int64 n) = float64 (of_int64 n)
  json_trip (string s) = string s
  json_trip (slice items) = slice (json_trip_items items)
  json_trip (object m) = object (json_trip_fields m)

  pub json_trip_items : Items → Items
  json_trip_items nil = nil
  json_trip_items (cons v items) = cons (json_trip v) (json_trip_items items)

  pub json_trip_fields : Fields → Fields
  json_trip_fields end = end
  json_trip_fields (field k v m) = field k (json_trip v) (json_trip_fields m)
