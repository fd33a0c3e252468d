-- ===== src/Go/Value/Decoded.antt =====
-- The values that encoding/json decodes into `any`: every number is a float64.
use bingsan.Prelude.{String, ◌≡◌, refl, ap, subst, some, arith, ◌==◌, inl, inr, Bool-cases}
use bingsan.Go.Float64.{IsFloat64}
use bingsan.Go.Value.{
  Value, Items, Fields, null, bool, float64, int, int64, string, slice, object, nil, cons, end,
  field, json_trip, json_trip_items, json_trip_fields,
}
use bingsan.Go.Map.{get}

abbrev mutual
  pub IsDecoded : Value → Type 0
  IsDecoded null = Unit
  IsDecoded (bool b) = Unit
  IsDecoded (float64 f) = IsFloat64 f
  IsDecoded (int n) = ⊥
  IsDecoded (int64 n) = ⊥
  IsDecoded (string s) = Unit
  IsDecoded (slice items) = AllDecoded items
  IsDecoded (object m) = IsDecodedMap m

  pub AllDecoded : Items → Type 0
  AllDecoded nil = Unit
  AllDecoded (cons v items) = IsDecoded v × AllDecoded items

  pub IsDecodedMap : Fields → Type 0
  IsDecodedMap end = Unit
  IsDecodedMap (field k v m) = IsDecoded v × IsDecodedMap m

mutual
  unfolding json_trip

  trip : (v : Value) → IsDecoded v → json_trip v ≡ v
  trip null h = refl
  trip (bool b) h = refl
  trip (float64 f) h = refl
  trip (int n) h = absurd h
  trip (int64 n) h = absurd h
  trip (string s) h = refl
  trip (slice items) h = ap slice (trip_items items h)
  trip (object m) h = ap object (trip_fields m h)

  trip_items : (items : Items) → AllDecoded items → json_trip_items items ≡ items
  trip_items nil h = refl
  trip_items (cons v items) h = cc (trip v h.0, trip_items items h.1)

  trip_fields : (m : Fields) → IsDecodedMap m → json_trip_fields m ≡ m
  trip_fields end h = refl
  trip_fields (field k v m) h = cc (trip v h.0, trip_fields m h.1)

-- Where every number in the metadata is a float64, as in a decoded document, and there is no other
-- `int` or `int64`, the copy by way of JSON is the metadata itself.
pub json_trip_fields-decoded : (m : Fields) → IsDecodedMap m → json_trip_fields m ≡ m
json_trip_fields-decoded m h = trip_fields m h

pub get-IsDecoded :
    (k : String) (m : Fields) (v : Value) → IsDecodedMap m → get k m ≡ some v → IsDecoded v
unfolding get
get-IsDecoded k end v h e = absurd (ground arith)
get-IsDecoded k (field j w m) v h e = elim (Bool-cases (j == k)) [
  | inl here ↦ let same : w ≡ v = ground arith in subst IsDecoded same h.0
  | inr there ↦ get-IsDecoded k m v h.1 (ground arith)
]
