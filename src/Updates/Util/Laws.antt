-- ===== src/Updates/Util/Laws.antt =====
-- What the metadata holds after each of the helpers that write to it.
use bingsan.Prelude.{
  String, ◌≡◌, arith, ◌==◌, eq_iff, if◌then◌else◌, none, some, Option, Option-cases, inl, inr,
}
use bingsan.Prelude.Int.{ℤ, ltb_ℤ}
use bingsan.Go.Value.{Value, Fields, Items, nil, end, slice, object, as_slice, as_object, as_int64}
use bingsan.Go.Map.{get, set, get-set, get-delete}
use bingsan.Updates.Util.{
  get_slice, get_map, or_nil, or_end, or_zero, ensured_slice, ensured_map, raised, and_then,
}

slice_at :
    (o : Option Value) (items : Items) → and_then o as_slice ≡ some items → o ≡ some (slice items)
slice_at o items h = ground arith

map_at : (o : Option Value) (m : Fields) → and_then o as_object ≡ some m → o ≡ some (object m)
map_at o m h = ground arith

pub get-ensured_slice :
    (key k : String) (m : Fields)
    → get k (ensured_slice key m)
      ≡ (if key == k then some (slice (or_nil (get_slice m key))) else get k m)
unfolding ensured_slice
get-ensured_slice key k m = elim (Option-cases (get_slice m key)) [
  | inl e ↦ ground (arith, get-set key k (slice nil) m)
  | inr (items, e) ↦ ground (arith, slice_at (get key m) items e, eq_iff key k)
]

pub get-ensured_map :
    (key k : String) (m : Fields)
    → get k (ensured_map key m)
      ≡ (if key == k then some (object (or_end (get_map m key))) else get k m)
unfolding ensured_map
get-ensured_map key k m = elim (Option-cases (get_map m key)) [
  | inl e ↦ ground (arith, get-set key k (object end) m)
  | inr (items, e) ↦ ground (arith, map_at (get key m) items e, eq_iff key k)
]

unfoldable pub raised_value : (ℤ → Value) → Option ℤ → Option Value → Option Value
raised_value value none old = old
raised_value value (some n) old =
    if ltb_ℤ (or_zero (and_then old as_int64)) n then some (value n) else old

pub get-raised :
    (key k : String) (value : ℤ → Value) (n : Option ℤ) (m : Fields)
    → get k (raised key value n m)
      ≡ (if key == k then raised_value value n (get key m) else get k m)
unfolding raised raised_value
get-raised key k value none m = ground (arith, eq_iff key k)
get-raised key k value (some n) m = ground (arith, get-set key k (value n) m, eq_iff key k)

pub ruleset write_laws = (get-set, get-delete, get-ensured_slice, get-ensured_map, get-raised)
