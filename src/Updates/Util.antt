-- ===== src/Updates/Util.antt =====
-- internal/api/handlers/updates/util.go
pub mod Laws
pub mod Removal
use bingsan.Prelude.{
  String, Bool, true, false, not, Option, none, some, List, [], ◌∷◌, ◌||◌, if◌then◌else◌,
}
use bingsan.Prelude.Int.{ℤ, pos, negsuc, ltb_ℤ, eqb_ℤ, add_one}
use bingsan.Go.Value.{
  Value, Items, Fields, nil, cons, slice, object, end, as_object, as_slice, as_string, as_int64,
  json_trip_fields, int,
}
use bingsan.Go.Map.{get, set}
use bingsan.Go.Slice.{any, filter, is_empty, last}
use bingsan.Updates.Types.{Error, cannot_remove, cannot_remove_all, none_available, does_not_exist}
use bingsan.Updates.Exec.{Result, ok, err, Exec, ◌>>=◌, ◌>>◌, or_fail, fail_if, modify}

-- `deepCopyMap`, by way of JSON
abbrev pub deep_copy_map : Fields → Fields
deep_copy_map = json_trip_fields

abbrev pub and_then : {A : Type 0} → Option Value → (Value → Option A) → Option A
and_then none f = none
and_then (some v) f = f v

abbrev pub get_int64 : Fields → String → Option ℤ
get_int64 m key = and_then (get key m) as_int64

-- `int` is `int64` on a 64-bit machine.
abbrev pub get_int : Fields → String → Option ℤ
get_int m key = and_then (get key m) as_int64

abbrev pub get_string : Fields → String → Option String
get_string m key = and_then (get key m) as_string

abbrev pub get_slice : Fields → String → Option Items
get_slice m key = and_then (get key m) as_slice

abbrev pub get_map : Fields → String → Option Fields
get_map m key = and_then (get key m) as_object

-- A number that the code reads with `n, _ := getInt64(…)` is 0 where there is none.
abbrev pub or_zero : Option ℤ → ℤ
or_zero none = pos 0
or_zero (some n) = n

abbrev pub set_if_not_nil : {A : Type 0} → Fields → String → (A → Value) → Option A → Fields
set_if_not_nil m key value none = m
set_if_not_nil m key value (some a) = set key (value a) m

-- The items of a slice and the fields of a map, where a nil one has none.
abbrev pub or_nil : Option Items → Items
or_nil none = nil
or_nil (some items) = items

abbrev pub or_end : Option Fields → Fields
or_end none = end
or_end (some m) = m

-- The metadata after `ensureSlice`, which returns the slice that then is at the key.
unfoldable pub ensured_slice : String → Fields → Fields
ensured_slice key m = elim (get_slice m key) [ none ↦ set key (slice nil) m | some _ ↦ m ]

abbrev pub ensure_slice : {E : Type 0} → String → Exec E Items
ensure_slice key m = (ok (or_nil (get_slice m key)), ensured_slice key m)

unfoldable pub ensured_map : String → Fields → Fields
ensured_map key m = elim (get_map m key) [ none ↦ set key (object end) m | some _ ↦ m ]

abbrev pub ensure_map : {E : Type 0} → String → Exec E Fields
ensure_map key m = (ok (or_end (get_map m key)), ensured_map key m)

-- The id of an item that is an object: the test that opens each loop over a slice.
unfoldable pub item_id : String → Value → Option ℤ
item_id key v = elim (as_object v) [ none ↦ none | some m ↦ get_int64 m key ]

abbrev pub is_some_int : ℤ → Option ℤ → Bool
is_some_int n none = false
is_some_int n (some k) = eqb_ℤ k n

-- `id, ok := getInt64(item, key); ok && id == n`
unfoldable pub has_id : String → ℤ → Value → Bool
unfolding item_id
has_id key n v = is_some_int n (item_id key v)

-- `maxIntInSlice`
unfoldable pub max_int_in_slice : Items → String → ℤ → ℤ
unfolding item_id
max_int_in_slice nil key best = best
max_int_in_slice (cons v items) key best =
    max_int_in_slice items key
      (elim (item_id key v) [ none ↦ best | some n ↦ if ltb_ℤ best n then n else best ])

-- `toRemove[id]`, the set that is built of a list of ids
unfoldable pub mem_id : ℤ → List ℤ → Bool
mem_id n [] = false
mem_id n (k ∷ ids) = eqb_ℤ k n || mem_id n ids

-- The predicate of the removals: an item with an id to remove is dropped, any other is kept.
abbrev keep_unless : List ℤ → Option ℤ → Bool
keep_unless ids none = true
keep_unless ids (some n) = not (mem_id n ids)

unfoldable pub keeps : String → List ℤ → Value → Bool
unfolding item_id mem_id
keeps key ids v = keep_unless ids (item_id key v)

abbrev is_nil : List ℤ → Bool
is_nil [] = true
is_nil (n ∷ ids) = false

-- `removeItemsByID`
unfoldable pub remove_items_by_id : Items → List ℤ → String → ℤ → String → Result Error Items
remove_items_by_id items ids key protected item_type =
    let filtered = filter (keeps key ids) items in
    if is_nil ids || is_empty items
    then ok items
    else if mem_id protected ids
    then err (cannot_remove item_type protected)
    else if is_empty filtered
    then err (cannot_remove_all item_type)
    else ok filtered

-- The end of a removal, after `s, ok := getSlice(…)`: no slice, or an empty one, stays as it is.
abbrev pub filter_at : {E : Type 0} → String → (Value → Bool) → Option Items → Exec E (Unit {0})
filter_at key p none m = (ok tt, m)
filter_at key p (some nil) m = (ok tt, m)
filter_at key p (some (cons v items)) m = (ok tt, set key (slice (filter p (cons v items))) m)

-- `if n > current { p.metadata[key] = n }`, where `current` is 0 if it is missing
unfoldable pub raised : String → (ℤ → Value) → Option ℤ → Fields → Fields
raised key value none m = m
raised key value (some n) m = if ltb_ℤ (or_zero (get_int64 m key)) n then set key (value n) m else m

-- The same, if there is an `n`.
abbrev pub raise_to : {E : Type 0} → String → (ℤ → Value) → Option ℤ → Exec E (Unit {0})
raise_to key value n m = (ok tt, raised key value n m)

-- The highest id of the fields of a schema or a spec, if it has a slice of fields.
abbrev pub max_field_id : Option Items → String → Option ℤ
max_field_id none key = none
max_field_id (some fields) key = some (max_int_in_slice fields key (pos 0))

-- `-1` stands for the last item, if that has an id.
unfoldable pub resolve_id : String → ℤ → Items → ℤ
unfolding item_id
resolve_id key n items =
    if eqb_ℤ n (negsuc 0)
    then (elim (last items) [
      | none ↦ n
      | some v ↦ (elim (item_id key v) [ none ↦ n | some k ↦ k ])
    ])
    else n

abbrev pub non_empty : Option Items → Option Items
non_empty none = none
non_empty (some nil) = none
non_empty (some (cons v items)) = some (cons v items)

abbrev or_fail_nil : Error → String → Exec Error Items
or_fail_nil e key m = or_fail (non_empty (get_slice m key)) e m

-- The body that `applySetCurrentSchema`, `applySetDefaultSpec` and `applySetDefaultSortOrder` have
-- each of their own: the slice, the key of its ids, the key to write, and the words of the errors.
abbrev pub set_default : String → String → String → String → String → ℤ → Exec Error (Unit {0})
set_default slice_key id_key default_key what id_word n = do
  items ← or_fail_nil (none_available what) slice_key
  let target = resolve_id id_key n items
  fail_if (not (any (has_id id_key target) items)) (does_not_exist id_word target)
  modify (set default_key (int target))

-- The id of a new schema, spec or order: its own, or the next one, which is written into it.
abbrev pub next_id : Items → String → ℤ
next_id items key = add_one (max_int_in_slice items key (pos 0))

unfoldable pub with_id : String → Items → Fields → ℤ × Fields
with_id key items m = elim (get_int m key) [
  | some n ↦ (n, m)
  | none ↦ (next_id items key, set key (int (next_id items key)) m)
]
