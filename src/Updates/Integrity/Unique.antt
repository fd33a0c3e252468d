-- ===== src/Updates/Integrity/Unique.antt =====
-- How often an id occurs in a slice of the metadata, before and after a handler.
use bingsan.Prelude.{
  ◌≤◌, String, ◌≡◌, refl, Bool, true, false, not, Option, none, some, ◌⊎◌, inl, inr, arith,
  Bool-cases, Option-cases, eq_iff, eq_refl, ◌==◌,
}
use bingsan.Prelude.Int.{ℤ, eqb_ℤ_iff}
use bingsan.Go.Value.{Value, Items, Fields, nil, cons, object, int64}
use bingsan.Go.Map.{set, get-set}
use bingsan.Go.Slice.{
  append, any, filter, count, count-append, count-filter-le, count-zero, any-filter_none,
}
use bingsan.Updates.Types.{
  SetStatistics, SetPartitionStatistics, RemoveStatistics, RemovePartitionStatistics,
  AddEncryptionKey, RemoveEncryptionKey, RemoveSnapshots, Error,
}
use bingsan.Updates.Util.{get_int64, get_slice, get_string, has_id, keeps, filter_at}
use bingsan.Updates.Util.Laws.{write_laws}
use bingsan.Updates.Properties.{
  has_key_id, empty_to_none, apply_add_encryption_key, apply_remove_encryption_key,
}
use bingsan.Updates.Snapshot.{apply_remove_snapshots}
use bingsan.Updates.Statistics.{
  apply_set_statistics, apply_remove_statistics, apply_set_partition_statistics,
  apply_remove_partition_statistics,
}
use bingsan.Updates.Integrity.Slices.{items_at, Grows, Shrinks, apply_remove_snapshots-Expires}

-- At most one item has a given key.
abbrev pub IsUnique : {K : Type 0} → (K → Value → Bool) → Items → Type 0
IsUnique {K} p items = (k : K) → count (p k) items ≤ 1

append-IsUnique :
    {K : Type 0} (p : K → Value → Bool) (items : Items) (v : Value)
    → ((k : K) → p k v ≡ true → any (p k) items ≡ false)
    → IsUnique p items
    → IsUnique p (append items v)
append-IsUnique p items v fresh h k = elim (Bool-cases (p k v)) [
  | inl hit ↦
      rw (count-append (p k) items v, hit, count-zero (p k) items (fresh k hit)) (omega arith)
  | inr miss ↦ rw (count-append (p k) items v, miss) (omega (arith, h k))
]

filter-IsUnique :
    {K : Type 0} (p : K → Value → Bool) (q : Value → Bool) (items : Items)
    → IsUnique p items
    → IsUnique p (filter q items)
filter-IsUnique p q items h k = omega (arith, count-filter-le (p k) q items, h k)

has_id-object :
    (key : String) (k n : ℤ) (v : Fields)
    → get_int64 v key ≡ some n
    → has_id key k (object v) ≡ true
    → k ≡ n
unfolding has_id
has_id-object key k n v e h = ground (arith, eqb_ℤ_iff n k)

pub Grows-IsUnique :
    (key : String) (items items' : Items)
    → Grows key items items'
    → IsUnique (has_id key) items
    → IsUnique (has_id key) items'
Grows-IsUnique key items items' (inl same) h = rw same h
Grows-IsUnique key items items' (inr (v, n, e, fresh, grown)) h = rw grown (
    append-IsUnique (has_id key) items (object v)
      (λ k hit. rw (has_id-object key k n v e hit) fresh) h)

pub Shrinks-IsUnique :
    (key : String) (protected : ℤ) (items items' : Items)
    → Shrinks key protected items items'
    → IsUnique (has_id key) items
    → IsUnique (has_id key) items'
Shrinks-IsUnique key protected items items' (inl same) h = rw same h
Shrinks-IsUnique key protected items items' (inr (ids, _, less)) h =
    rw less (filter-IsUnique (has_id key) (keeps key ids) items h)

-- The items are as they were, or a new one stands for those of its snapshot.
abbrev pub Replaces : Items → Items → Type 0
Replaces items items' =
    (items' ≡ items)
    ⊎ ((v : Fields) × (n : ℤ) × (get_int64 v "snapshot-id" ≡ some n)
        × (items' ≡ append (filter (λ w. not (has_id "snapshot-id" n w)) items) (object v)))

not-true : (b : Bool) → b ≡ true → not b ≡ false
not-true b h = ground arith

pub Replaces-IsUnique :
    (items items' : Items)
    → Replaces items items'
    → IsUnique (has_id "snapshot-id") items
    → IsUnique (has_id "snapshot-id") items'
Replaces-IsUnique items items' (inl same) h = rw same h
Replaces-IsUnique items items' (inr (v, n, e, replaced)) h =
    let others = filter (λ w. not (has_id "snapshot-id" n w)) items in
    rw replaced (
      append-IsUnique (has_id "snapshot-id") others (object v)
        (λ k hit. rw (has_id-object "snapshot-id" k n v e hit) (
          any-filter_none (has_id "snapshot-id" n) _ items
            (λ w. not-true (has_id "snapshot-id" n w))))
        (filter-IsUnique (has_id "snapshot-id") _ items h))

pub apply_set_statistics-Replaces :
    (u : SetStatistics) (m : Fields)
    → Replaces (items_at "statistics" m) (items_at "statistics" (apply_set_statistics u m).1)
unfolding apply_set_statistics
apply_set_statistics-Replaces u m = elim (Option-cases u.statistics) [
  | inl e ↦ inl (ground arith)
  | inr (v, e) ↦ elim (Option-cases (get_int64 v "snapshot-id")) [
    | inr (n, e') ↦ inr (v, n, e', grind (arith, write_laws))
    | inl e' ↦ elim (Option-cases u.snapshot_id) [
      | inl e'' ↦ inl (ground arith)
      | inr (n, e'') ↦
          inr (set "snapshot-id" (int64 n) v, n, simp get-set, grind (arith, write_laws))
    ]
  ]
]

pub apply_set_partition_statistics-Replaces :
    (u : SetPartitionStatistics) (m : Fields)
    → Replaces
        (items_at "partition-statistics" m)
        (items_at "partition-statistics" (apply_set_partition_statistics u m).1)
unfolding apply_set_partition_statistics
apply_set_partition_statistics-Replaces u m = elim (Option-cases u.partition_statistics) [
  | inl e ↦ inl (ground arith)
  | inr (v, e) ↦ elim (Option-cases (get_int64 v "snapshot-id")) [
    | inl e' ↦ inl (ground arith)
    | inr (n, e') ↦ inr (v, n, e', grind (arith, write_laws))
  ]
]

-- A removal leaves the slice alone, or filters it.
abbrev pub Filters : Items → Items → Type 0
Filters items items' = (items' ≡ items) ⊎ ((q : Value → Bool) × (items' ≡ filter q items))

pub Filters-IsUnique :
    {K : Type 0} (p : K → Value → Bool) (items items' : Items)
    → Filters items items'
    → IsUnique p items
    → IsUnique p items'
Filters-IsUnique p items items' (inl same) h = rw same h
Filters-IsUnique p items items' (inr (q, less)) h = rw less (filter-IsUnique p q items h)

filter_at-Filters :
    (key : String) (q : Value → Bool) (m : Fields) (o : Option Items)
    → get_slice m key ≡ o
    → Filters (items_at key m) (items_at key (filter_at {E = Error} key q o m).1)
filter_at-Filters key q m none e = inl refl
filter_at-Filters key q m (some nil) e = inl refl
filter_at-Filters key q m (some (cons v items)) e = inr (q, simp (get-set, eq_refl) (rw e))

pub apply_remove_statistics-Filters :
    (u : RemoveStatistics) (m : Fields)
    → Filters (items_at "statistics" m) (items_at "statistics" (apply_remove_statistics u m).1)
unfolding apply_remove_statistics
apply_remove_statistics-Filters u m =
    filter_at-Filters "statistics" _ m (get_slice m "statistics") refl

pub apply_remove_partition_statistics-Filters :
    (u : RemovePartitionStatistics) (m : Fields)
    → Filters
        (items_at "partition-statistics" m)
        (items_at "partition-statistics" (apply_remove_partition_statistics u m).1)
unfolding apply_remove_partition_statistics
apply_remove_partition_statistics-Filters u m =
    filter_at-Filters "partition-statistics" _ m (get_slice m "partition-statistics") refl

pub apply_remove_encryption_key-Filters :
    (u : RemoveEncryptionKey) (m : Fields)
    → Filters
        (items_at "encryption-keys" m)
        (items_at "encryption-keys" (apply_remove_encryption_key u m).1)
unfolding apply_remove_encryption_key
apply_remove_encryption_key-Filters u m = elim (Bool-cases (u.key_id == "")) [
  | inl e ↦ inl (ground arith)
  | inr e ↦ rw e (filter_at-Filters "encryption-keys" _ m (get_slice m "encryption-keys") refl)
]

pub apply_remove_snapshots-Filters :
    (u : RemoveSnapshots) (m : Fields)
    → Filters (items_at "snapshots" m) (items_at "snapshots" (apply_remove_snapshots u m).1)
apply_remove_snapshots-Filters u m = elim (apply_remove_snapshots-Expires u m) [
  | inl e ↦ inl (rw e)
  | inr (_, _, e) ↦ inr (keeps "snapshot-id" u.snapshot_ids, rw e (simp get-set))
]

has_key_id-object :
    (k s : String) (v : Fields)
    → get_string v "key-id" ≡ some s
    → has_key_id k (object v) ≡ true
    → k ≡ s
unfolding has_key_id
has_key_id-object k s v e h = ground (arith, eq_iff s k)

empty_to_none-some : (o : Option String) (s : String) → empty_to_none o ≡ some s → o ≡ some s
empty_to_none-some o s h = ground arith

-- The key of a new encryption key is new.
pub GrowsKeys : Items → Items → Type 0
GrowsKeys items items' =
    (items' ≡ items)
    ⊎ ((v : Fields) × (s : String) × (get_string v "key-id" ≡ some s)
        × (any (has_key_id s) items ≡ false)
        × (items' ≡ append items (object v)))

pub apply_add_encryption_key-GrowsKeys :
    (u : AddEncryptionKey) (m : Fields)
    → GrowsKeys
        (items_at "encryption-keys" m)
        (items_at "encryption-keys" (apply_add_encryption_key u m).1)
unfolding apply_add_encryption_key GrowsKeys
apply_add_encryption_key-GrowsKeys u m = elim (Option-cases u.encryption_key) [
  | inl e ↦ inl (ground arith)
  | inr (v, e) ↦ elim (Option-cases (empty_to_none (get_string v "key-id"))) [
    | inl e' ↦ inl (ground arith)
    | inr (s, e') ↦ elim (Bool-cases (any (has_key_id s) (items_at "encryption-keys" m))) [
      | inl old ↦ inl (grind (arith, write_laws))
      | inr fresh ↦
          inr (
            v,
            s,
            empty_to_none-some (get_string v "key-id") s e',
            fresh,
            grind (arith, write_laws),
          )
    ]
  ]
]

pub GrowsKeys-IsUnique :
    (items items' : Items)
    → GrowsKeys items items'
    → IsUnique has_key_id items
    → IsUnique has_key_id items'
unfolding GrowsKeys
GrowsKeys-IsUnique items items' (inl same) h = rw same h
GrowsKeys-IsUnique items items' (inr (v, s, e, fresh, grown)) h = rw grown (
    append-IsUnique has_key_id items (object v) (λ k hit. rw (has_key_id-object k s v e hit) fresh)
      h)
