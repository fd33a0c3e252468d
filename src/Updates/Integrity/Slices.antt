-- ===== src/Updates/Integrity/Slices.antt =====
-- How the handlers of schema.go, partition.go, sortorder.go and snapshot.go change a slice of items
-- with ids: they leave it alone, append one item with a new id, or filter it.
use bingsan.Prelude.{
  String, ◌≡◌, refl, false, Option, none, some, List, [], ◌∷◌, ◌⊎◌, inl, inr, arith, Bool-cases,
  Option-cases, eq_refl,
}
use bingsan.Prelude.Int.{ℤ}
use bingsan.Go.Value.{Value, Items, Fields, nil, cons, slice, object}
use bingsan.Go.Map.{set, get-set}
use bingsan.Go.Slice.{append, any, filter, is_empty}
use bingsan.Updates.Types.{
  AddSchema, RemoveSchemas, AddSpec, RemovePartitionSpecs, AddSortOrder, AddSnapshot,
  RemoveSnapshots,
}
use bingsan.Updates.Exec.{ok, Result-cases}
use bingsan.Updates.Util.{
  get_int64, get_int, get_slice, get_map, or_end, or_nil, or_zero, has_id, with_id, keeps, mem_id,
  remove_items_by_id,
}
use bingsan.Updates.Util.Laws.{write_laws}
use bingsan.Updates.Schema.{apply_add_schema, apply_remove_schemas}
use bingsan.Updates.Partition.{apply_add_spec, apply_remove_partition_specs}
use bingsan.Updates.SortOrder.{apply_add_sort_order}
use bingsan.Updates.Snapshot.{
  find_referenced, remove_snapshot_ids, apply_add_snapshot, apply_remove_snapshots,
}

abbrev pub items_at : String → Fields → Items
items_at key m = or_nil (get_slice m key)

-- The slice is as it was, or has one more item, with an id that no item had.
abbrev pub Grows : String → Items → Items → Type 0
Grows id_key items items' =
    (items' ≡ items)
    ⊎ ((v : Fields) × (n : ℤ) × (get_int64 v id_key ≡ some n)
        × (any (has_id id_key n) items ≡ false)
        × (items' ≡ append items (object v)))

-- The slice is as it was, or the items with the ids are gone, and the protected id was not one.
abbrev pub Shrinks : String → ℤ → Items → Items → Type 0
Shrinks id_key protected items items' =
    (items' ≡ items)
    ⊎ ((ids : List ℤ) × (mem_id protected ids ≡ false) × (items' ≡ filter (keeps id_key ids) items))

-- The id that `with_id` returns is the one that the item then has.
with_id-get :
    (key : String) (items : Items) (m : Fields)
    → get_int64 (with_id key items m).1 key ≡ some (with_id key items m).0
unfolding with_id
with_id-get key items m = elim (Option-cases (get_int m key)) [
  | inl e ↦ grind (arith, get-set, eq_refl)
  | inr (n, e) ↦ ground arith
]

pub apply_add_schema-Grows :
    (u : AddSchema) (m : Fields)
    → Grows "schema-id" (items_at "schemas" m) (items_at "schemas" (apply_add_schema u m).1)
unfolding apply_add_schema
apply_add_schema-Grows u m = elim (Option-cases u.schema) [
  | inl e ↦ inl (ground arith)
  | inr (given, e) ↦
      let (n, v) = with_id "schema-id" (items_at "schemas" m) given in
      elim (Bool-cases (any (has_id "schema-id" n) (items_at "schemas" m))) [
        | inl old ↦ inl (grind (arith, write_laws))
        | inr fresh ↦ inr (
          v,
          n,
          with_id-get "schema-id" (items_at "schemas" m) given,
          fresh,
          grind (arith, write_laws),
        )
      ]
]

pub apply_add_spec-Grows :
    (u : AddSpec) (m : Fields)
    → Grows "spec-id"
        (items_at "partition-specs" m)
        (items_at "partition-specs" (apply_add_spec u m).1)
unfolding apply_add_spec
apply_add_spec-Grows u m = elim (Option-cases u.spec) [
  | inl e ↦ inl (ground arith)
  | inr (given, e) ↦
      let (n, v) = with_id "spec-id" (items_at "partition-specs" m) given in
      elim (Bool-cases (any (has_id "spec-id" n) (items_at "partition-specs" m))) [
        | inl old ↦ inl (grind (arith, write_laws))
        | inr fresh ↦ inr (
          v,
          n,
          with_id-get "spec-id" (items_at "partition-specs" m) given,
          fresh,
          grind (arith, write_laws),
        )
      ]
]

pub apply_add_sort_order-Grows :
    (u : AddSortOrder) (m : Fields)
    → Grows "order-id"
        (items_at "sort-orders" m)
        (items_at "sort-orders" (apply_add_sort_order u m).1)
unfolding apply_add_sort_order
apply_add_sort_order-Grows u m = elim (Option-cases u.sort_order) [
  | inl e ↦ inl (ground arith)
  | inr (given, e) ↦
      let (n, v) = with_id "order-id" (items_at "sort-orders" m) given in
      elim (Bool-cases (any (has_id "order-id" n) (items_at "sort-orders" m))) [
        | inl old ↦ inl (grind (arith, write_laws))
        | inr fresh ↦ inr (
          v,
          n,
          with_id-get "order-id" (items_at "sort-orders" m) given,
          fresh,
          grind (arith, write_laws),
        )
      ]
]

pub apply_add_snapshot-Grows :
    (u : AddSnapshot) (m : Fields)
    → Grows "snapshot-id" (items_at "snapshots" m) (items_at "snapshots" (apply_add_snapshot u m).1)
unfolding apply_add_snapshot
apply_add_snapshot-Grows u m = elim (Option-cases u.snapshot) [
  | inl e ↦ inl (ground arith)
  | inr (v, e) ↦ elim (Option-cases (get_int64 v "snapshot-id")) [
    | inl e' ↦ inl (ground arith)
    | inr (n, e') ↦ elim (Option-cases (get_int64 v "timestamp-ms")) [
      | inl e'' ↦ inl (ground arith)
      | inr (t, e'') ↦ elim (Bool-cases (any (has_id "snapshot-id" n) (items_at "snapshots" m))) [
        | inl old ↦ inl (grind (arith, write_laws))
        | inr fresh ↦ inr (v, n, e', fresh, grind (arith, write_laws))
      ]
    ]
  ]
]

-- What a successful `removeItemsByID` returns.
remove_items_by_id-Shrinks :
    (items : Items) (ids : List ℤ) (key : String) (protected : ℤ) (item_type : String)
    (items' : Items)
    → remove_items_by_id items ids key protected item_type ≡ ok items'
    → Shrinks key protected items items'
unfolding remove_items_by_id
remove_items_by_id-Shrinks items [] key protected item_type items' h = inl (ground arith)
remove_items_by_id-Shrinks items (n ∷ ids) key protected item_type items' h =
    elim (Bool-cases (is_empty items)) [
      | inl empty ↦ inl (ground arith)
      | inr some_items ↦ inr (n ∷ ids, ground arith, ground arith)
    ]

Shrinks-subst :
    (key : String) (protected : ℤ) {a a' b b' : Items}
    → a ≡ b
    → a' ≡ b'
    → Shrinks key protected b b'
    → Shrinks key protected a a'
Shrinks-subst key protected p q h = rw (p, q) h

pub apply_remove_schemas-Shrinks :
    (u : RemoveSchemas) (m : Fields)
    → Shrinks "schema-id"
        (or_zero (get_int m "current-schema-id"))
        (items_at "schemas" m)
        (items_at "schemas" (apply_remove_schemas u m).1)
unfolding apply_remove_schemas
apply_remove_schemas-Shrinks u m = elim (Option-cases (get_slice m "schemas")) [
  | inl e ↦ inl (ground arith)
  | inr (items, e) ↦
      let protected = or_zero (get_int m "current-schema-id") in
      elim (Result-cases
        (remove_items_by_id items u.schema_ids "schema-id" protected "current schema")) [
          | inr (failure, r) ↦ inl (ground arith)
          | inl (filtered, r) ↦
              Shrinks-subst "schema-id" protected (ground arith) (grind (arith, get-set)) (
                remove_items_by_id-Shrinks items u.schema_ids "schema-id" protected "current schema"
                  filtered r)
        ]
]

pub apply_remove_partition_specs-Shrinks :
    (u : RemovePartitionSpecs) (m : Fields)
    → Shrinks "spec-id"
        (or_zero (get_int m "default-spec-id"))
        (items_at "partition-specs" m)
        (items_at "partition-specs" (apply_remove_partition_specs u m).1)
unfolding apply_remove_partition_specs
apply_remove_partition_specs-Shrinks u m = elim (Option-cases (get_slice m "partition-specs")) [
  | inl e ↦ inl (ground arith)
  | inr (items, e) ↦
      let protected = or_zero (get_int m "default-spec-id") in
      elim (Result-cases
        (remove_items_by_id items u.spec_ids "spec-id" protected "default partition spec")) [
          | inr (failure, r) ↦ inl (ground arith)
          | inl (filtered, r) ↦
              Shrinks-subst "spec-id" protected (ground arith) (grind (arith, get-set)) (
                remove_items_by_id-Shrinks items u.spec_ids "spec-id" protected
                  "default partition spec" filtered r)
        ]
]

-- What a call that removes snapshots has done: nothing, or it has filtered the snapshots, and no
-- reference names one of the ids, nor does `current-snapshot-id`.
abbrev pub Expires : List ℤ → Fields → Fields → Type 0
Expires ids m m' =
    (m' ≡ m)
    ⊎ ((find_referenced ids (or_end (get_map m "refs")) ≡ none)
        × ((n : ℤ) → get_int64 m "current-snapshot-id" ≡ some n → mem_id n ids ≡ false)
        × (m'
            ≡ set "snapshots" (slice (filter (keeps "snapshot-id" ids) (items_at "snapshots" m)))
                m))

expire :
    (n : ℤ) (ids : List ℤ) (m : Fields) (v : Value) (items : Items)
    → get_slice m "snapshots" ≡ some (cons v items)
    → Expires (n ∷ ids) m (remove_snapshot_ids (n ∷ ids) (some (cons v items)) m).1
expire n ids m v items e =
    elim (Option-cases (find_referenced (n ∷ ids) (or_end (get_map m "refs")))) [
      | inr (found, f) ↦ inl (ground arith)
      | inl f ↦ elim (Option-cases (get_int64 m "current-snapshot-id")) [
        | inl c ↦ inr (f, (λ k h. ground arith), ground arith)
        | inr (current, c) ↦ elim (Bool-cases (mem_id current (n ∷ ids))) [
          | inl hit ↦ inl (ground arith)
          | inr miss ↦ inr (f, (λ k h. ground arith), ground arith)
        ]
      ]
    ]

pub apply_remove_snapshots-Expires :
    (u : RemoveSnapshots) (m : Fields) → Expires u.snapshot_ids m (apply_remove_snapshots u m).1
unfolding apply_remove_snapshots
apply_remove_snapshots-Expires u m = go u.snapshot_ids (get_slice m "snapshots") refl
  where
    go :
        (ids : List ℤ) (o : Option Items)
        → get_slice m "snapshots" ≡ o
        → Expires ids m (remove_snapshot_ids ids o m).1
    go [] o e = inl refl
    go (n ∷ ids) none e = inl refl
    go (n ∷ ids) (some nil) e = inl refl
    go (n ∷ ids) (some (cons v items)) e = expire n ids m v items e
