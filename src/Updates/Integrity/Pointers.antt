-- ===== src/Updates/Integrity/Pointers.antt =====
-- `current-schema-id`, `default-spec-id` and `default-sort-order-id`, and the items they name.
use bingsan.Prelude.{
  String, ◌≡◌, refl, true, false, some, List, ◌⊎◌, inl, inr, arith, Bool-cases, Option-cases, ◌==◌,
  eq_refl,
}
use bingsan.Prelude.Int.{ℤ, eqb_ℤ_iff}
use bingsan.Go.Value.{Value, Items, Fields, int, object}
use bingsan.Go.Map.{get, set, get-set}
use bingsan.Go.Slice.{any, any-append, any-filter}
use bingsan.Updates.Types.{SetCurrentSchema, SetDefaultSpec, SetDefaultSortOrder}
use bingsan.Updates.Util.{
  get_int, get_slice, or_zero, non_empty, has_id, item_id, keeps, mem_id, resolve_id, set_default,
}
use bingsan.Updates.Schema.{apply_set_current_schema}
use bingsan.Updates.Partition.{apply_set_default_spec}
use bingsan.Updates.SortOrder.{apply_set_default_sort_order}
use bingsan.Updates.Dispatch.{Update, handle}
use bingsan.Updates.Frame.{handle-frame}
use bingsan.Updates.Integrity.Slices.{
  items_at, Grows, Shrinks, apply_add_schema-Grows, apply_add_spec-Grows,
  apply_add_sort_order-Grows, apply_remove_schemas-Shrinks, apply_remove_partition_specs-Shrinks,
}

pub Grows-any :
    (key : String) (n : ℤ) (items items' : Items)
    → Grows key items items'
    → any (has_id key n) items ≡ true
    → any (has_id key n) items' ≡ true
Grows-any key n items items' (inl same) h = rw same h
Grows-any key n items items' (inr (v, k, _, _, grown)) h =
    rw (grown, any-append (has_id key n) items (object v), h)

pub keeps_of_has_id :
    (key : String) (n : ℤ) (ids : List ℤ) (v : Value)
    → mem_id n ids ≡ false
    → has_id key n v ≡ true
    → keeps key ids v ≡ true
unfolding has_id keeps
keeps_of_has_id key n ids v miss h = elim (Option-cases (item_id key v)) [
  | inl e ↦ ground arith
  | inr (k, e) ↦ ground (arith, eqb_ℤ_iff k n)
]

Shrinks-any :
    (key : String) (n : ℤ) (items items' : Items)
    → Shrinks key n items items'
    → any (has_id key n) items ≡ true
    → any (has_id key n) items' ≡ true
Shrinks-any key n items items' (inl same) h = rw same h
Shrinks-any key n items items' (inr (ids, miss, less)) h =
    rw
      (
        less,
        any-filter (has_id key n) (keeps key ids) items (λ v. keeps_of_has_id key n ids v miss),
      )
      h

-- The metadata is as it was, or the key has the id of an item.
abbrev pub Points : String → String → String → Fields → Fields → Type 0
Points slice_key id_key default_key m m' =
    (m' ≡ m)
    ⊎ ((n : ℤ) × (any (has_id id_key n) (items_at slice_key m) ≡ true)
        × (m' ≡ set default_key (int n) m))

set_default-Points :
    (slice_key id_key default_key what id_word : String) (n : ℤ) (m : Fields)
    → Points slice_key id_key default_key m
        (set_default slice_key id_key default_key what id_word n m).1
set_default-Points slice_key id_key default_key what id_word n m =
    elim (Option-cases (non_empty (get_slice m slice_key))) [
      | inl e ↦ inl (ground arith)
      | inr (items, e) ↦
          let target = resolve_id id_key n items in
          elim (Bool-cases (any (has_id id_key target) items)) [
            | inl found ↦ inr (target, ground arith, ground arith)
            | inr missing ↦ inl (ground arith)
          ]
    ]

-- What a key names exists in the slice.
abbrev pub Exists : String → String → String → Fields → Type 0
Exists slice_key id_key default_key m =
    (n : ℤ) → get_int m default_key ≡ some n → any (has_id id_key n) (items_at slice_key m) ≡ true

module _ (slice_key id_key default_key : String) (m m' : Fields) where
  Exists-same :
      get default_key m' ≡ get default_key m
      → get slice_key m' ≡ get slice_key m
      → Exists slice_key id_key default_key m
      → Exists slice_key id_key default_key m'
  Exists-same p q h n e = rw q (h n (rw p at e))

  Exists-Grows :
      get default_key m' ≡ get default_key m
      → Grows id_key (items_at slice_key m) (items_at slice_key m')
      → Exists slice_key id_key default_key m
      → Exists slice_key id_key default_key m'
  Exists-Grows p g h n e =
      Grows-any id_key n (items_at slice_key m) (items_at slice_key m') g (h n (rw p at e))

  Exists-Shrinks :
      get default_key m' ≡ get default_key m
      → Shrinks id_key
          (or_zero (get_int m default_key))
          (items_at slice_key m)
          (items_at slice_key m')
      → Exists slice_key id_key default_key m
      → Exists slice_key id_key default_key m'
  Exists-Shrinks p g h n e =
      let e' : get_int m default_key ≡ some n = rw p at e in
      Shrinks-any id_key n (items_at slice_key m) (items_at slice_key m') (rw e' at g) (h n e')

  Exists-Points :
      (default_key == slice_key) ≡ false
      → Points slice_key id_key default_key m m'
      → Exists slice_key id_key default_key m
      → Exists slice_key id_key default_key m'
  Exists-Points apart (inl same) h n en = rw same (h n (rw same at en))
  Exists-Points apart (inr (k, found, e)) h n en =
      let at_default : get default_key m' ≡ some (int k) = rw e (simp (get-set, eq_refl)) in
      let at_slice : get slice_key m' ≡ get slice_key m = rw e (simp (get-set, apart)) in
      let same : k ≡ n = ground (arith, at_default, en) in rw (at_slice, ← same) found

abbrev KeepsExists : String → String → String → Type 0
KeepsExists slice_key id_key default_key =
    (u : Update) (m : Fields)
    → Exists slice_key id_key default_key m
    → Exists slice_key id_key default_key (handle u m).1

apply_set_current_schema-Points :
    (u : SetCurrentSchema) (m : Fields)
    → Points "schemas" "schema-id" "current-schema-id" m (apply_set_current_schema u m).1
unfolding apply_set_current_schema
apply_set_current_schema-Points u m =
    set_default-Points "schemas" "schema-id" "current-schema-id" "schemas" "schema-id" u.schema_id m

apply_set_default_spec-Points :
    (u : SetDefaultSpec) (m : Fields)
    → Points "partition-specs" "spec-id" "default-spec-id" m (apply_set_default_spec u m).1
unfolding apply_set_default_spec
apply_set_default_spec-Points u m =
    set_default-Points "partition-specs" "spec-id" "default-spec-id" "partition specs" "spec-id"
      u.spec_id m

apply_set_default_sort_order-Points :
    (u : SetDefaultSortOrder) (m : Fields)
    → Points "sort-orders" "order-id" "default-sort-order-id" m (apply_set_default_sort_order u m).1
unfolding apply_set_default_sort_order
apply_set_default_sort_order-Points u m =
    set_default-Points "sort-orders" "order-id" "default-sort-order-id" "sort orders"
      "sort-order-id" u.sort_order_id m

pub current_schema_exists : KeepsExists "schemas" "schema-id" "current-schema-id"
unfolding handle
current_schema_exists (Update.add_schema u) m h =
    Exists-Grows "schemas" "schema-id" "current-schema-id" m _
      (handle-frame (Update.add_schema u) m "current-schema-id" refl) (apply_add_schema-Grows u m) h
current_schema_exists (Update.remove_schemas u) m h =
    Exists-Shrinks "schemas" "schema-id" "current-schema-id" m _
      (handle-frame (Update.remove_schemas u) m "current-schema-id" refl)
      (apply_remove_schemas-Shrinks u m) h
current_schema_exists (Update.set_current_schema u) m h =
    Exists-Points "schemas" "schema-id" "current-schema-id" m _ refl
      (apply_set_current_schema-Points u m) h
current_schema_exists u m h =
    Exists-same "schemas" "schema-id" "current-schema-id" m _
      (handle-frame u m "current-schema-id" refl) (handle-frame u m "schemas" refl) h

pub default_spec_exists : KeepsExists "partition-specs" "spec-id" "default-spec-id"
unfolding handle
default_spec_exists (Update.add_spec u) m h =
    Exists-Grows "partition-specs" "spec-id" "default-spec-id" m _
      (handle-frame (Update.add_spec u) m "default-spec-id" refl) (apply_add_spec-Grows u m) h
default_spec_exists (Update.remove_partition_specs u) m h =
    Exists-Shrinks "partition-specs" "spec-id" "default-spec-id" m _
      (handle-frame (Update.remove_partition_specs u) m "default-spec-id" refl)
      (apply_remove_partition_specs-Shrinks u m) h
default_spec_exists (Update.set_default_spec u) m h =
    Exists-Points "partition-specs" "spec-id" "default-spec-id" m _ refl
      (apply_set_default_spec-Points u m) h
default_spec_exists u m h =
    Exists-same "partition-specs" "spec-id" "default-spec-id" m _
      (handle-frame u m "default-spec-id" refl) (handle-frame u m "partition-specs" refl) h

pub default_order_exists : KeepsExists "sort-orders" "order-id" "default-sort-order-id"
unfolding handle
default_order_exists (Update.add_sort_order u) m h =
    Exists-Grows "sort-orders" "order-id" "default-sort-order-id" m _
      (handle-frame (Update.add_sort_order u) m "default-sort-order-id" refl)
      (apply_add_sort_order-Grows u m) h
default_order_exists (Update.set_default_sort_order u) m h =
    Exists-Points "sort-orders" "order-id" "default-sort-order-id" m _ refl
      (apply_set_default_sort_order-Points u m) h
default_order_exists u m h =
    Exists-same "sort-orders" "order-id" "default-sort-order-id" m _
      (handle-frame u m "default-sort-order-id" refl) (handle-frame u m "sort-orders" refl) h
