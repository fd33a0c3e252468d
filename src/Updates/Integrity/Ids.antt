-- ===== src/Updates/Integrity/Ids.antt =====
-- The uniqueness of ids in the metadata, under the handlers and under `Apply`.
use bingsan.Prelude.{◌≡◌, refl, String, Bool, false, Option, List}
use bingsan.Go.Value.{Value, Fields, as_slice}
use bingsan.Updates.Util.{or_nil, and_then, has_id}
use bingsan.Updates.Properties.{has_key_id}
use bingsan.Updates.Dispatch.{Update, Decoder, handle, target_kind}
use bingsan.Updates.Frame.{touches, handle-keep}
use bingsan.Updates.Processor.{RawUpdate, apply}
use bingsan.Updates.Processor.Induction.{apply-keeps}
use bingsan.Updates.Integrity.Slices.{
  items_at, apply_add_schema-Grows, apply_add_spec-Grows, apply_add_sort_order-Grows,
  apply_add_snapshot-Grows, apply_remove_schemas-Shrinks, apply_remove_partition_specs-Shrinks,
}
use bingsan.Updates.Integrity.Unique.{
  IsUnique, Grows-IsUnique, Shrinks-IsUnique, Replaces-IsUnique, Filters-IsUnique,
  GrowsKeys-IsUnique, apply_set_statistics-Replaces, apply_set_partition_statistics-Replaces,
  apply_remove_statistics-Filters, apply_remove_partition_statistics-Filters,
  apply_remove_encryption_key-Filters, apply_remove_snapshots-Filters,
  apply_add_encryption_key-GrowsKeys,
}

-- In none of its slices does the metadata have two items with one id.
pub record HasUniqueIds (m : Fields) : Type 0 where
  pub schemas : IsUnique (has_id "schema-id") (items_at "schemas" m)
  pub specs : IsUnique (has_id "spec-id") (items_at "partition-specs" m)
  pub orders : IsUnique (has_id "order-id") (items_at "sort-orders" m)
  pub snapshots : IsUnique (has_id "snapshot-id") (items_at "snapshots" m)
  pub statistics : IsUnique (has_id "snapshot-id") (items_at "statistics" m)
  pub partition_statistics : IsUnique (has_id "snapshot-id") (items_at "partition-statistics" m)
  pub keys : IsUnique has_key_id (items_at "encryption-keys" m)

abbrev UniqueAt : {K : Type 0} → (K → Value → Bool) → Option Value → Type 0
UniqueAt p o = IsUnique p (or_nil (and_then o as_slice))

keep-IsUnique :
    {K : Type 0} (p : K → Value → Bool) (key : String) (u : Update) (m : Fields)
    → touches (target_kind u) key ≡ false
    → IsUnique p (items_at key m)
    → IsUnique p (items_at key (handle u m).1)
keep-IsUnique p key u m h = handle-keep (UniqueAt p) key u m h

abbrev KeepsUnique : {K : Type 0} → (K → Value → Bool) → String → Type 0
KeepsUnique p key =
    (u : Update) (m : Fields)
    → IsUnique p (items_at key m)
    → IsUnique p (items_at key (handle u m).1)

schemas_stay : KeepsUnique (has_id "schema-id") "schemas"
unfolding handle
schemas_stay (Update.add_schema u) m h =
    Grows-IsUnique "schema-id" _ _ (apply_add_schema-Grows u m) h
schemas_stay (Update.remove_schemas u) m h =
    Shrinks-IsUnique "schema-id" _ _ _ (apply_remove_schemas-Shrinks u m) h
schemas_stay u m h = keep-IsUnique (has_id "schema-id") "schemas" u m refl h

specs_stay : KeepsUnique (has_id "spec-id") "partition-specs"
unfolding handle
specs_stay (Update.add_spec u) m h = Grows-IsUnique "spec-id" _ _ (apply_add_spec-Grows u m) h
specs_stay (Update.remove_partition_specs u) m h =
    Shrinks-IsUnique "spec-id" _ _ _ (apply_remove_partition_specs-Shrinks u m) h
specs_stay u m h = keep-IsUnique (has_id "spec-id") "partition-specs" u m refl h

orders_stay : KeepsUnique (has_id "order-id") "sort-orders"
unfolding handle
orders_stay (Update.add_sort_order u) m h =
    Grows-IsUnique "order-id" _ _ (apply_add_sort_order-Grows u m) h
orders_stay u m h = keep-IsUnique (has_id "order-id") "sort-orders" u m refl h

snapshots_stay : KeepsUnique (has_id "snapshot-id") "snapshots"
unfolding handle
snapshots_stay (Update.add_snapshot u) m h =
    Grows-IsUnique "snapshot-id" _ _ (apply_add_snapshot-Grows u m) h
snapshots_stay (Update.remove_snapshots u) m h =
    Filters-IsUnique (has_id "snapshot-id") _ _ (apply_remove_snapshots-Filters u m) h
snapshots_stay u m h = keep-IsUnique (has_id "snapshot-id") "snapshots" u m refl h

statistics_stay : KeepsUnique (has_id "snapshot-id") "statistics"
unfolding handle
statistics_stay (Update.set_statistics u) m h =
    Replaces-IsUnique _ _ (apply_set_statistics-Replaces u m) h
statistics_stay (Update.remove_statistics u) m h =
    Filters-IsUnique (has_id "snapshot-id") _ _ (apply_remove_statistics-Filters u m) h
statistics_stay u m h = keep-IsUnique (has_id "snapshot-id") "statistics" u m refl h

partition_statistics_stay : KeepsUnique (has_id "snapshot-id") "partition-statistics"
unfolding handle
partition_statistics_stay (Update.set_partition_statistics u) m h =
    Replaces-IsUnique _ _ (apply_set_partition_statistics-Replaces u m) h
partition_statistics_stay (Update.remove_partition_statistics u) m h =
    Filters-IsUnique (has_id "snapshot-id") _ _ (apply_remove_partition_statistics-Filters u m) h
partition_statistics_stay u m h =
    keep-IsUnique (has_id "snapshot-id") "partition-statistics" u m refl h

keys_stay : KeepsUnique has_key_id "encryption-keys"
unfolding handle
keys_stay (Update.add_encryption_key u) m h =
    GrowsKeys-IsUnique _ _ (apply_add_encryption_key-GrowsKeys u m) h
keys_stay (Update.remove_encryption_key u) m h =
    Filters-IsUnique has_key_id _ _ (apply_remove_encryption_key-Filters u m) h
keys_stay u m h = keep-IsUnique has_key_id "encryption-keys" u m refl h

handle-HasUniqueIds : (u : Update) (m : Fields) → HasUniqueIds m → HasUniqueIds (handle u m).1
handle-HasUniqueIds u m h = record {
  schemas = schemas_stay u m h.schemas;
  specs = specs_stay u m h.specs;
  orders = orders_stay u m h.orders;
  snapshots = snapshots_stay u m h.snapshots;
  statistics = statistics_stay u m h.statistics;
  partition_statistics = partition_statistics_stay u m h.partition_statistics;
  keys = keys_stay u m h.keys;
}

-- Whatever a commit asks for, and also where it fails half way: if no id occurs twice among the
-- schemas, the partition specs, the sort orders, the snapshots, the statistics, the partition
-- statistics or the encryption keys, then none does after `Apply`.
pub apply-HasUniqueIds :
    {Raw : Type 0} (decoder : Decoder Raw) (updates : List (RawUpdate Raw)) (m : Fields)
    → HasUniqueIds m
    → HasUniqueIds (apply decoder updates m).1
apply-HasUniqueIds = apply-keeps HasUniqueIds handle-HasUniqueIds
