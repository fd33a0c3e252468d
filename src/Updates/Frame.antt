-- ===== src/Updates/Frame.antt =====
-- Which top-level keys of the metadata each handler of processor.go may write.
use bingsan.Prelude.{String, ◌≡◌, subst, sym, Bool, false, Option, ◌||◌, arith, ◌==◌}
use bingsan.Go.Value.{Value, Fields}
use bingsan.Go.Map.{get}
use bingsan.Updates.Types.{AddSnapshot}
use bingsan.Updates.Util.Laws.{write_laws}
use bingsan.Updates.Properties.{
  apply_assign_uuid, apply_upgrade_format_version, apply_set_location, apply_set_properties,
  apply_remove_properties, apply_add_encryption_key, apply_remove_encryption_key,
}
use bingsan.Updates.Schema.{apply_add_schema, apply_set_current_schema, apply_remove_schemas}
use bingsan.Updates.Partition.{apply_add_spec, apply_set_default_spec, apply_remove_partition_specs}
use bingsan.Updates.SortOrder.{apply_add_sort_order, apply_set_default_sort_order}
use bingsan.Updates.Snapshot.{
  apply_add_snapshot, apply_set_snapshot_ref, apply_remove_snapshots, apply_remove_snapshot_ref,
}
use bingsan.Updates.Statistics.{
  apply_set_statistics, apply_remove_statistics, apply_set_partition_statistics,
  apply_remove_partition_statistics,
}
use bingsan.Updates.Dispatch.{Kind, Update, target_kind, handle}

abbrev pub touches : Kind → String → Bool
touches Kind.assign_uuid k = "table-uuid" == k
touches Kind.upgrade_format_version k = "format-version" == k
touches Kind.set_location k = "location" == k
touches Kind.set_properties k = "properties" == k
touches Kind.remove_properties k = "properties" == k
touches Kind.add_schema k = "schemas" == k || "last-column-id" == k
touches Kind.set_current_schema k = "current-schema-id" == k
touches Kind.remove_schemas k = "schemas" == k
touches Kind.add_spec k = "partition-specs" == k || "last-partition-id" == k
touches Kind.set_default_spec k = "default-spec-id" == k
touches Kind.remove_partition_specs k = "partition-specs" == k
touches Kind.add_sort_order k = "sort-orders" == k
touches Kind.set_default_sort_order k = "default-sort-order-id" == k
touches Kind.add_snapshot k = "snapshots" == k || "last-sequence-number" == k || "snapshot-log" == k
touches Kind.set_snapshot_ref k = "refs" == k || "current-snapshot-id" == k
touches Kind.remove_snapshots k = "snapshots" == k
touches Kind.remove_snapshot_ref k = "refs" == k || "current-snapshot-id" == k
touches Kind.set_statistics k = "statistics" == k
touches Kind.remove_statistics k = "statistics" == k
touches Kind.set_partition_statistics k = "partition-statistics" == k
touches Kind.remove_partition_statistics k = "partition-statistics" == k
touches Kind.add_encryption_key k = "encryption-keys" == k
touches Kind.remove_encryption_key k = "encryption-keys" == k

add_snapshot-frame :
    (u : AddSnapshot) (m : Fields) (k : String)
    → ("snapshots" == k) ≡ false
    → ("last-sequence-number" == k) ≡ false
    → ("snapshot-log" == k) ≡ false
    → get k (apply_add_snapshot u m).1 ≡ get k m
unfolding apply_add_snapshot
add_snapshot-frame u m k a b c = grind (arith, write_laws)

-- A handler leaves every top-level key but its own as it was, also when it fails.
pub handle-frame :
    (u : Update) (m : Fields) (k : String)
    → touches (target_kind u) k ≡ false
    → get k (handle u m).1 ≡ get k m
unfolding handle apply_assign_uuid apply_upgrade_format_version apply_set_location
    apply_set_properties apply_remove_properties apply_add_schema apply_set_current_schema
    apply_remove_schemas apply_add_spec apply_set_default_spec apply_remove_partition_specs
    apply_add_sort_order apply_set_default_sort_order apply_add_snapshot apply_set_snapshot_ref
    apply_remove_snapshots apply_remove_snapshot_ref apply_set_statistics apply_remove_statistics
    apply_set_partition_statistics apply_remove_partition_statistics apply_add_encryption_key
    apply_remove_encryption_key
handle-frame (Update.assign_uuid u) m k h = grind (arith, write_laws)
handle-frame (Update.add_snapshot u) m k h =
    add_snapshot-frame u m k (ground arith) (ground arith) (ground arith)
handle-frame _ m k h = grind (arith, write_laws)

-- A property of one key is kept by the handlers that do not write the key.
pub handle-keep :
    (P : Option Value → Type 0) (k : String) (u : Update) (m : Fields)
    → touches (target_kind u) k ≡ false
    → P (get k m)
    → P (get k (handle u m).1)
handle-keep P k u m h p = subst P (sym (handle-frame u m k h)) p
