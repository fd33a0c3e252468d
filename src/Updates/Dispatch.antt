-- ===== src/Updates/Dispatch.antt =====
-- internal/api/handlers/updates/processor.go: the switches of `parseUpdate` and `applyUpdate`. The
-- targets of json.Unmarshal are a type of their own, which the type assertions look into.
use bingsan.Prelude.{String, Option, none, some, List, [], ◌∷◌, ◌==◌, if◌then◌else◌}
use mathlib.Core.Logic.{ite}
use bingsan.Updates.Types.{
  AssignUuid, UpgradeFormatVersion, SetLocation, SetProperties, RemoveProperties, AddSchema,
  SetCurrentSchema, RemoveSchemas, AddSpec, SetDefaultSpec, RemovePartitionSpecs, AddSortOrder,
  SetDefaultSortOrder, AddSnapshot, SetSnapshotRef, RemoveSnapshots, RemoveSnapshotRef,
  SetStatistics, RemoveStatistics, SetPartitionStatistics, RemovePartitionStatistics,
  AddEncryptionKey, RemoveEncryptionKey, Error, unhandled, bad_assertion,
}
use bingsan.Updates.Exec.{Exec, fail}
use bingsan.Updates.Properties.{
  apply_assign_uuid, apply_upgrade_format_version, apply_set_location, apply_set_properties,
  apply_remove_properties, apply_add_encryption_key, apply_remove_encryption_key,
}
use bingsan.Updates.Schema.{apply_add_schema, apply_set_current_schema, apply_remove_schemas}
use bingsan.Updates.Partition.{apply_add_spec, apply_set_default_spec, apply_remove_partition_specs}
use bingsan.Updates.SortOrder.{apply_add_sort_order, apply_set_default_sort_order}
use bingsan.Updates.Snapshot.{
  apply_add_snapshot, apply_set_snapshot_ref, apply_remove_snapshots, apply_remove_snapshot_ref,
}
use bingsan.Updates.Statistics.{
  apply_set_statistics, apply_remove_statistics, apply_set_partition_statistics,
  apply_remove_partition_statistics,
}

-- The case labels that both switches have.
pub data Kind : Type 0 where
  assign_uuid upgrade_format_version set_location set_properties remove_properties : Kind
  add_schema set_current_schema remove_schemas add_spec set_default_spec remove_partition_specs
        add_sort_order set_default_sort_order :
      Kind
  add_snapshot set_snapshot_ref remove_snapshots remove_snapshot_ref : Kind
  set_statistics remove_statistics set_partition_statistics remove_partition_statistics : Kind
  add_encryption_key remove_encryption_key : Kind

unfoldable pub kind_of : String → Option Kind
kind_of action =
    if action == "assign-uuid"
    then some Kind.assign_uuid
    else if action == "upgrade-format-version"
    then some Kind.upgrade_format_version
    else if action == "set-location"
    then some Kind.set_location
    else if action == "set-properties"
    then some Kind.set_properties
    else if action == "remove-properties"
    then some Kind.remove_properties
    else if action == "add-schema"
    then some Kind.add_schema
    else if action == "set-current-schema"
    then some Kind.set_current_schema
    else if action == "remove-schemas"
    then some Kind.remove_schemas
    else if action == "add-spec"
    then some Kind.add_spec
    else if action == "set-default-spec"
    then some Kind.set_default_spec
    else if action == "remove-partition-specs"
    then some Kind.remove_partition_specs
    else if action == "add-sort-order"
    then some Kind.add_sort_order
    else if action == "set-default-sort-order"
    then some Kind.set_default_sort_order
    else if action == "add-snapshot"
    then some Kind.add_snapshot
    else if action == "set-snapshot-ref"
    then some Kind.set_snapshot_ref
    else if action == "remove-snapshots"
    then some Kind.remove_snapshots
    else if action == "remove-snapshot-ref"
    then some Kind.remove_snapshot_ref
    else if action == "set-statistics"
    then some Kind.set_statistics
    else if action == "remove-statistics"
    then some Kind.remove_statistics
    else if action == "set-partition-statistics"
    then some Kind.set_partition_statistics
    else if action == "remove-partition-statistics"
    then some Kind.remove_partition_statistics
    else if action == "add-encryption-key"
    then some Kind.add_encryption_key
    else if action == "remove-encryption-key"
    then some Kind.remove_encryption_key
    else none

-- A pointer to one of the structs, as the `any` that `parseUpdate` returns.
pub data Update : Type 0 where
  assign_uuid : AssignUuid → Update
  upgrade_format_version : UpgradeFormatVersion → Update
  set_location : SetLocation → Update
  set_properties : SetProperties → Update
  remove_properties : RemoveProperties → Update
  add_schema : AddSchema → Update
  set_current_schema : SetCurrentSchema → Update
  remove_schemas : RemoveSchemas → Update
  add_spec : AddSpec → Update
  set_default_spec : SetDefaultSpec → Update
  remove_partition_specs : RemovePartitionSpecs → Update
  add_sort_order : AddSortOrder → Update
  set_default_sort_order : SetDefaultSortOrder → Update
  add_snapshot : AddSnapshot → Update
  set_snapshot_ref : SetSnapshotRef → Update
  remove_snapshots : RemoveSnapshots → Update
  remove_snapshot_ref : RemoveSnapshotRef → Update
  set_statistics : SetStatistics → Update
  remove_statistics : RemoveStatistics → Update
  set_partition_statistics : SetPartitionStatistics → Update
  remove_partition_statistics : RemovePartitionStatistics → Update
  add_encryption_key : AddEncryptionKey → Update
  remove_encryption_key : RemoveEncryptionKey → Update

-- The type of a target, by the label under which `parseUpdate` makes it.
abbrev pub target_kind : Update → Kind
target_kind (Update.assign_uuid _) = Kind.assign_uuid
target_kind (Update.upgrade_format_version _) = Kind.upgrade_format_version
target_kind (Update.set_location _) = Kind.set_location
target_kind (Update.set_properties _) = Kind.set_properties
target_kind (Update.remove_properties _) = Kind.remove_properties
target_kind (Update.add_schema _) = Kind.add_schema
target_kind (Update.set_current_schema _) = Kind.set_current_schema
target_kind (Update.remove_schemas _) = Kind.remove_schemas
target_kind (Update.add_spec _) = Kind.add_spec
target_kind (Update.set_default_spec _) = Kind.set_default_spec
target_kind (Update.remove_partition_specs _) = Kind.remove_partition_specs
target_kind (Update.add_sort_order _) = Kind.add_sort_order
target_kind (Update.set_default_sort_order _) = Kind.set_default_sort_order
target_kind (Update.add_snapshot _) = Kind.add_snapshot
target_kind (Update.set_snapshot_ref _) = Kind.set_snapshot_ref
target_kind (Update.remove_snapshots _) = Kind.remove_snapshots
target_kind (Update.remove_snapshot_ref _) = Kind.remove_snapshot_ref
target_kind (Update.set_statistics _) = Kind.set_statistics
target_kind (Update.remove_statistics _) = Kind.remove_statistics
target_kind (Update.set_partition_statistics _) = Kind.set_partition_statistics
target_kind (Update.remove_partition_statistics _) = Kind.remove_partition_statistics
target_kind (Update.add_encryption_key _) = Kind.add_encryption_key
target_kind (Update.remove_encryption_key _) = Kind.remove_encryption_key

pub Kind-discrete : Discrete Kind
Kind-discrete = hlevel

-- The cases of `applyUpdate`, each on a target of its own type.
unfoldable pub handle : Update → Exec Error (Unit {0})
handle (Update.assign_uuid u) = apply_assign_uuid u
handle (Update.upgrade_format_version u) = apply_upgrade_format_version u
handle (Update.set_location u) = apply_set_location u
handle (Update.set_properties u) = apply_set_properties u
handle (Update.remove_properties u) = apply_remove_properties u
handle (Update.add_schema u) = apply_add_schema u
handle (Update.set_current_schema u) = apply_set_current_schema u
handle (Update.remove_schemas u) = apply_remove_schemas u
handle (Update.add_spec u) = apply_add_spec u
handle (Update.set_default_spec u) = apply_set_default_spec u
handle (Update.remove_partition_specs u) = apply_remove_partition_specs u
handle (Update.add_sort_order u) = apply_add_sort_order u
handle (Update.set_default_sort_order u) = apply_set_default_sort_order u
handle (Update.add_snapshot u) = apply_add_snapshot u
handle (Update.set_snapshot_ref u) = apply_set_snapshot_ref u
handle (Update.remove_snapshots u) = apply_remove_snapshots u
handle (Update.remove_snapshot_ref u) = apply_remove_snapshot_ref u
handle (Update.set_statistics u) = apply_set_statistics u
handle (Update.remove_statistics u) = apply_remove_statistics u
handle (Update.set_partition_statistics u) = apply_set_partition_statistics u
handle (Update.remove_partition_statistics u) = apply_remove_partition_statistics u
handle (Update.add_encryption_key u) = apply_add_encryption_key u
handle (Update.remove_encryption_key u) = apply_remove_encryption_key u

-- A type assertion on a target of another type panics.
unfoldable pub dispatch : Kind → Update → Exec Error (Unit {0})
dispatch kind u = ite (Kind-discrete kind (target_kind u)) (handle u) (fail bad_assertion)

abbrev pub dispatch_to : Option Kind → String → Update → Exec Error (Unit {0})
dispatch_to none action u = fail (unhandled action)
dispatch_to (some kind) action u = dispatch kind u

unfoldable pub apply_update : String → Update → Exec Error (Unit {0})
apply_update action u = dispatch_to (kind_of action) action u

-- Updates are applied action by action, in this order.
abbrev pub processing_order : List String
processing_order =
    "assign-uuid" ∷ "upgrade-format-version" ∷ "set-location" ∷ "add-schema" ∷ "set-current-schema"
    ∷ "add-spec" ∷ "set-default-spec" ∷ "add-sort-order" ∷ "set-default-sort-order" ∷ "add-snapshot"
    ∷ "set-snapshot-ref" ∷ "set-statistics" ∷ "set-partition-statistics" ∷ "set-properties"
    ∷ "remove-properties" ∷ "remove-statistics" ∷ "remove-partition-statistics"
    ∷ "remove-snapshot-ref" ∷ "remove-snapshots" ∷ "remove-partition-specs" ∷ "remove-schemas"
    ∷ "add-encryption-key" ∷ "remove-encryption-key" ∷ []

-- json.Unmarshal into each of the targets; `none` is its error.
pub record Decoder (Raw : Type 0) : Type 0 where
  pub decode_assign_uuid : Raw → Option AssignUuid
  pub decode_upgrade_format_version : Raw → Option UpgradeFormatVersion
  pub decode_set_location : Raw → Option SetLocation
  pub decode_set_properties : Raw → Option SetProperties
  pub decode_remove_properties : Raw → Option RemoveProperties
  pub decode_add_schema : Raw → Option AddSchema
  pub decode_set_current_schema : Raw → Option SetCurrentSchema
  pub decode_remove_schemas : Raw → Option RemoveSchemas
  pub decode_add_spec : Raw → Option AddSpec
  pub decode_set_default_spec : Raw → Option SetDefaultSpec
  pub decode_remove_partition_specs : Raw → Option RemovePartitionSpecs
  pub decode_add_sort_order : Raw → Option AddSortOrder
  pub decode_set_default_sort_order : Raw → Option SetDefaultSortOrder
  pub decode_add_snapshot : Raw → Option AddSnapshot
  pub decode_set_snapshot_ref : Raw → Option SetSnapshotRef
  pub decode_remove_snapshots : Raw → Option RemoveSnapshots
  pub decode_remove_snapshot_ref : Raw → Option RemoveSnapshotRef
  pub decode_set_statistics : Raw → Option SetStatistics
  pub decode_remove_statistics : Raw → Option RemoveStatistics
  pub decode_set_partition_statistics : Raw → Option SetPartitionStatistics
  pub decode_remove_partition_statistics : Raw → Option RemovePartitionStatistics
  pub decode_add_encryption_key : Raw → Option AddEncryptionKey
  pub decode_remove_encryption_key : Raw → Option RemoveEncryptionKey
