-- ===== src/Updates/Types.antt =====
-- internal/api/handlers/updates/types.go and errors.go: the parsed updates, and what a handler
-- may answer. A nil map or pointer is `none`.
use bingsan.Prelude.{String, Option, List}
use bingsan.Prelude.Int.{ℤ}
use bingsan.Go.Value.{Fields}

pub record AssignUuid : Type 0 where
  pub uuid : String

pub record UpgradeFormatVersion : Type 0 where
  pub format_version : ℤ

pub record SetLocation : Type 0 where
  pub location : String

-- The pairs of `updates`, in the order in which the loop meets them.
pub record SetProperties : Type 0 where
  pub updates : List (String × String)

pub record RemoveProperties : Type 0 where
  pub removals : List String

pub record AddSchema : Type 0 where
  pub schema : Option Fields
  pub last_column_id : Option ℤ

pub record SetCurrentSchema : Type 0 where
  pub schema_id : ℤ

pub record RemoveSchemas : Type 0 where
  pub schema_ids : List ℤ

pub record AddSpec : Type 0 where
  pub spec : Option Fields

pub record SetDefaultSpec : Type 0 where
  pub spec_id : ℤ

pub record RemovePartitionSpecs : Type 0 where
  pub spec_ids : List ℤ

pub record AddSortOrder : Type 0 where
  pub sort_order : Option Fields

pub record SetDefaultSortOrder : Type 0 where
  pub sort_order_id : ℤ

pub record AddSnapshot : Type 0 where
  pub snapshot : Option Fields

pub record SetSnapshotRef : Type 0 where
  pub ref_name : String
  pub ref_type : String
  pub snapshot_id : ℤ
  pub max_ref_age_ms : Option ℤ
  pub max_snapshot_age_ms : Option ℤ
  pub min_snapshots_to_keep : Option ℤ

pub record RemoveSnapshots : Type 0 where
  pub snapshot_ids : List ℤ

pub record RemoveSnapshotRef : Type 0 where
  pub ref_name : String

pub record SetStatistics : Type 0 where
  pub snapshot_id : Option ℤ
  pub statistics : Option Fields

pub record RemoveStatistics : Type 0 where
  pub snapshot_id : ℤ

pub record SetPartitionStatistics : Type 0 where
  pub partition_statistics : Option Fields

pub record RemovePartitionStatistics : Type 0 where
  pub snapshot_id : ℤ

pub record AddEncryptionKey : Type 0 where
  pub encryption_key : Option Fields

pub record RemoveEncryptionKey : Type 0 where
  pub key_id : String

-- The messages of the handlers, each with what it prints.
pub data Error : Type 0 where
  required : String → Error
  cannot_change_uuid : Error
  bad_format_version : Error
  cannot_downgrade : ℤ → ℤ → Error
  already_exists : String → ℤ → Error
  key_already_exists : String → Error
  none_available : String → Error
  does_not_exist : String → ℤ → Error
  cannot_remove : String → ℤ → Error
  cannot_remove_all : String → Error
  bad_ref_type : String → Error
  referenced_by : ℤ → String → Error
  is_current : ℤ → Error
  unhandled : String → Error
  -- the panic of a type assertion that fails
  bad_assertion : Error
