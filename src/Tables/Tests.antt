-- ===== src/Tables/Tests.antt =====
-- internal/api/handlers/table.go: the theorems at two tables, a commit to one and the drop of the
-- other.
use bingsan.Prelude.{ℕ, refl, sym, ap, ◌∙◌, String, false, none, some, [], ◌∷◌, Memᴰ}
use bingsan.Prelude.Int.{pos}
use bingsan.Go.Value.{Fields, end, field, string, float64, json_trip}
use bingsan.Updates.Dispatch.{Decoder}
use bingsan.Db.Lock.{LockConfig, Attempt}
use bingsan.Tables.Commit.{CommitTableRequest, TableRow, World, TxError, Format, commit_table}
use bingsan.Tables.Create.{CreateTableRequest, create_table}
use bingsan.Tables.Created.{IsWhole, create_table-IsWhole}
use bingsan.Tables.Inserted.{IsMade, IsOne, create_table-IsMade}
use bingsan.Updates.Util.{has_id, item_id}
use bingsan.Go.Map.{get}
use bingsan.Go.Float64.{to_int64, of_int64}
use bingsan.Tables.Atomic.{IsAnswer, commit_table-IsAnswer}

-- Only the location can be set.
abbrev location_decoder : Decoder String
location_decoder = record {
  decode_assign_uuid = λ _. none;
  decode_upgrade_format_version = λ _. none;
  decode_set_location = λ raw. some (record { location = raw });
  decode_set_properties = λ _. none;
  decode_remove_properties = λ _. none;
  decode_add_schema = λ _. none;
  decode_set_current_schema = λ _. none;
  decode_remove_schemas = λ _. none;
  decode_add_spec = λ _. none;
  decode_set_default_spec = λ _. none;
  decode_remove_partition_specs = λ _. none;
  decode_add_sort_order = λ _. none;
  decode_set_default_sort_order = λ _. none;
  decode_add_snapshot = λ _. none;
  decode_set_snapshot_ref = λ _. none;
  decode_remove_snapshots = λ _. none;
  decode_remove_snapshot_ref = λ _. none;
  decode_set_statistics = λ _. none;
  decode_remove_statistics = λ _. none;
  decode_set_partition_statistics = λ _. none;
  decode_remove_partition_statistics = λ _. none;
  decode_add_encryption_key = λ _. none;
  decode_remove_encryption_key = λ _. none;
}

abbrev row_of : String → String → TableRow
row_of id name = record {
  id = id;
  namespace_id = "n";
  name = name;
  metadata_location = "old";
  metadata = field "table-uuid" (string "12345678") (field "location" (string "here") end);
  previous_metadata_location = none;
}

abbrev tables_before : World String
tables_before = record {
  store = record {
    namespaces = record { id = "n"; name = "db" ∷ [] } ∷ [];
    tables = row_of "1" "a" ∷ row_of "2" "b" ∷ [];
    commit_log = [];
  };
  now = pos 7;
  answers = record { select = none; exists = none; update = none };
}

abbrev move_request : CommitTableRequest String
move_request = record {
  requirements =
      record {
        type = "assert-table-uuid";
        ref = "";
        uuid = "12345678";
        snapshot_id = none;
        last_assigned_field_id = none;
        current_schema_id = none;
        last_assigned_partition_id = none;
        default_spec_id = none;
        default_sort_order_id = none;
      }
      ∷ [];
  updates = record { action = "set-location"; raw = "there" } ∷ [];
}

abbrev plain_format : Format
plain_format = record {
  metadata_path = λ location n now prefix. location;
  first_eight = λ uuid. some uuid;
}

abbrev lock_config : LockConfig
lock_config = record { timeout_ms = pos 5000; max_retries = pos 1 }

abbrev no_error : Attempt (TxError String)
no_error = record { waited = none; begin = none; set_timeout = λ _. none; commit = none }

abbrev alone : ℕ → World String → World String
alone n w = w

commit_table-IsAnswer_example :
    IsAnswer location_decoder plain_format some lock_config
      (λ _. no_error)
      alone
      ("db" ∷ [])
      "b"
      move_request
      tables_before
      (commit_table location_decoder plain_format some lock_config
        (λ _. no_error)
        alone
        ("db" ∷ [])
        "b"
        (some move_request)
        tables_before)
commit_table-IsAnswer_example =
    commit_table-IsAnswer location_decoder plain_format some lock_config (λ _. no_error) alone
      ("db" ∷ []) "b" move_request tables_before

abbrev zero_id : String → Fields
zero_id key = field key (float64 (of_int64 (pos 0))) end

abbrev new_table : CreateTableRequest
new_table = record {
  name = "c";
  location = "";
  schema = some (zero_id "schema-id");
  partition_spec = some (zero_id "spec-id");
  sort_order = some (zero_id "order-id");
  stage_create = false;
  properties = none;
}

create_table-IsWhole_example : IsWhole tables_before.store (
    create_table plain_format
      (false, false)
      "12345678"
      "3"
      (pos 7)
      "s3"
      ("db" ∷ [])
      (some new_table)
      tables_before.store)
unfolding has_id item_id get json_trip to_int64 of_int64
create_table-IsWhole_example =
    create_table-IsWhole plain_format (false, false) "12345678" "3" (pos 7) "s3" ("db" ∷ [])
      new_table tables_before.store (zero_id "schema-id") refl refl refl refl

tables_before-IsOne : IsOne ("db" ∷ []) tables_before.store.namespaces
tables_before-IsOne m k (Memᴰ.head e) (Memᴰ.head f) h l = ap (λ x. x.id) e ∙ sym (ap (λ x. x.id) f)
tables_before-IsOne m k (Memᴰ.head e) (Memᴰ.tail there) h l = elim there [ ]
tables_before-IsOne m k (Memᴰ.tail there) other h l = elim there [ ]

create_table-IsMade_example : IsMade ("db" ∷ []) "c" tables_before.store (
    create_table plain_format
      (false, false)
      "12345678"
      "3"
      (pos 7)
      "s3"
      ("db" ∷ [])
      (some new_table)
      tables_before.store)
create_table-IsMade_example =
    create_table-IsMade plain_format (false, false) "12345678" "3" (pos 7) ("db" ∷ [])
      tables_before.store tables_before-IsOne "s3" new_table
