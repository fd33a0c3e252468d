-- ===== src/Transactions/Tests.antt =====
-- A transaction on one table.
use bingsan.Prelude.{ℕ, String, Option, none, some, List, [], ◌∷◌}
use bingsan.Prelude.Int.{pos}
use bingsan.Go.Value.{end, field, string}
use bingsan.Db.Lock.{LockConfig, Attempt}
use bingsan.Tables.Requirement.{Requirement}
use bingsan.Tables.Commit.{Store}
use bingsan.Transactions.{TableChange, TxWorld, commit_transaction}
use bingsan.Transactions.Unchanged.{IsReport, commit_transaction-IsReport}

abbrev lock_config : LockConfig
lock_config = record { timeout_ms = pos 5000; max_retries = pos 1 }

abbrev no_error : Attempt String
no_error = record { waited = none; begin = none; set_timeout = λ _. none; commit = none }

abbrev one_table : Store
one_table = record {
  namespaces = record { id = "n1"; name = "db" ∷ [] } ∷ [];
  tables =
      record {
        id = "t1";
        namespace_id = "n1";
        name = "events";
        metadata_location = "s3://w/m.json";
        metadata = field "table-uuid" (string "12345678") end;
        previous_metadata_location = none;
      }
      ∷ [];
  commit_log = [];
}

abbrev tx_world : TxWorld String
tx_world = record { store = one_table; namespace_error = λ _. none; table_error = λ _. none }

abbrev alone : ℕ → TxWorld String → TxWorld String
alone n w = w

abbrev same_table : Requirement
same_table = record {
  type = "assert-table-uuid";
  ref = "";
  uuid = "12345678";
  snapshot_id = none;
  last_assigned_field_id = none;
  current_schema_id = none;
  last_assigned_partition_id = none;
  default_spec_id = none;
  default_sort_order_id = none;
}

abbrev table_change : TableChange String
table_change = record {
  namespace = "db" ∷ [];
  name = "events";
  requirements = same_table ∷ [];
  updates = [];
}

abbrev table_changes : Option (List (TableChange String))
table_changes = some (table_change ∷ [])

commit_transaction-IsReport_example :
    IsReport lock_config alone table_changes tx_world
      (commit_transaction some lock_config (λ _. no_error) alone table_changes tx_world)
commit_transaction-IsReport_example =
    commit_transaction-IsReport some lock_config (λ _. no_error) alone table_changes tx_world
