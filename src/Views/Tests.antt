-- ===== src/Views/Tests.antt =====
-- A view that a request is to replace.
use bingsan.Prelude.{ℕ, String, none, some, List, [], ◌∷◌}
use bingsan.Prelude.Int.{pos}
use bingsan.Go.Value.{end, field, string}
use bingsan.Db.Lock.{LockConfig, Attempt}
use bingsan.Tables.Commit.{Format, TxError}
use bingsan.Views.{ViewWorld}
use bingsan.Views.Replace.{replace_view}
use bingsan.Views.Replaced.{LeavesAt, replace_view-LeavesAt}

abbrev view_before : ViewWorld String
view_before = record {
  store = record {
    namespaces = record { id = "n"; name = "db" ∷ [] } ∷ [];
    views =
        record {
          id = "v";
          namespace_id = "n";
          name = "daily";
          metadata_location = "old";
          metadata = field "view-uuid" (string "12345678") (field "location" (string "here") end);
        }
        ∷ [];
  };
  now = pos 7;
  answers = record { select = none; exists = none; update = none };
}

abbrev plain_format : Format
plain_format = record {
  metadata_path = λ location n now prefix. location;
  first_eight = λ uuid. some uuid;
}

abbrev lock_config : LockConfig
lock_config = record { timeout_ms = pos 5000; max_retries = pos 1 }

abbrev no_error : Attempt (TxError String)
no_error = record { waited = none; begin = none; set_timeout = λ _. none; commit = none }

abbrev alone : ℕ → ViewWorld String → ViewWorld String
alone n w = w

abbrev request : List String
request = "SELECT 1" ∷ []

replace_view-LeavesAt_example :
    LeavesAt
      ("db" ∷ [])
      "daily"
      plain_format
      some
      lock_config
      (λ _. no_error)
      alone
      view_before
      (replace_view plain_format some lock_config
        (λ _. no_error)
        alone
        ("db" ∷ [])
        "daily"
        (some request)
        view_before).1
replace_view-LeavesAt_example =
    replace_view-LeavesAt ("db" ∷ []) "daily" plain_format some lock_config (λ _. no_error) alone
      (some request) view_before
