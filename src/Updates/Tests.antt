-- ===== src/Updates/Tests.antt =====
-- internal/api/handlers/updates: the theorems at a table with one snapshot and at concrete commits.
use bingsan.Prelude.{
  String, ◌≡◌, ◌≢◌, refl, false, none, some, List, [], ◌∷◌, arith, eq_iff, ◌^◌, ◌+◌,
}
use bingsan.Prelude.Int.{pos}
use bingsan.Go.Float64.{Float64}
use bingsan.Go.Value.{
  Value, Items, Fields, nil, cons, end, field, string, int, int64, slice, object,
}
use bingsan.Go.Map.{get}
use bingsan.Go.Slice.{any, count, filter, is_empty}
use bingsan.Updates.Types.{SetSnapshotRef, does_not_exist}
use bingsan.Updates.Exec.{ok, err}
use bingsan.Updates.Util.{has_id, item_id, get_string, keeps, mem_id, remove_items_by_id}
use bingsan.Updates.Snapshot.{apply_set_snapshot_ref, is_branch}
use bingsan.Updates.Dispatch.{Update, Decoder, handle}
use bingsan.Updates.Processor.{RawUpdate, apply}
use bingsan.Updates.Processor.Order.{parse_all}
use bingsan.Updates.Processor.Correct.{apply_steps, apply-eq-run}
use bingsan.Updates.Processor.Safety.{IsOutcome, apply-IsOutcome}
use bingsan.Updates.Frame.{handle-frame}
use bingsan.Updates.Integrity.Ids.{HasUniqueIds, apply-HasUniqueIds}
use bingsan.Updates.Integrity.Dangling.{HasNoDangling, apply-HasNoDangling}
use bingsan.Updates.Integrity.Progress.{Advances, apply-Advances}
use bingsan.Go.Value.Decoded.{AllDecoded}
use bingsan.Updates.Integrity.Sync.{IsInSync, apply-IsInSync}
use bingsan.Updates.Integrity.Slices.{items_at}
use bingsan.Updates.Precision.{set_snapshot_ref-large}

-- A request whose updates are decoded already.
abbrev update_decoder : Decoder Update
update_decoder = record {
  decode_assign_uuid = λ raw. elim raw [ Update.assign_uuid u ↦ some u | _ ↦ none ];
  decode_upgrade_format_version =
      λ raw. elim raw [ Update.upgrade_format_version u ↦ some u | _ ↦ none ];
  decode_set_location = λ raw. elim raw [ Update.set_location u ↦ some u | _ ↦ none ];
  decode_set_properties = λ raw. elim raw [ Update.set_properties u ↦ some u | _ ↦ none ];
  decode_remove_properties = λ raw. elim raw [ Update.remove_properties u ↦ some u | _ ↦ none ];
  decode_add_schema = λ raw. elim raw [ Update.add_schema u ↦ some u | _ ↦ none ];
  decode_set_current_schema = λ raw. elim raw [ Update.set_current_schema u ↦ some u | _ ↦ none ];
  decode_remove_schemas = λ raw. elim raw [ Update.remove_schemas u ↦ some u | _ ↦ none ];
  decode_add_spec = λ raw. elim raw [ Update.add_spec u ↦ some u | _ ↦ none ];
  decode_set_default_spec = λ raw. elim raw [ Update.set_default_spec u ↦ some u | _ ↦ none ];
  decode_remove_partition_specs =
      λ raw. elim raw [ Update.remove_partition_specs u ↦ some u | _ ↦ none ];
  decode_add_sort_order = λ raw. elim raw [ Update.add_sort_order u ↦ some u | _ ↦ none ];
  decode_set_default_sort_order =
      λ raw. elim raw [ Update.set_default_sort_order u ↦ some u | _ ↦ none ];
  decode_add_snapshot = λ raw. elim raw [ Update.add_snapshot u ↦ some u | _ ↦ none ];
  decode_set_snapshot_ref = λ raw. elim raw [ Update.set_snapshot_ref u ↦ some u | _ ↦ none ];
  decode_remove_snapshots = λ raw. elim raw [ Update.remove_snapshots u ↦ some u | _ ↦ none ];
  decode_remove_snapshot_ref = λ raw. elim raw [ Update.remove_snapshot_ref u ↦ some u | _ ↦ none ];
  decode_set_statistics = λ raw. elim raw [ Update.set_statistics u ↦ some u | _ ↦ none ];
  decode_remove_statistics = λ raw. elim raw [ Update.remove_statistics u ↦ some u | _ ↦ none ];
  decode_set_partition_statistics =
      λ raw. elim raw [ Update.set_partition_statistics u ↦ some u | _ ↦ none ];
  decode_remove_partition_statistics =
      λ raw. elim raw [ Update.remove_partition_statistics u ↦ some u | _ ↦ none ];
  decode_add_encryption_key = λ raw. elim raw [ Update.add_encryption_key u ↦ some u | _ ↦ none ];
  decode_remove_encryption_key =
      λ raw. elim raw [ Update.remove_encryption_key u ↦ some u | _ ↦ none ];
}

abbrev update_at : String → Update → RawUpdate Update
update_at action u = record { action = action; raw = u }

abbrev schema_zero : Fields
schema_zero = field "schema-id" (int64 (pos 0)) end

abbrev snapshot_one : Fields
snapshot_one = field "snapshot-id" (int64 (pos 1)) (field "timestamp-ms" (int64 (pos 100)) end)

abbrev main_ref : Fields
main_ref = field "type" (string "branch") (field "snapshot-id" (int64 (pos 1)) end)

abbrev table : Fields
table = field "table-uuid" (string "u-1") (
    field "schemas" (slice (cons (object schema_zero) nil)) (
      field "current-schema-id" (int (pos 0)) (
        field "snapshots" (slice (cons (object snapshot_one) nil)) (
          field "refs" (object (field "main" (object main_ref) end))
            (field "current-snapshot-id" (int64 (pos 1)) end)))))

abbrev release : SetSnapshotRef
release = record {
  ref_name = "release";
  ref_type = "tag";
  snapshot_id = pos 1;
  max_ref_age_ms = none;
  max_snapshot_age_ms = none;
  min_snapshots_to_keep = none;
}

-- The tag is set; then the snapshot cannot be removed.
abbrev commit : List (RawUpdate Update)
commit =
    update_at "remove-snapshots" (Update.remove_snapshots (record { snapshot_ids = pos 1 ∷ [] }))
    ∷ update_at "add-schema"
        (Update.add_schema (record { schema = some end; last_column_id = some (pos 4) }))
    ∷ update_at "set-snapshot-ref" (Update.set_snapshot_ref release)
    ∷ []

table-HasNoDangling : HasNoDangling table
unfolding get any has_id item_id
table-HasNoDangling = record {
  current_schema = λ n e. ground arith;
  default_spec = λ n e. ground arith;
  default_order = λ n e. ground arith;
  refs = λ name ref n at_name e le. ground arith;
  current_snapshot = λ n e le. ground arith;
}

table-HasUniqueIds : HasUniqueIds table
unfolding get count
table-HasUniqueIds = record {
  schemas = λ k. ground arith;
  specs = λ k. ground arith;
  orders = λ k. ground arith;
  snapshots = λ k. ground arith;
  statistics = λ k. ground arith;
  partition_statistics = λ k. ground arith;
  keys = λ k. ground arith;
}

apply-HasNoDangling_example : HasNoDangling (apply update_decoder commit table).1
apply-HasNoDangling_example = apply-HasNoDangling update_decoder commit table table-HasNoDangling

apply-HasUniqueIds_example : HasUniqueIds (apply update_decoder commit table).1
apply-HasUniqueIds_example = apply-HasUniqueIds update_decoder commit table table-HasUniqueIds

apply-eq-run_example :
    apply update_decoder commit table ≡ apply_steps (parse_all update_decoder 0 commit) table
apply-eq-run_example = apply-eq-run update_decoder commit table

apply-IsOutcome_example : IsOutcome (apply update_decoder commit table).0
apply-IsOutcome_example = apply-IsOutcome update_decoder commit table

apply-Advances_example : Advances table (apply update_decoder commit table).1
apply-Advances_example = apply-Advances update_decoder commit table

u_1-non_empty : ◌≢◌ {A = String} "u-1" ""
u_1-non_empty e = ground (arith, eq_iff "u-1" "")

table-uuid : get_string table "table-uuid" ≡ some "u-1"
unfolding get
table-uuid = refl

handle-frame_example :
    get "schemas" (handle (Update.set_snapshot_ref release) table).1 ≡ get "schemas" table
handle-frame_example = handle-frame (Update.set_snapshot_ref release) table "schemas" refl

-- A table whose only snapshot id was 2 ^ 53 + 1 before it was decoded.
abbrev rounded : Float64
rounded = record { negative = false; mantissa = 2 ^ 52; scale = pos 1 }

abbrev large_table : Fields
large_table =
    field "snapshots" (slice (cons (object (field "snapshot-id" (Value.float64 rounded) end)) nil))
      end

abbrev large_ref : SetSnapshotRef
large_ref = record release { snapshot_id = pos (2 ^ 53 + 1) }

large_table-AllDecoded : AllDecoded (items_at "snapshots" large_table)
unfolding get
large_table-AllDecoded = ground arith

set_snapshot_ref-large_example :
    apply_set_snapshot_ref large_ref large_table
    ≡ (err (does_not_exist "snapshot-id" (pos (2 ^ 53 + 1))), large_table)
set_snapshot_ref-large_example =
    set_snapshot_ref-large large_ref large_table (2 ^ 53 + 1) refl refl refl (omega arith)
      (omega arith) large_table-AllDecoded

table-IsInSync : IsInSync table
unfolding get item_id is_branch
table-IsInSync ref n at_main branch e = ground arith

apply-IsInSync_example : IsInSync (apply update_decoder commit table).1
apply-IsInSync_example = apply-IsInSync update_decoder commit table table-IsInSync

abbrev two_schemas : Items
two_schemas = cons (object schema_zero) (cons (object (field "schema-id" (int64 (pos 1)) end)) nil)

abbrev last_schema : Items
last_schema = cons (object (field "schema-id" (int64 (pos 1)) end)) nil

removed :
    remove_items_by_id two_schemas (pos 0 ∷ []) "schema-id" (pos 1) "current schema"
    ≡ ok last_schema
unfolding remove_items_by_id filter keeps mem_id item_id get is_empty
removed = refl
