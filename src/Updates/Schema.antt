-- ===== src/Updates/Schema.antt =====
-- internal/api/handlers/updates/schema.go
use bingsan.Prelude.{Option, none, some, List}
use bingsan.Prelude.Int.{ℤ}
use bingsan.Go.Value.{Items, int, slice, object}
use bingsan.Go.Map.{set}
use bingsan.Go.Slice.{append, any}
use bingsan.Updates.Types.{
  AddSchema, SetCurrentSchema, RemoveSchemas, Error, required, already_exists,
}
use bingsan.Updates.Exec.{Exec, ◌>>=◌, ◌>>◌, done, gets, or_fail, fail_if, modify}
use bingsan.Updates.Util.{
  get_int, get_slice, or_zero, max_field_id, ensure_slice, has_id, with_id, raise_to, set_default,
  remove_items_by_id,
}

unfoldable pub apply_add_schema : AddSchema → Exec Error (Unit {0})
apply_add_schema u = do
  given ← or_fail u.schema (required "schema")
  schemas ← ensure_slice "schemas"
  let (schema_id, schema) = with_id "schema-id" schemas given
  fail_if (any (has_id "schema-id" schema_id) schemas) (already_exists "schema-id" schema_id)
  raise_to "last-column-id" int (max_field_id (get_slice schema "fields") "id")
  raise_to "last-column-id" int u.last_column_id
  modify (set "schemas" (slice (append schemas (object schema))))

unfoldable pub apply_set_current_schema : SetCurrentSchema → Exec Error (Unit {0})
apply_set_current_schema u =
    set_default "schemas" "schema-id" "current-schema-id" "schemas" "schema-id" u.schema_id

abbrev remove_schemas : List ℤ → Option Items → Exec Error (Unit {0})
remove_schemas ids none = done
remove_schemas ids (some schemas) = do
  current ← gets (λ m. or_zero (get_int m "current-schema-id"))
  filtered ← λ m. (remove_items_by_id schemas ids "schema-id" current "current schema", m)
  modify (set "schemas" (slice filtered))

unfoldable pub apply_remove_schemas : RemoveSchemas → Exec Error (Unit {0})
apply_remove_schemas u = do
  schemas ← gets (λ m. get_slice m "schemas")
  remove_schemas u.schema_ids schemas
