-- ===== src/Tables/Create.antt =====
-- internal/api/handlers/table.go: CreateTable and RegisterTable. The new uuid, the id that PostgreSQL
-- gives a row, the clock and which of the two statements fail are arguments.
use Prim.Native.String
use bingsan.Prelude.{
  ℕ, String, Bool, Option, none, some, List, [], ◌∷◌, ◌++◌, ◌&&◌, ◌==◌, find, some_of,
  if◌then◌else◌,
}
use bingsan.Prelude.Int.{ℤ, pos, ltb_ℤ}
use bingsan.Go.Float64.{to_int64}
use bingsan.Go.Value.{
  Value, Items, Fields, null, int, int64, float64, string, slice, object, nil, cons, end, field,
  as_object, as_slice,
}
use bingsan.Go.Map.{get}
use bingsan.Updates.Exec.{Result, ok, err}
use bingsan.Updates.Util.{and_then, or_nil}
use bingsan.Catalog.{join}
use bingsan.Tables.Commit.{LoadTableResponse, NamespaceRow, TableRow, Store, Format, same_name}

-- A member that the body does not have is nil, or an empty text.
pub record CreateTableRequest : Type 0 where
  pub name : String
  pub location : String
  pub schema : Option Fields
  pub partition_spec : Option Fields
  pub sort_order : Option Fields
  pub stage_create : Bool
  pub properties : Option (List (String × String))

pub record RegisterTableRequest : Type 0 where
  pub name : String
  pub metadata_location : String

pub data CreateError : Type 0 where
  invalid_body name_required schema_required location_required : CreateError
  namespace_not_found already_exists internal : CreateError

abbrev pub status : CreateError → ℕ
status invalid_body = 400
status name_required = 400
status schema_required = 400
status location_required = 400
status namespace_not_found = 404
status already_exists = 409
status internal = 500

-- `strings.TrimSuffix`
abbrev pub trim_suffix : String → String → String
trim_suffix suffix String.[] = ""
trim_suffix suffix (String.◌∷◌ c s) =
    let rest = trim_suffix suffix s in if String.◌∷◌ c s == suffix then "" else String.◌∷◌ c rest

abbrev pub or_location : String → String → List String → String → String
or_location warehouse location ns name =
    if location == ""
    then String.◌++◌ warehouse (String.◌++◌ "/" (String.◌++◌ (join "/" ns) (String.◌++◌ "/" name)))
    else location

-- A map that is nil is null in JSON.
abbrev pub or_null : Option Fields → Value
or_null none = null
or_null (some m) = object m

abbrev pub string_fields : List (String × String) → Fields
string_fields [] = end
string_fields ((k, v) ∷ properties) = field k (string v) (string_fields properties)

abbrev pub properties_value : Option (List (String × String)) → Value
properties_value none = null
properties_value (some properties) = object (string_fields properties)

-- `int(id)` of `field["id"].(float64)`
abbrev pub float_id : Option Value → Option ℤ
float_id (some (float64 f)) = some (to_int64 f)
float_id _ = none

abbrev pub larger : ℤ → Option ℤ → ℤ
larger last none = last
larger last (some n) = if ltb_ℤ last n then n else last

abbrev pub field_id : Option Fields → Option ℤ
field_id none = none
field_id (some m) = float_id (get "id" m)

unfoldable pub last_column_id : ℤ → Items → ℤ
last_column_id last nil = last
last_column_id last (cons v items) = last_column_id (larger last (field_id (as_object v))) items

abbrev pub one_item : Value → Value
one_item v = slice (cons v nil)

unfoldable pub create_metadata : String → ℤ → String → Fields → CreateTableRequest → Fields
create_metadata uuid now location schema req = field "format-version" (int (pos 2)) (
    field "table-uuid" (string uuid) (
      field "location" (string location) (
        field "last-updated-ms" (int64 now) (
          field "last-column-id"
            (int (last_column_id (pos 0) (or_nil (and_then (get "fields" schema) as_slice))))
            (field "properties" (properties_value req.properties) (
              field "schemas" (one_item (object schema)) (
                field "current-schema-id" (int (pos 0)) (
                  field "partition-specs" (one_item (or_null req.partition_spec)) (
                    field "default-spec-id" (int (pos 0)) (
                      field "sort-orders" (one_item (or_null req.sort_order)) (
                        field "default-sort-order-id" (int (pos 0)) (
                          field "snapshots" (slice nil) (
                            field "snapshot-log" (slice nil)
                              (field "refs" (object end) end))))))))))))))

-- `SELECT id FROM namespaces WHERE name = $1`
abbrev pub named : List String → NamespaceRow → Bool
named ns n = same_name n.name ns

-- The unique pair of a namespace and a name.
abbrev pub is_row : String → String → TableRow → Bool
is_row namespace_id name t = t.namespace_id == namespace_id && t.name == name

module _ (format : Format) (down : Bool × Bool) (uuid id : String) (now : ℤ) where
  -- `INSERT INTO tables`
  abbrev pub insert_table :
      String → String → String → Fields → Store → Result CreateError LoadTableResponse × Store
  insert_table namespace_id name location metadata store =
      if down.1
      then (err internal, store)
      else if some_of (is_row namespace_id name) store.tables
      then (err already_exists, store)
      else (
        ok (record { metadata_location = location; metadata = metadata }),
        record store {
          tables =
              store.tables
              ++ record {
                id = id;
                namespace_id = namespace_id;
                name = name;
                metadata_location = location;
                metadata = metadata;
                previous_metadata_location = none;
              }
                ∷ [];
        },
      )

  -- A uuid that has less than eight bytes is a panic, which is answered as an internal error.
  abbrev pub insert_new :
      String
      → String
      → String
      → Fields
      → Option String
      → Store
      → Result CreateError LoadTableResponse × Store
  insert_new namespace_id name location metadata none store = (err internal, store)
  insert_new namespace_id name location metadata (some prefix) store =
      insert_table namespace_id name (format.metadata_path location (pos 0) now prefix) metadata
        store

  abbrev pub create_in :
      String
      → List String
      → Fields
      → CreateTableRequest
      → Option NamespaceRow
      → Store
      → Result CreateError LoadTableResponse × Store
  create_in warehouse ns schema req none store = (err namespace_not_found, store)
  create_in warehouse ns schema req (some n) store =
      let location = or_location (trim_suffix "/" warehouse) req.location ns req.name in
      insert_new n.id req.name location (create_metadata uuid now location schema req)
        (format.first_eight uuid) store

  abbrev pub create_with_schema :
      String
      → List String
      → Option Fields
      → CreateTableRequest
      → Store
      → Result CreateError LoadTableResponse × Store
  create_with_schema warehouse ns none req store = (err schema_required, store)
  create_with_schema warehouse ns (some schema) req store =
      if down.0
      then (err internal, store)
      else create_in warehouse ns schema req (find (named ns) store.namespaces) store

  unfoldable pub create_table :
      String
      → List String
      → Option CreateTableRequest
      → Store
      → Result CreateError LoadTableResponse × Store
  create_table warehouse ns none store = (err invalid_body, store)
  create_table warehouse ns (some req) store =
      if req.name == ""
      then (err name_required, store)
      else create_with_schema warehouse ns req.schema req store

  -- The metadata that stands in for that of the file, which is not read.
  unfoldable pub placeholder : String → Fields
  placeholder location = field "format-version" (int (pos 2)) (
      field "table-uuid" (string uuid) (
        field "location" (string (trim_suffix "/metadata" location))
          (field "last-updated-ms" (int64 now) end)))

  abbrev pub register_in :
      RegisterTableRequest
      → Option NamespaceRow
      → Store
      → Result CreateError LoadTableResponse × Store
  register_in req none store = (err namespace_not_found, store)
  register_in req (some n) store =
      insert_table n.id req.name req.metadata_location (placeholder req.metadata_location) store

  unfoldable pub register_table :
      List String
      → Option RegisterTableRequest
      → Store
      → Result CreateError LoadTableResponse × Store
  register_table ns none store = (err invalid_body, store)
  register_table ns (some req) store =
      if req.name == ""
      then (err name_required, store)
      else if req.metadata_location == ""
      then (err location_required, store)
      else if down.0
      then (err internal, store)
      else register_in req (find (named ns) store.namespaces) store
