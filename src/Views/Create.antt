-- ===== src/Views/Create.antt =====
-- internal/api/handlers/view.go: CreateView. The new uuid, the id that PostgreSQL gives a row, the clock
-- and which of the two statements fail are arguments.
use bingsan.Prelude.{
  String, Bool, Option, none, some, List, [], ◌∷◌, ◌++◌, ◌&&◌, ◌==◌, find, some_of, if◌then◌else◌,
}
use bingsan.Prelude.Int.{ℤ, pos}
use bingsan.Go.Value.{Fields, int, int64, string, object, end, field}
use bingsan.Updates.Exec.{Result, ok, err}
use bingsan.Tables.Commit.{NamespaceRow, Format}
use bingsan.Tables.Create.{
  CreateError, invalid_body, name_required, schema_required, namespace_not_found, already_exists,
  internal, or_location, properties_value, one_item, named, or_null,
}
use bingsan.Views.{ViewRow, ViewStore, LoadViewResponse}

pub record CreateViewRequest : Type 0 where
  pub name : String
  pub location : String
  pub schema : Option Fields
  pub view_version : Option Fields
  pub properties : Option (List (String × String))

unfoldable pub create_view_metadata : String → ℤ → String → Fields → CreateViewRequest → Fields
create_view_metadata uuid now location schema req = field "format-version" (int (pos 1)) (
    field "view-uuid" (string uuid) (
      field "location" (string location) (
        field "properties" (properties_value req.properties) (
          field "schemas" (one_item (object schema)) (
            field "current-version-id" (int (pos 1)) (
              field "versions" (one_item (or_null req.view_version)) (
                field "version-log"
                  (one_item (
                    object
                      (field "version-id" (int (pos 1)) (field "timestamp-ms" (int64 now) end))))
                  end)))))))

abbrev pub is_view_row : String → String → ViewRow → Bool
is_view_row namespace_id name v = v.namespace_id == namespace_id && v.name == name

module _ (format : Format) (down : Bool × Bool) (uuid id : String) (now : ℤ) where
  -- `INSERT INTO views`
  abbrev pub insert_view :
      String
      → String
      → String
      → Fields
      → ViewStore
      → Result CreateError LoadViewResponse × ViewStore
  insert_view namespace_id name location metadata store =
      if down.1
      then (err internal, store)
      else if some_of (is_view_row namespace_id name) store.views
      then (err already_exists, store)
      else (
        ok (record { metadata_location = location; metadata = metadata }),
        record store {
          views =
              store.views
              ++ record {
                id = id;
                namespace_id = namespace_id;
                name = name;
                metadata_location = location;
                metadata = metadata;
              }
                ∷ [];
        },
      )

  -- A uuid that has less than eight bytes is a panic, which is answered as an internal error.
  abbrev pub insert_new_view :
      String
      → String
      → String
      → Fields
      → Option String
      → ViewStore
      → Result CreateError LoadViewResponse × ViewStore
  insert_new_view namespace_id name location metadata none store = (err internal, store)
  insert_new_view namespace_id name location metadata (some prefix) store =
      insert_view namespace_id name (format.metadata_path location (pos 0) now prefix) metadata
        store

  abbrev pub create_view_in :
      String
      → List String
      → Fields
      → CreateViewRequest
      → Option NamespaceRow
      → ViewStore
      → Result CreateError LoadViewResponse × ViewStore
  create_view_in warehouse ns schema req none store = (err namespace_not_found, store)
  create_view_in warehouse ns schema req (some n) store =
      let location = or_location warehouse req.location ns req.name in
      insert_new_view n.id req.name location (create_view_metadata uuid now location schema req)
        (format.first_eight uuid) store

  abbrev pub create_view_with :
      String
      → List String
      → Option Fields
      → CreateViewRequest
      → ViewStore
      → Result CreateError LoadViewResponse × ViewStore
  create_view_with warehouse ns none req store = (err schema_required, store)
  create_view_with warehouse ns (some schema) req store =
      if down.0
      then (err internal, store)
      else create_view_in warehouse ns schema req (find (named ns) store.namespaces) store

  unfoldable pub create_view :
      String
      → List String
      → Option CreateViewRequest
      → ViewStore
      → Result CreateError LoadViewResponse × ViewStore
  create_view warehouse ns none store = (err invalid_body, store)
  create_view warehouse ns (some req) store =
      if req.name == ""
      then (err name_required, store)
      else create_view_with warehouse ns req.schema req store
