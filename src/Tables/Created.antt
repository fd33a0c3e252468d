-- ===== src/Tables/Created.antt =====
-- internal/api/handlers/table.go: the metadata of a table that CreateTable makes.
use bingsan.Prelude.{
  refl, Bool, Option, none, some, [], ◌∷◌, ◌++◌, ◌==◌, if_cases, some_of, find, ◌≡◌, ap, subst,
  String, true, List, arith,
}
use bingsan.Prelude.Int.{ℤ, pos}
use bingsan.Go.Float64.{to_int64, of_int64}
use bingsan.Go.Value.{Value, Fields, object, nil, cons, json_trip, json_trip_fields}
use bingsan.Go.Map.{get}
use bingsan.Go.Slice.{any, count}
use bingsan.Updates.Util.{has_id, or_zero}
use bingsan.Updates.Exec.{Result, ok, err}
use bingsan.Updates.Integrity.Unique.{IsUnique}
use bingsan.Updates.Integrity.Ids.{HasUniqueIds}
use bingsan.Updates.Integrity.Dangling.{HasNoDangling}
use bingsan.Tables.Commit.{LoadTableResponse, NamespaceRow, TableRow, Store, Format}
use bingsan.Tables.Create.{
  CreateTableRequest, CreateError, create_metadata, or_null, create_table, create_in, insert_new,
  insert_table, named, is_row, or_location, trim_suffix,
}

one_item-IsUnique : (key : String) (v : Value) → IsUnique (has_id key) (cons v nil)
unfolding count
one_item-IsUnique key v k = ground arith

zero_item :
    (key : String) (v : Value) (n : ℤ)
    → pos 0 ≡ n
    → has_id key (pos 0) v ≡ true
    → any (has_id key n) (cons v nil) ≡ true
unfolding any
zero_item key v n same h = subst (λ k. any (has_id key k) (cons v nil) ≡ true) same (ground arith)

module _ (uuid : String) (now : ℤ) (location : String) (schema : Fields)
    (req : CreateTableRequest) where
  -- The metadata of the new table as it is read back.
  abbrev read_back : Fields
  read_back = json_trip_fields (create_metadata uuid now location schema req)

  read_back-HasUniqueIds : HasUniqueIds read_back
  unfolding create_metadata json_trip get count
  read_back-HasUniqueIds = record {
    schemas = one_item-IsUnique "schema-id" (json_trip (object schema));
    specs = one_item-IsUnique "spec-id" (json_trip (or_null req.partition_spec));
    orders = one_item-IsUnique "order-id" (json_trip (or_null req.sort_order));
    snapshots = λ k. ground arith;
    statistics = λ k. ground arith;
    partition_statistics = λ k. ground arith;
    keys = λ k. ground arith;
  }

  read_back-HasNoDangling :
      has_id "schema-id" (pos 0) (json_trip (object schema)) ≡ true
      → has_id "spec-id" (pos 0) (json_trip (or_null req.partition_spec)) ≡ true
      → has_id "order-id" (pos 0) (json_trip (or_null req.sort_order)) ≡ true
      → HasNoDangling read_back
  unfolding create_metadata json_trip get to_int64 of_int64
  read_back-HasNoDangling s p o = record {
    current_schema = λ n e. zero_item _ _ n (ap or_zero e) s;
    default_spec = λ n e. zero_item _ _ n (ap or_zero e) p;
    default_order = λ n e. zero_item _ _ n (ap or_zero e) o;
    refs = λ name ref n at e le. absurd (ground arith);
    current_snapshot = λ n e le. absurd (ground arith);
  }

-- Where CreateTable has made a table, its new row stands last, and the row's metadata as it is read back
-- has each id once and names nothing that it does not have.
abbrev pub IsWhole : Store → Result CreateError LoadTableResponse × Store → Type 0
IsWhole store (err e, after) = after ≡ store
IsWhole store (ok r, after) =
    (row : TableRow) × (after ≡ record store { tables = store.tables ++ row ∷ [] })
    × (row.metadata ≡ r.metadata)
    × HasUniqueIds (json_trip_fields row.metadata)
    × HasNoDangling (json_trip_fields row.metadata)

module _ (format : Format) (down : Bool × Bool) (uuid id : String) (now : ℤ) (warehouse : String)
    (ns : List String) (req : CreateTableRequest) (store : Store) where
  abbrev Whole : Result CreateError LoadTableResponse × Store → Type 0
  Whole = IsWhole store

  insert_table-IsWhole :
      (namespace_id name location : String) (metadata : Fields)
      → HasUniqueIds (json_trip_fields metadata)
      → HasNoDangling (json_trip_fields metadata)
      → Whole (insert_table format down uuid id now namespace_id name location metadata store)
  insert_table-IsWhole namespace_id name location metadata u d =
      if_cases Whole down.1 (λ _. refl)
        (λ _.
          if_cases Whole (some_of (is_row namespace_id name) store.tables) (λ _. refl)
            (λ _. (_, refl, refl, u, d)))

  insert_new-IsWhole :
      (namespace_id name location : String) (metadata : Fields) (prefix : Option String)
      → HasUniqueIds (json_trip_fields metadata)
      → HasNoDangling (json_trip_fields metadata)
      → Whole (insert_new format down uuid id now namespace_id name location metadata prefix store)
  insert_new-IsWhole namespace_id name location metadata none u d = refl
  insert_new-IsWhole namespace_id name location metadata (some prefix) u d =
      insert_table-IsWhole namespace_id name (format.metadata_path location (pos 0) now prefix)
        metadata u d

  create_in-IsWhole :
      (schema : Fields) (o : Option NamespaceRow)
      → has_id "schema-id" (pos 0) (json_trip (object schema)) ≡ true
      → has_id "spec-id" (pos 0) (json_trip (or_null req.partition_spec)) ≡ true
      → has_id "order-id" (pos 0) (json_trip (or_null req.sort_order)) ≡ true
      → Whole (create_in format down uuid id now warehouse ns schema req o store)
  create_in-IsWhole schema none s p o = refl
  create_in-IsWhole schema (some n) s p o =
      let location = or_location (trim_suffix "/" warehouse) req.location ns req.name in
      insert_new-IsWhole n.id req.name location (create_metadata uuid now location schema req)
        (format.first_eight uuid) (read_back-HasUniqueIds uuid now location schema req)
        (read_back-HasNoDangling uuid now location schema req s p o)

  -- Where the schema, the partition spec and the sort order of the request are given with the id 0,
  -- and CreateTable answers that it has made the table: exactly one row is added to the database,
  -- its metadata is that of the answer, and, as it is read back from JSON, no list of schemas,
  -- specs, orders, snapshots, statistics or keys in it has an id twice, and it names no schema,
  -- spec, order or snapshot that it does not have. Where CreateTable answers with an error, nothing
  -- has changed.
  pub create_table-IsWhole :
      (schema : Fields)
      → req.schema ≡ some schema
      → has_id "schema-id" (pos 0) (json_trip (object schema)) ≡ true
      → has_id "spec-id" (pos 0) (json_trip (or_null req.partition_spec)) ≡ true
      → has_id "order-id" (pos 0) (json_trip (or_null req.sort_order)) ≡ true
      → IsWhole store (create_table format down uuid id now warehouse ns (some req) store)
  unfolding create_table create_metadata
  create_table-IsWhole schema there s p o = rw there (
      if_cases Whole (req.name == "") (λ _. refl)
        (λ _.
          if_cases Whole down.0 (λ _. refl)
            (λ _. create_in-IsWhole schema (find (named ns) store.namespaces) s p o)))
