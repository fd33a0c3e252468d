-- ===== src/Catalog/Items.antt =====
-- internal/api/handlers/table.go and view.go: the handlers that rename a table or a view, drop a view and
-- say whether there is one. They treat the rows of `tables` and of `views` alike.
pub mod Rename
pub mod Renamed
pub mod Drop
use bingsan.Prelude.{
  ℕ, String, Bool, true, false, not, Option, none, some, List, [], ◌∷◌, map, ◌&&◌, ◌||◌, ◌==◌, find,
  some_of, keep, if◌then◌else◌,
}
use bingsan.Updates.Exec.{Result, ok, err}
use bingsan.Catalog.{
  Namespace, Item, CatalogRows, CatalogError, invalid_body, namespace_not_found, already_exists,
  item_not_found, not_found, internal, named,
}

pub record Identifier : Type 0 where
  pub namespace : List String
  pub name : String

pub record RenameRequest : Type 0 where
  pub source : Identifier
  pub destination : Identifier

-- `WHERE namespace_id = $1 AND name = $2`
abbrev pub is_item : String → String → Item → Bool
is_item id name i = i.namespace_id == id && i.name == name

-- `UPDATE … SET namespace_id, name WHERE namespace_id AND name`
unfoldable pub move_rows : String → String → String → String → List Item → List Item
move_rows from name to new_name [] = []
move_rows from name to new_name (i ∷ is) =
    let rest = move_rows from name to new_name is in
    (if is_item from name i then record { namespace_id = to; name = new_name } else i) ∷ rest

-- The database's constraint UNIQUE (namespace_id, name), which refuses the `UPDATE`.
abbrev pub is_taken : String → String → String → String → List Item → Bool
is_taken from name to new_name items =
    some_of (is_item from name) items
    && not (to == from && new_name == name)
    && some_of (is_item to new_name) items

abbrev pub id_of : Bool → List String → List Namespace → Result CatalogError String
id_of down name namespaces =
    if down
    then err internal
    else elim (find (named name) namespaces) [ none ↦ err namespace_not_found | some n ↦ ok n.id ]

abbrev pub rename_rows :
    Bool
    → String
    → String
    → String
    → String
    → List Item
    → Result CatalogError (Unit {0}) × List Item
rename_rows down from name to new_name items =
    if down
    then (err internal, items)
    else if is_taken from name to new_name items
    then (err already_exists, items)
    else if some_of (is_item from name) items
    then (ok tt, move_rows from name to new_name items)
    else (err item_not_found, items)

abbrev pub rename_found :
    Bool
    → RenameRequest
    → Result CatalogError String
    → Result CatalogError String
    → List Item
    → Result CatalogError (Unit {0}) × List Item
rename_found down req (err e) to items = (err e, items)
rename_found down req (ok from) (err e) items = (err e, items)
rename_found down req (ok from) (ok to) items =
    rename_rows down from req.source.name to req.destination.name items

-- `down` says which of the three statements fail.
unfoldable pub rename :
    Bool × Bool × Bool
    → Option RenameRequest
    → List Namespace
    → List Item
    → Result CatalogError (Unit {0}) × List Item
rename down none namespaces items = (err invalid_body, items)
rename down (some req) namespaces items =
    rename_found down.2 req (id_of down.0 req.source.namespace namespaces)
      (id_of down.1 req.destination.namespace namespaces) items

-- The join of the items with the namespaces, on the namespace's name and the item's.
abbrev pub joined : List String → String → List Namespace → Item → Bool
joined namespace name namespaces i =
    some_of (λ n. i.namespace_id == n.id && named namespace n) namespaces && i.name == name

unfoldable pub item_exists :
    Bool → List String → String → List Namespace → List Item → Result CatalogError (Unit {0})
item_exists down namespace name namespaces items =
    if down
    then err internal
    else if some_of (joined namespace name namespaces) items
    then ok tt
    else err not_found

-- `down` says which of the `DELETE` and the search for the namespace fail; an error of the second is
-- not read, and the namespace is then missing.
unfoldable pub drop_item :
    Bool × Bool
    → List String
    → String
    → List Namespace
    → List Item
    → Result CatalogError (Unit {0}) × List Item
drop_item down namespace name namespaces items =
    if down.0
    then (err internal, items)
    else if some_of (joined namespace name namespaces) items
    then (ok tt, keep (λ i. not (joined namespace name namespaces i)) items)
    else if not down.1 && some_of (named namespace) namespaces
    then (err item_not_found, items)
    else (err namespace_not_found, items)

abbrev pub rename_table :
    Bool × Bool × Bool
    → Option RenameRequest
    → CatalogRows
    → Result CatalogError (Unit {0}) × CatalogRows
rename_table down body d =
    let (answer, items) = rename down body d.namespaces d.tables in
    (answer, record d { tables = items })

abbrev pub rename_view :
    Bool × Bool × Bool
    → Option RenameRequest
    → CatalogRows
    → Result CatalogError (Unit {0}) × CatalogRows
rename_view down body d =
    let (answer, items) = rename down body d.namespaces d.views in
    (answer, record d { views = items })

abbrev pub drop_view :
    Bool × Bool → List String → String → CatalogRows → Result CatalogError (Unit {0}) × CatalogRows
drop_view down namespace name d =
    let (answer, items) = drop_item down namespace name d.namespaces d.views in
    (answer, record d { views = items })

abbrev pub view_exists : Bool → List String → String → CatalogRows → Result CatalogError (Unit {0})
view_exists down namespace name d = item_exists down namespace name d.namespaces d.views
