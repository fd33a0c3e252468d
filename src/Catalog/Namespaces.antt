-- ===== src/Catalog/Namespaces.antt =====
-- internal/api/handlers/namespace.go: the handlers that make, read, change and delete a namespace. A
-- request's body as the parser reads it and the new id are arguments.
pub mod Create
pub mod Delete
pub mod Update
use bingsan.Prelude.{
  ℕ, String, Bool, true, false, not, Option, none, some, List, [], ◌∷◌, map, ◌++◌, ◌&&◌, ◌||◌, ◌==◌,
  find, some_of, keep, if◌then◌else◌,
}
use bingsan.Updates.Exec.{Result, ok, err}
use bingsan.Catalog.{
  Namespace, Item, CatalogRows, CatalogError, invalid_body, namespace_required, namespace_not_found,
  namespace_not_empty, already_exists, not_found, internal, named, join,
}

-- What a handler publishes: the type of an event, and its namespace.
abbrev pub Published : Type 0
Published = List (String × String)

abbrev pub Handled : Type 0 → Type 0
Handled A = Result CatalogError A × CatalogRows × Published

-- The properties: `m[k]`, `m[k] = v` and `delete(m, k)`.
unfoldable pub lookup : String → List (String × String) → Option String
lookup k [] = none
lookup k ((j, v) ∷ m) = let rest = lookup k m in if j == k then some v else rest

unfoldable pub put : String → String → List (String × String) → List (String × String)
put k v [] = (k, v) ∷ []
put k v ((j, w) ∷ m) = let rest = put k v m in if j == k then (k, v) ∷ m else (j, w) ∷ rest

unfoldable pub drop_key : String → List (String × String) → List (String × String)
drop_key k [] = []
drop_key k ((j, v) ∷ m) = let rest = drop_key k m in if j == k then rest else (j, v) ∷ rest

pub record CreateNamespaceRequest : Type 0 where
  pub namespace : List String
  pub properties : List (String × String)

pub record NamespaceAnswer : Type 0 where
  pub namespace : List String
  pub properties : List (String × String)

abbrev pub insert_namespace :
    CreateNamespaceRequest → Bool → String → CatalogRows → Handled NamespaceAnswer
insert_namespace req down id d =
    if down
    then (err internal, d, [])
    else if some_of (named req.namespace) d.namespaces
    then (err already_exists, d, [])
    else (
      ok (record { namespace = req.namespace; properties = req.properties }),
      record d {
        namespaces =
            d.namespaces
            ++ record { id = id; name = req.namespace; properties = req.properties } ∷ [];
      },
      ("namespace.created", join "." req.namespace) ∷ [],
    )

unfoldable pub create_namespace :
    Option CreateNamespaceRequest → Bool → String → CatalogRows → Handled NamespaceAnswer
create_namespace none down id d = (err invalid_body, d, [])
create_namespace (some req) down id d = elim req.namespace [
  | [] ↦ (err namespace_required, d, [])
  | _ ∷ _ ↦ insert_namespace req down id d
]

-- A query for the namespace, which fails where `down` says so.
abbrev pub find_namespace : Bool → List String → CatalogRows → Result CatalogError Namespace
find_namespace true name d = err internal
find_namespace false name d = elim (find (named name) d.namespaces) [
  | none ↦ err namespace_not_found
  | some n ↦ ok n
]

abbrev pub answer_namespace :
    List String → Result CatalogError Namespace → Result CatalogError NamespaceAnswer
answer_namespace name (err e) = err e
answer_namespace name (ok n) = ok (record { namespace = name; properties = n.properties })

unfoldable pub get_namespace :
    Bool → List String → CatalogRows → Result CatalogError NamespaceAnswer
get_namespace down name d = answer_namespace name (find_namespace down name d)

unfoldable pub namespace_exists : Bool → List String → CatalogRows → Result CatalogError (Unit {0})
namespace_exists down name d =
    if down
    then err internal
    else if some_of (named name) d.namespaces
    then ok tt
    else err not_found

-- The tables and the views of a namespace, together.
abbrev pub has_items : String → CatalogRows → Bool
has_items id d =
    some_of (λ i. i.namespace_id == id) d.tables || some_of (λ i. i.namespace_id == id) d.views

-- `DELETE FROM namespaces WHERE id`, which takes the tables and the views of the namespace with it.
abbrev pub delete_row : String → CatalogRows → CatalogRows
delete_row id d = record {
  namespaces = keep (λ n. not (n.id == id)) d.namespaces;
  tables = keep (λ i. not (i.namespace_id == id)) d.tables;
  views = keep (λ i. not (i.namespace_id == id)) d.views;
}

-- `down` says which of the three statements fail; `others` is what other requests do between the
-- count and the deletion.
abbrev pub delete_found :
    Bool × Bool × Bool
    → (CatalogRows → CatalogRows)
    → List String
    → CatalogRows
    → Result CatalogError Namespace
    → Handled (Unit {0})
delete_found down others name d (err e) = (err e, d, [])
delete_found down others name d (ok n) =
    if down.1
    then (err internal, d, [])
    else if has_items n.id d
    then (err namespace_not_empty, d, [])
    else if down.2
    then (err internal, others d, [])
    else (ok tt, delete_row n.id (others d), ("namespace.dropped", join "." name) ∷ [])

unfoldable pub delete_namespace :
    Bool × Bool × Bool
    → (CatalogRows → CatalogRows)
    → List String
    → CatalogRows
    → Handled (Unit {0})
delete_namespace down others name d = delete_found down others name d (find_namespace down.0 name d)

pub record UpdateNamespacePropertiesRequest : Type 0 where
  pub removals : List String
  pub updates : List (String × String)

pub record UpdateNamespacePropertiesResponse : Type 0 where
  pub updated : List String
  pub removed : List String
  pub missing : List String

unfoldable pub put_all : List (String × String) → List (String × String) → List (String × String)
put_all [] m = m
put_all ((k, v) ∷ us) m = put_all us (put k v m)

-- The loop over the removals: the properties, those removed and those missing.
unfoldable pub remove_all :
    List String → List (String × String) → List (String × String) × List String × List String
remove_all [] m = (m, [], [])
remove_all (k ∷ ks) m =
    let (dropped, removed, missing) = remove_all ks (drop_key k m) in
    let (kept, removed', missing') = remove_all ks m in
    elim (lookup k m) [
      | some _ ↦ (dropped, k ∷ removed, missing)
      | none ↦ (kept, removed', k ∷ missing')
    ]

unfoldable pub set_properties :
    List String → List (String × String) → List Namespace → List Namespace
set_properties name m [] = []
set_properties name m (n ∷ ns) =
    let rest = set_properties name m ns in
    (if named name n then record n { properties = m } else n) ∷ rest

-- Between the `SELECT` of the namespace and this `UPDATE` the code takes no lock; here nothing happens
-- between them.
abbrev pub update_found :
    Bool
    → UpdateNamespacePropertiesRequest
    → List String
    → CatalogRows
    → Result CatalogError Namespace
    → Result CatalogError UpdateNamespacePropertiesResponse × CatalogRows
update_found down req name d (err e) = (err e, d)
update_found down req name d (ok n) =
    let (m, removed, missing) = remove_all req.removals (put_all req.updates n.properties) in
    if down then (err internal, d) else (
      ok (record { updated = map (λ u. u.0) req.updates; removed = removed; missing = missing }),
      record d { namespaces = set_properties name m d.namespaces },
    )

unfoldable pub update_namespace_properties :
    Bool × Bool
    → Option UpdateNamespacePropertiesRequest
    → List String
    → CatalogRows
    → Result CatalogError UpdateNamespacePropertiesResponse × CatalogRows
update_namespace_properties down none name d = (err invalid_body, d)
update_namespace_properties down (some req) name d =
    update_found down.1 req name d (find_namespace down.0 name d)
