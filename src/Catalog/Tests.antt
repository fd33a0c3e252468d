-- ===== src/Catalog/Tests.antt =====
-- The handlers of namespaces and of tables on a small catalog.
use bingsan.Prelude.{◌≡◌, refl, String, false, some, List, [], ◌∷◌, Memᴰ, keep}
use bingsan.Prelude.Int.{pos}
use bingsan.Updates.Exec.{ok}
use bingsan.Catalog.{Namespace, Item, CatalogRows}
use bingsan.Catalog.Pages.{list_tables, list_views}
use bingsan.Catalog.Pages.Cursor.{first_page, list_tables-eq}
use bingsan.Catalog.Namespaces.Create.{IsMade, create_namespace-IsMade}
use bingsan.Catalog.Namespaces.{
  CreateNamespaceRequest, NamespaceAnswer, create_namespace, delete_namespace,
  UpdateNamespacePropertiesRequest, UpdateNamespacePropertiesResponse, update_namespace_properties,
  put_all, put, remove_all, drop_key, lookup, set_properties,
}
use bingsan.Catalog.Namespaces.Delete.{delete_namespace-Keeps, delete_namespace-loses}
use bingsan.Catalog.Namespaces.Update.{IsUpdated, update_namespace_properties-IsUpdated}
use bingsan.Catalog.Items.{RenameRequest, drop_item, drop_view, rename_table, rename_view}
use bingsan.Catalog.Items.Renamed.{IsRenamed, rename_table-IsRenamed}

abbrev db : Namespace
db = record { id = "n1"; name = "db" ∷ []; properties = ("owner", "a") ∷ [] }

abbrev other : Namespace
other = record { id = "n2"; name = "other" ∷ []; properties = [] }

abbrev events : Item
events = record { namespace_id = "n1"; name = "events" }

abbrev users : Item
users = record { namespace_id = "n1"; name = "users" }

abbrev rows : CatalogRows
rows = record { namespaces = db ∷ other ∷ []; tables = events ∷ users ∷ []; views = [] }

abbrev plain_split : String → List String
plain_split s = s ∷ []

abbrev as_is : {A : Type 0} → List A → List A
as_is xs = xs

list_tables-eq_example :
    (list_tables as_is (λ a b. false) (false, false) ("db" ∷ []) "" (pos 1) rows
      ≡ first_page as_is (λ a b. false) ("db" ∷ []) "" (pos 1) rows.namespaces rows.tables)
    × (list_views as_is (λ a b. false) (false, false) ("db" ∷ []) "" (pos 1) rows
        ≡ first_page as_is (λ a b. false) ("db" ∷ []) "" (pos 1) rows.namespaces rows.views)
list_tables-eq_example = list_tables-eq as_is (λ a b. false) ("db" ∷ []) "" (pos 1) rows

delete_namespace-Keeps_example :
    ((delete_namespace (false, false, false) (λ c. c) ("other" ∷ []) rows).1.tables ≡ rows.tables)
    × ((delete_namespace (false, false, false) (λ c. c) ("other" ∷ []) rows).1.views ≡ rows.views)
delete_namespace-Keeps_example = delete_namespace-Keeps (false, false, false) ("other" ∷ []) rows

abbrev added : Item
added = record { namespace_id = "n2"; name = "late" }

abbrev adds : CatalogRows → CatalogRows
adds c = record c { tables = added ∷ c.tables }

delete_namespace-loses_example :
    let (answer, after, published) =
      delete_namespace (false, false, false) adds ("other" ∷ []) rows in
    (answer ≡ ok tt) × ¬ Memᴰ added after.tables
delete_namespace-loses_example =
    delete_namespace-loses ("other" ∷ []) rows other adds added refl refl (Memᴰ.head refl) refl

abbrev change : UpdateNamespacePropertiesRequest
change = record { removals = "owner" ∷ "x" ∷ []; updates = ("owner", "b") ∷ ("team", "c") ∷ [] }

abbrev changed : UpdateNamespacePropertiesResponse
changed = record { updated = "owner" ∷ "team" ∷ []; removed = "owner" ∷ []; missing = "x" ∷ [] }

abbrev changed_rows : CatalogRows
changed_rows = record rows {
  namespaces = record db { properties = ("team", "c") ∷ [] } ∷ other ∷ [];
}

changes :
    update_namespace_properties (false, false) (some change) ("db" ∷ []) rows
    ≡ (ok changed, changed_rows)
unfolding update_namespace_properties put_all put remove_all drop_key lookup set_properties
changes = refl

update_namespace_properties-IsUpdated_example :
    IsUpdated change ("db" ∷ []) rows changed changed_rows
update_namespace_properties-IsUpdated_example =
    update_namespace_properties-IsUpdated change ("db" ∷ []) rows changed changed_rows
      (false, false) changes

abbrev rename_request : RenameRequest
rename_request = record {
  source = record { namespace = "db" ∷ []; name = "users" };
  destination = record { namespace = "other" ∷ []; name = "people" };
}

rename_table-IsRenamed_example :
    let (answer, after) = rename_table (false, false, false) (some rename_request) rows in
    let (view_answer, view_after) = rename_view (false, false, false) (some rename_request) rows in
    IsRenamed
      (false, false, false)
      rename_request
      rows.namespaces
      rows.tables
      (answer, after.tables)
    × (after ≡ record rows { tables = after.tables })
    × IsRenamed
        (false, false, false)
        rename_request
        rows.namespaces
        rows.views
        (view_answer, view_after.views)
    × (view_after ≡ record rows { views = view_after.views })
rename_table-IsRenamed_example = rename_table-IsRenamed (false, false, false) rename_request rows

abbrev request : CreateNamespaceRequest
request = record { namespace = "new" ∷ []; properties = ("owner", "b") ∷ [] }

abbrev made : NamespaceAnswer
made = record { namespace = "new" ∷ []; properties = ("owner", "b") ∷ [] }

abbrev made_rows : CatalogRows
made_rows = record rows {
  namespaces =
      db ∷ other ∷ record { id = "n3"; name = "new" ∷ []; properties = ("owner", "b") ∷ [] } ∷ [];
}

makes :
    create_namespace (some request) false "n3" rows
    ≡ (ok made, made_rows, ("namespace.created", "new") ∷ [])
unfolding create_namespace
makes = refl

create_namespace-IsMade_example :
    IsMade false "n3" rows made made_rows (("namespace.created", "new") ∷ [])
create_namespace-IsMade_example =
    create_namespace-IsMade false "n3" rows made made_rows (("namespace.created", "new") ∷ [])
      request makes

abbrev daily : Item
daily = record { namespace_id = "n1"; name = "daily" }

abbrev with_view : CatalogRows
with_view = record rows { views = daily ∷ [] }

drops : drop_view (false, false) ("db" ∷ []) "daily" with_view ≡ (ok tt, rows)
unfolding drop_item keep
drops = refl
