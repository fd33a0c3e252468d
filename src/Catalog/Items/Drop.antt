-- ===== src/Catalog/Items/Drop.antt =====
-- internal/api/handlers/view.go: what DropView leaves for ViewExists.
use bingsan.Prelude.{
  String, ◌≡◌, sym, ap, ◌∙◌, Bool, true, false, List, arith, Bool-cases, inl, inr, some_of,
  some_of-keep,
}
use bingsan.Updates.Exec.{ok, err}
use bingsan.Catalog.{Namespace, Item, CatalogRows, not_found}
use bingsan.Catalog.Items.{joined, drop_item, item_exists, drop_view, view_exists}

module _ (namespace : List String) (name : String) (namespaces : List Namespace)
    (items after : List Item) where
  drop_item-exists :
      (down : Bool × Bool)
      → drop_item down namespace name namespaces items ≡ (ok tt, after)
      → (item_exists false namespace name namespaces items ≡ ok tt)
        × (item_exists false namespace name namespaces after ≡ err not_found)
  unfolding drop_item item_exists
  drop_item-exists (true, down) h = absurd (ground arith)
  drop_item-exists (false, down) h =
      elim (Bool-cases (some_of (joined namespace name namespaces) items)) [
        | inl there ↦
            let gone = some_of-keep (joined namespace name namespaces) items in
            (ground arith, ground arith)
        | inr missing ↦ absurd (ground arith)
      ]

-- After a drop that succeeds the view that was there is not found any more, and the tables and the
-- namespaces are as they were.
pub drop_view-exists :
    (down : Bool × Bool) (namespace : List String) (name : String) (d after : CatalogRows)
    → drop_view down namespace name d ≡ (ok tt, after)
    → (view_exists false namespace name d ≡ ok tt)
      × (view_exists false namespace name after ≡ err not_found)
      × (after.tables ≡ d.tables)
      × (after.namespaces ≡ d.namespaces)
drop_view-exists down namespace name d after h =
    let tables : after.tables ≡ d.tables = ap (λ p. p.1.tables) (sym h) in
    let same : after.namespaces ≡ d.namespaces = ap (λ p. p.1.namespaces) (sym h) in
    let (was, is) =
      drop_item-exists namespace name d.namespaces d.views after.views down
        (ap (λ p. (p.0, p.1.views)) h) in
    (was, ap (λ ns. item_exists false namespace name ns after.views) same ∙ is, tables, same)
