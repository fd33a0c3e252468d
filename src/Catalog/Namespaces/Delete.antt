-- ===== src/Catalog/Namespaces/Delete.antt =====
-- internal/api/handlers/namespace.go: what DeleteNamespace takes away, alone and while others work.
use bingsan.Prelude.{
  String, ◌≡◌, refl, Bool, true, false, not, List, Memᴰ, ◌==◌, eq_iff, inl, inr, arith, Bool-cases,
  keep-Memᴰ, keep-all,
}
use bingsan.Updates.Exec.{Result, ok, err}
use bingsan.Catalog.{Namespace, Item, CatalogRows, CatalogError}
use bingsan.Catalog.Namespaces.{find_namespace, has_items, delete_found, delete_namespace}

delete_found-Keeps :
    (down : Bool × Bool × Bool) (name : List String) (d : CatalogRows)
    (r : Result CatalogError Namespace)
    → ((delete_found down (λ c. c) name d r).1.tables ≡ d.tables)
      × ((delete_found down (λ c. c) name d r).1.views ≡ d.views)
delete_found-Keeps down name d (err e) = (refl, refl)
delete_found-Keeps (a, true, b) name d (ok n) = (refl, refl)
delete_found-Keeps (a, false, b) name d (ok n) = elim (Bool-cases (has_items n.id d)) [
  | inl full ↦ (ground arith, ground arith)
  | inr empty ↦
      let t = keep-all (λ i. i.namespace_id == n.id) d.tables (ground arith) in
      let v = keep-all (λ i. i.namespace_id == n.id) d.views (ground arith) in
      elim b
        as (λ b.
          ((delete_found (a, false, b) (λ c. c) name d (ok n)).1.tables ≡ d.tables)
          × ((delete_found (a, false, b) (λ c. c) name d (ok n)).1.views ≡ d.views)) [
            | true ↦ (ground arith, ground arith)
            | false ↦ (ground arith, ground arith)
          ]
]

-- Where nothing else happens between its statements, DeleteNamespace leaves all tables and all views as
-- they are, whatever it answers.
pub delete_namespace-Keeps :
    (down : Bool × Bool × Bool) (name : List String) (d : CatalogRows)
    → ((delete_namespace down (λ c. c) name d).1.tables ≡ d.tables)
      × ((delete_namespace down (λ c. c) name d).1.views ≡ d.views)
unfolding delete_namespace
delete_namespace-Keeps down name d = delete_found-Keeps down name d (find_namespace down.0 name d)

-- A table that others put into the namespace between the count and the deletion is lost: the handler
-- answers that it has deleted an empty namespace, and the table is gone.
pub delete_namespace-loses :
    (name : List String) (d : CatalogRows) (n : Namespace) (others : CatalogRows → CatalogRows)
    (i : Item)
    → find_namespace false name d ≡ ok n
    → has_items n.id d ≡ false
    → Memᴰ i (others d).tables
    → i.namespace_id ≡ n.id
    → let (answer, after, published) = delete_namespace (false, false, false) others name d in
      (answer ≡ ok tt) × ¬ Memᴰ i after.tables
unfolding delete_namespace
delete_namespace-loses name d n others i found empty m own =
    rw (found, empty)
      (
        refl,
        λ still.
            let (m, kept) = keep-Memᴰ (λ i. not (i.namespace_id == n.id)) (others d).tables still in
            let same = (eq_iff i.namespace_id n.id).1 own in absurd (ground arith),
      )
