-- ===== src/Catalog/Pages/Cursor.antt =====
-- internal/api/handlers: where the pages that the lists give end.
use bingsan.Prelude.{
  Option-cases, inl, inr, ◌∙◌, ℕ, zero, suc, String, ◌≡◌, refl, ap, Bool, true, false, not, List,
  [], ◌∷◌, map, ◌&&◌, arith, if◌then◌else◌, some_of,
}
use bingsan.Prelude.Int.{ℤ}
use bingsan.Updates.Exec.{Result, ok, err}
use bingsan.Catalog.{Namespace, Item, CatalogRows, CatalogError, named, namespace_not_found}
use bingsan.Catalog.Pages.{
  take, read_rows, last, is_empty, Page, page_of, item_page, answer_items, validate_page_size,
  selected, selected_items, list_namespaces, list_items, list_tables, list_views,
}

module _ {ℓ} {A : Type ℓ} where
  -- The loop leaves nothing of the rows that the query may return.
  read_rows-take : (n : ℕ) (xs : List A) → read_rows n (take (suc n) xs) ≡ (take n xs, [])
  unfolding take read_rows
  read_rows-take zero [] = refl
  read_rows-take zero (x ∷ xs) = refl
  read_rows-take (suc n) [] = refl
  read_rows-take (suc n) (x ∷ xs) = ap (λ p. (x ∷ p.0, p.1)) (read_rows-take n xs)

module _ (split : String → List String) (order : List (List String) → List (List String))
    (greater : List String → List String → Bool) where
  page_of-nil :
      (kept : List (List String))
      → page_of split order greater (kept, []) ≡ record { items = kept; next_token = "" }
  page_of-nil kept = elim (Option-cases (last kept)) [
    | inl missing ↦ ground arith
    | inr (name, is) ↦ ground arith
  ]

  -- Where the query does not fail, a list of namespaces gives the first names after the token, as many
  -- as the page has room for, and never a token for the next page, however many there are.
  pub list_namespaces-eq :
      (parent page_token : String) (page_size : ℤ) (d : CatalogRows)
      → list_namespaces split order greater false parent page_token page_size d
        ≡ ok (record {
          items =
              take
                (validate_page_size page_size)
                (selected split order greater parent page_token (map (λ n. n.name) d.namespaces));
          next_token = "";
        })
  unfolding list_namespaces
  list_namespaces-eq parent page_token page_size d =
      let size = validate_page_size page_size in
      let names = selected split order greater parent page_token (map (λ n. n.name) d.namespaces) in
      ap (λ p. ok (page_of split order greater p)) (read_rows-take size names)
      ∙ ap ok (page_of-nil (take size names))

module _ (order : List String → List String) (greater : String → String → Bool) where
  item_page-nil :
      (kept : List String)
      → item_page order greater (kept, []) ≡ record { items = kept; next_token = "" }
  item_page-nil kept = elim (Option-cases (last kept)) [
    | inl missing ↦ ground arith
    | inr (name, is) ↦ ground arith
  ]

  answer_items-nil :
      (namespace : List String) (namespaces : List Namespace) (kept : List String)
      → answer_items order greater (false, false) namespace namespaces (kept, []) ≡ (
          if is_empty kept && not (some_of (named namespace) namespaces)
          then err namespace_not_found
          else ok (record { items = kept; next_token = "" }))
  answer_items-nil namespace namespaces kept =
      rw (item_page-nil kept) (go (is_empty kept) (some_of (named namespace) namespaces) _ _)
    where
      go :
          (b c : Bool) (x y : Result CatalogError (Page String))
          → (if not b then x else if c then x else y) ≡ (if b && not c then y else x)
      go true true x y = refl
      go true false x y = refl
      go false c x y = refl

  -- The answer with the first names after the token, as many as the page has room for, and no token.
  abbrev pub first_page :
      List String → String → ℤ → List Namespace → List Item → Result CatalogError (Page String)
  first_page namespace page_token page_size namespaces items =
      let page =
        take (validate_page_size page_size)
          (selected_items order greater namespace page_token namespaces items) in
      if is_empty page && not (some_of (named namespace) namespaces)
      then err namespace_not_found
      else ok (record { items = page; next_token = "" })

  list_items-eq :
      (namespace : List String) (page_token : String) (page_size : ℤ) (namespaces : List Namespace)
      (items : List Item)
      → list_items order greater (false, false) namespace page_token page_size namespaces items
        ≡ first_page namespace page_token page_size namespaces items
  unfolding list_items
  list_items-eq namespace page_token page_size namespaces items =
      let size = validate_page_size page_size in
      let names = selected_items order greater namespace page_token namespaces items in
      ap (answer_items order greater (false, false) namespace namespaces)
        (read_rows-take size names)
      ∙ answer_items-nil namespace namespaces (take size names)

  -- Where no query fails, a list of the tables, and one of the views, of a namespace gives the first
  -- names after the token, as many as the page has room for, and never a token for the next page; it
  -- is the error for a missing namespace where there is no name to give and no namespace.
  pub list_tables-eq :
      (namespace : List String) (page_token : String) (page_size : ℤ) (d : CatalogRows)
      → (list_tables order greater (false, false) namespace page_token page_size d
          ≡ first_page namespace page_token page_size d.namespaces d.tables)
        × (list_views order greater (false, false) namespace page_token page_size d
            ≡ first_page namespace page_token page_size d.namespaces d.views)
  list_tables-eq namespace page_token page_size d = (
    list_items-eq namespace page_token page_size d.namespaces d.tables,
    list_items-eq namespace page_token page_size d.namespaces d.views,
  )
