-- ===== src/Catalog/Pages.antt =====
-- internal/api/handlers: ListNamespaces, ListTables and ListViews. `order` and `greater` are ORDER BY
-- and `>` in the database's collation.
pub mod Cursor
use bingsan.Prelude.{
  ℕ, zero, suc, ◌+◌, ◌<◌, ◌≤◌, String, ◌≡◌, refl, Bool, true, false, not, Option, none, some, List,
  [], ◌∷◌, map, ◌&&◌, ◌||◌, ◌==◌, arith, eqb, ltb, length, keep, some_of, if_cases, if◌then◌else◌,
}
use bingsan.Prelude.Int.{ℤ, pos, ltb_ℤ, pos_part}
use bingsan.Updates.Exec.{Result, ok, err}
use bingsan.Tables.Commit.{same_name}
use bingsan.Catalog.{
  Namespace, Item, CatalogRows, CatalogError, namespace_not_found, internal, named, join,
}

abbrev pub validate_page_size : ℤ → ℕ
validate_page_size n =
    if ltb_ℤ n (pos 1) then 1 else if ltb_ℤ (pos 1000) n then 1000 else pos_part n

module _ {ℓ} {A : Type ℓ} where
  -- `LIMIT`
  unfoldable pub take : ℕ → List A → List A
  take zero xs = []
  take (suc n) [] = []
  take (suc n) (x ∷ xs) = x ∷ take n xs

  -- The loop over `rows.Next()`: what it keeps, and what is left of the rows. The row at which it
  -- stops has been taken.
  unfoldable pub read_rows : ℕ → List A → List A × List A
  read_rows n [] = ([], [])
  read_rows zero (x ∷ xs) = ([], xs)
  read_rows (suc n) (x ∷ xs) = let (kept, left) = read_rows n xs in (x ∷ kept, left)

  unfoldable pub last : List A → Option A
  last [] = none
  last (x ∷ []) = some x
  last (x ∷ y ∷ xs) = last (y ∷ xs)

  abbrev pub is_empty : List A → Bool
  is_empty [] = true
  is_empty (x ∷ xs) = false

pub record Page (A : Type 0) : Type 0 where
  pub items : List A
  pub next_token : String

-- `name[1:array_length(parent)] = parent`
unfoldable pub is_below : List String → List String → Bool
is_below [] name = true
is_below (p ∷ parent) [] = false
is_below (p ∷ parent) (n ∷ name) = let rest = is_below parent name in n == p && rest

module _ (split : String → List String) (order : List (List String) → List (List String))
    (greater : List String → List String → Bool) where
  -- The names that the query may return, in order.
  abbrev pub selected : String → String → List (List String) → List (List String)
  selected parent page_token names = order (
      keep
        (λ name.
          (parent == "" || is_below (split parent) name)
          && (page_token == "" || greater name (split page_token)))
        names)

  abbrev pub page_of : List (List String) × List (List String) → Page (List String)
  page_of (kept, left) = record {
    items = kept;
    next_token = elim (last kept) [
      | none ↦ ""
      | some name ↦ if not (is_empty left) && not (is_empty name) then join "\u{1f}" name else ""
    ];
  }

  unfoldable pub list_namespaces :
      Bool → String → String → ℤ → CatalogRows → Result CatalogError (Page (List String))
  list_namespaces down parent page_token page_size d =
      let size = validate_page_size page_size in
      let rows = take (suc size) (selected parent page_token (map (λ n. n.name) d.namespaces)) in
      if down then err internal else ok (page_of (read_rows size rows))

module _ (order : List String → List String) (greater : String → String → Bool) where
  -- The names of the items of a namespace that the query may return, in order.
  abbrev pub selected_items : List String → String → List Namespace → List Item → List String
  selected_items namespace page_token namespaces items = order (
      map (λ i. i.name)
        (keep
          (λ i.
            some_of (λ n. i.namespace_id == n.id && named namespace n) namespaces
            && (page_token == "" || greater i.name page_token))
          items))

  abbrev pub item_page : List String × List String → Page String
  item_page (kept, left) = record {
    items = kept;
    next_token = elim (last kept) [ none ↦ "" | some name ↦ if is_empty left then "" else name ];
  }

  -- The rows have been read.
  abbrev pub answer_items :
      Bool × Bool
      → List String
      → List Namespace
      → List String × List String
      → Result CatalogError (Page String)
  answer_items down namespace namespaces (kept, left) =
      if down.0
      then err internal
      else if not (is_empty kept)
      then ok (item_page (kept, left))
      else if down.1
      then err internal
      else if some_of (named namespace) namespaces
      then ok (item_page (kept, left))
      else err namespace_not_found

  -- `down` says which of the query and the search for the namespace fail. Tables and views are
  -- listed alike.
  unfoldable pub list_items :
      Bool × Bool
      → List String
      → String
      → ℤ
      → List Namespace
      → List Item
      → Result CatalogError (Page String)
  list_items down namespace page_token page_size namespaces items =
      let size = validate_page_size page_size in
      let rows = take (suc size) (selected_items namespace page_token namespaces items) in
      answer_items down namespace namespaces (read_rows size rows)

  abbrev pub list_tables :
      Bool × Bool → List String → String → ℤ → CatalogRows → Result CatalogError (Page String)
  list_tables down namespace page_token page_size d =
      list_items down namespace page_token page_size d.namespaces d.tables

  abbrev pub list_views :
      Bool × Bool → List String → String → ℤ → CatalogRows → Result CatalogError (Page String)
  list_views down namespace page_token page_size d =
      list_items down namespace page_token page_size d.namespaces d.views
