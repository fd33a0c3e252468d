-- ===== src/Catalog/Items/Renamed.antt =====
-- internal/api/handlers/table.go and view.go: what RenameTable and RenameView answer, and do to each row.
use bingsan.Prelude.{
  String, ◌≡◌, refl, sym, ap, ◌∙◌, subst, Bool, true, false, some, Option-cases, List, [], ◌∷◌,
  Memᴰ, All, Pointwise, empty, more, ◌⊎◌, inl, inr, ◌||◌, eq_iff, arith, Bool-cases, if_cases, find,
  find-some, find-none, some_of, some_of-true, some_of-All,
}
use bingsan.Updates.Exec.{Result, ok, err}
use bingsan.Catalog.{
  Namespace, Item, CatalogRows, CatalogError, namespace_not_found, already_exists, item_not_found,
  internal, named, same_name_iff, same_name_refl,
}
use bingsan.Tables.Commit.{same_name}
use bingsan.Catalog.Items.{
  RenameRequest, is_item, move_rows, is_taken, id_of, rename_rows, rename_found, rename,
  rename_table, rename_view,
}

-- The row is of an item with this name, in the namespace with that id.
abbrev pub IsItem : String → String → Item → Type 0
IsItem id name i = (i.namespace_id ≡ id) × (i.name ≡ name)

hit-IsItem : (id name : String) (i : Item) → is_item id name i ≡ true → IsItem id name i
hit-IsItem id name i h =
    ((eq_iff i.namespace_id id).0 (ground arith), (eq_iff i.name name).0 (ground arith))

miss-IsItem : (id name : String) (i : Item) → is_item id name i ≡ false → ¬ IsItem id name i
miss-IsItem id name i h (a, b) =
    let e = (eq_iff i.namespace_id id).1 a in
    let f = (eq_iff i.name name).1 b in absurd (ground arith)

-- The item has the new namespace and name; any other is as it was.
module _ (from name to new_name : String) where
  abbrev pub IsMoved : Item → Item → Type 0
  IsMoved i j = (IsItem from name i × IsItem to new_name j) ⊎ (¬ IsItem from name i × (j ≡ i))

  move_rows-IsMoved :
      (items : List Item) → Pointwise IsMoved items (move_rows from name to new_name items)
  unfolding move_rows
  move_rows-IsMoved [] = empty
  move_rows-IsMoved (i ∷ items) = elim (Bool-cases (is_item from name i)) [
    | inl hit ↦
        rw hit (more (inl (hit-IsItem from name i hit, (refl, refl))) (move_rows-IsMoved items))
    | inr miss ↦ rw miss (more (inr (miss-IsItem from name i miss, refl)) (move_rows-IsMoved items))
  ]

-- A namespace of this name that is there, with what is said of its id.
abbrev pub InNamespace : List String → List Namespace → (String → Type 0) → Type 0
InNamespace name namespaces P = (n : Namespace) × Memᴰ n namespaces × (n.name ≡ name) × P n.id

abbrev pub IsMissing : List String → List Namespace → Type 0
IsMissing name namespaces = All (λ n. ¬ (n.name ≡ name)) namespaces

id_of-ok :
    (down : Bool) (name : List String) (namespaces : List Namespace) (id : String)
    (P : String → Type 0)
    → id_of down name namespaces ≡ ok id
    → P id
    → InNamespace name namespaces P
id_of-ok true name namespaces id P h p = absurd (ground arith)
id_of-ok false name namespaces id P h p = elim (Option-cases (find (named name) namespaces)) [
  | inl f ↦ absurd (ground arith)
  | inr (n, f) ↦
      let (hit, there) = find-some (named name) namespaces f in
      let same : id ≡ n.id = ground arith in
      (n, there, same_name_iff n.name name hit, subst P same p)
]

module _ (down : Bool × Bool × Bool) (req : RenameRequest) (namespaces : List Namespace)
    (items : List Item) where
  -- What an error tells.
  abbrev pub IsWhy : CatalogError → Type 0
  IsWhy internal = (down.0 || down.1 || down.2) ≡ true
  IsWhy namespace_not_found =
      IsMissing req.source.namespace namespaces ⊎ IsMissing req.destination.namespace namespaces
  IsWhy item_not_found =
      InNamespace req.source.namespace namespaces
        (λ from. All (λ i. ¬ IsItem from req.source.name i) items)
  IsWhy already_exists =
      InNamespace req.destination.namespace namespaces
        (λ to. (i : Item) × Memᴰ i items × IsItem to req.destination.name i)
  IsWhy _ = ⊥

  -- By the answer: the item was there and its row alone has moved, or nothing has changed.
  abbrev pub IsRenamed : Result CatalogError (Unit {0}) × List Item → Type 0
  IsRenamed (ok _, after) = InNamespace req.source.namespace namespaces (λ from.
      InNamespace req.destination.namespace namespaces (λ to.
        ((i : Item) × Memᴰ i items × IsItem from req.source.name i)
        × Pointwise (IsMoved from req.source.name to req.destination.name) items after))
  IsRenamed (err e, after) = (after ≡ items) × IsWhy e

  id_of-err :
      (b : Bool) (name : List String) (e : CatalogError)
      → id_of b name namespaces ≡ err e
      → ((e ≡ internal) × (b ≡ true)) ⊎ ((e ≡ namespace_not_found) × IsMissing name namespaces)
  id_of-err true name e h = inl (ground arith, refl)
  id_of-err false name e h = elim (Option-cases (find (named name) namespaces)) [
    | inr (n, f) ↦ absurd (ground arith)
    | inl f ↦ inr (
      ground arith,
      some_of-All (λ n. ¬ (n.name ≡ name)) (named name) namespaces
          (λ n miss same.
            (let own = same_name_refl n.name in
              let e : named name n ≡ true = ap (same_name n.name) (sym same) ∙ own in
              absurd (ground arith)))
          (find-none (named name) namespaces f),
    )
  ]

  -- The three names of an answer to the `UPDATE`, once both namespaces are found.
  rename_rows-IsRenamed :
      (from to : String)
      → id_of down.0 req.source.namespace namespaces ≡ ok from
      → id_of down.1 req.destination.namespace namespaces ≡ ok to
      → IsRenamed (rename_rows down.2 from req.source.name to req.destination.name items)
  rename_rows-IsRenamed from to h k =
      let name = req.source.name in
      let new_name = req.destination.name in
      if_cases IsRenamed down.2 (λ d. (refl, ground arith))
        (λ _.
          if_cases IsRenamed (is_taken from name to new_name items)
            (λ taken.
              let (i, there, hit) = some_of-true (is_item to new_name) items (ground arith) in
              (
                refl,
                id_of-ok down.1 req.destination.namespace namespaces to
                    (λ id. (i : Item) × Memᴰ i items × IsItem id new_name i) k
                    (i, there, hit-IsItem to new_name i hit),
              ))
            (λ _.
              if_cases IsRenamed (some_of (is_item from name) items)
                (λ found.
                  let (i, there, hit) = some_of-true (is_item from name) items found in
                  id_of-ok down.0 req.source.namespace namespaces from _ h (
                    id_of-ok down.1 req.destination.namespace namespaces to
                      (λ id.
                        ((j : Item) × Memᴰ j items × IsItem from name j)
                        × Pointwise (IsMoved from name id new_name) items
                            (move_rows from name to new_name items))
                      k
                      (
                        (i, there, hit-IsItem from name i hit),
                        move_rows-IsMoved from name to new_name items,
                      )))
                (λ gone. (
                  refl,
                  id_of-ok down.0 req.source.namespace namespaces from
                      (λ id. All (λ i. ¬ IsItem id name i) items) h
                      (some_of-All (λ i. ¬ IsItem from name i) (is_item from name) items
                        (miss-IsItem from name) gone),
                ))))

  rename_found-IsRenamed :
      (a b : Result CatalogError String)
      → id_of down.0 req.source.namespace namespaces ≡ a
      → id_of down.1 req.destination.namespace namespaces ≡ b
      → IsRenamed (rename_found down.2 req a b items)
  rename_found-IsRenamed (err e) b h k = (
    refl,
    elim (id_of-err down.0 _ e h) [
      | inl (is, d) ↦ subst IsWhy (sym is) (ground arith)
      | inr (is, m) ↦ subst IsWhy (sym is) (inl m)
    ],
  )
  rename_found-IsRenamed (ok from) (err e) h k = (
    refl,
    elim (id_of-err down.1 _ e k) [
      | inl (is, d) ↦ subst IsWhy (sym is) (ground arith)
      | inr (is, m) ↦ subst IsWhy (sym is) (inr m)
    ],
  )
  rename_found-IsRenamed (ok from) (ok to) h k = rename_rows-IsRenamed from to h k

  rename-IsRenamed : IsRenamed (rename down (some req) namespaces items)
  unfolding rename
  rename-IsRenamed = rename_found-IsRenamed _ _ refl refl

-- RenameTable, over the tables, and RenameView, over the views: where it answers that the item is
-- renamed, both namespaces of the request and an item of the source's name in the first were there;
-- the rows of that item have the name and the namespace of the destination, every other row is as it
-- was, and so is all else in the database. Where it answers with an error, nothing has changed, and
-- the error is true: a namespace that is said to be missing is, an item that is said to be missing
-- is, and a name that is said to be taken is; an internal error is that of a statement. Which names
-- a database refuses as taken is its own unique constraint.
pub rename_table-IsRenamed :
    (down : Bool × Bool × Bool) (req : RenameRequest) (d : CatalogRows)
    → let (answer, after) = rename_table down (some req) d in
      let (view_answer, view_after) = rename_view down (some req) d in
      IsRenamed down req d.namespaces d.tables (answer, after.tables)
      × (after ≡ record d { tables = after.tables })
      × IsRenamed down req d.namespaces d.views (view_answer, view_after.views)
      × (view_after ≡ record d { views = view_after.views })
rename_table-IsRenamed down req d = (
  rename-IsRenamed down req d.namespaces d.tables,
  refl,
  rename-IsRenamed down req d.namespaces d.views,
  refl,
)
