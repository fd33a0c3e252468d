-- ===== src/Catalog/Items/Rename.antt =====
-- internal/api/handlers/table.go and view.go: names stay unique under RenameTable and
-- RenameView.
use bingsan.Prelude.{
  String, ◌≡◌, refl, sym, ◌∙◌, Bool, true, false, some, List, [], ◌∷◌, ◌&&◌, ◌==◌, eq_iff, arith,
  Bool-cases, inl, inr, some_of,
}
use bingsan.Updates.Exec.{Result, ok, err}
use bingsan.Catalog.{Namespace, Item, CatalogRows, CatalogError}
use bingsan.Catalog.Items.{
  RenameRequest, is_item, move_rows, is_taken, rename_rows, rename_found, rename, rename_table,
  rename_view,
}

-- No two rows have the same namespace and name.
abbrev IsUnique : List Item → Type 0
IsUnique [] = Unit
IsUnique (i ∷ is) = (some_of (is_item i.namespace_id i.name) is ≡ false) × IsUnique is

module _ (from name to new_name : String) where
  abbrev moved : Item
  moved = record { namespace_id = to; name = new_name }

  move_rows-absent :
      (is : List Item)
      → some_of (is_item from name) is ≡ false
      → move_rows from name to new_name is ≡ is
  unfolding move_rows
  move_rows-absent [] h = refl
  move_rows-absent (i ∷ is) h = let rest = move_rows-absent is (ground arith) in ground arith

  move_rows-misses :
      (a b : String) (is : List Item)
      → some_of (is_item a b) is ≡ false
      → is_item a b moved ≡ false
      → some_of (is_item a b) (move_rows from name to new_name is) ≡ false
  unfolding move_rows
  move_rows-misses a b [] h k = refl
  move_rows-misses a b (i ∷ is) h k =
      let rest = move_rows-misses a b is (ground arith) k in ground arith

  -- A row's name is another's, whichever is asked for.
  is_item-sym :
      (i : Item) → is_item to new_name i ≡ false → is_item i.namespace_id i.name moved ≡ false
  is_item-sym i h = ground (
    arith,
    eq_iff i.namespace_id to,
    eq_iff to i.namespace_id,
    eq_iff i.name new_name,
    eq_iff new_name i.name,
  )

  is_item-same :
      (i : Item) (is : List Item)
      → is_item from name i ≡ true
      → some_of (is_item i.namespace_id i.name) is ≡ some_of (is_item from name) is
  is_item-same i is h =
      let a = (eq_iff i.namespace_id from).0 (ground arith) in
      let b = (eq_iff i.name name).0 (ground arith) in rw (a, b) refl

  move_rows-IsUnique :
      (is : List Item)
      → IsUnique is
      → some_of (is_item to new_name) is ≡ false
      → IsUnique (move_rows from name to new_name is)
  unfolding move_rows
  move_rows-IsUnique [] u h = tt
  move_rows-IsUnique (i ∷ is) (alone, u) h = elim (Bool-cases (is_item from name i)) [
    | inl hit ↦
        let same = move_rows-absent is (sym (is_item-same i is hit) ∙ alone) in
        rw (hit, same) (ground arith, u)
    | inr miss ↦ rw miss (
      move_rows-misses i.namespace_id i.name is alone (is_item-sym i (ground arith)),
      move_rows-IsUnique is u (ground arith),
    )
  ]

  -- A row that keeps its name is as it was.
  move_rows_self :
      (is : List Item)
      → ((to == from) && (new_name == name)) ≡ true
      → move_rows from name to new_name is ≡ is
  unfolding move_rows
  move_rows_self [] h = refl
  move_rows_self (i ∷ is) h = elim (Bool-cases (is_item from name i)) [
    | inl hit ↦
        let rest = move_rows_self is h in
        let a = (eq_iff i.namespace_id from).0 (ground arith) in
        let b = (eq_iff i.name name).0 (ground arith) in
        let c = (eq_iff to from).0 (ground arith) in
        let e = (eq_iff new_name name).0 (ground arith) in ground arith
    | inr miss ↦ let rest = move_rows_self is h in ground arith
  ]

  rename_rows-IsUnique :
      (down : Bool) (items : List Item)
      → IsUnique items
      → IsUnique (rename_rows down from name to new_name items).1
  rename_rows-IsUnique true items u = u
  rename_rows-IsUnique false items u = elim (Bool-cases (is_taken from name to new_name items)) [
    | inl taken ↦ rw taken u
    | inr free ↦ elim (Bool-cases (some_of (is_item from name) items)) [
      | inr missing ↦ rw (free, missing) u
      | inl there ↦ elim (Bool-cases ((to == from) && (new_name == name))) [
        | inl self ↦ rw (free, there, move_rows_self items self) u
        | inr other ↦ rw (free, there) (move_rows-IsUnique items u (ground arith))
      ]
    ]
  ]

module _ (down : Bool × Bool × Bool) (req : RenameRequest) (namespaces : List Namespace)
    (items : List Item) where
  rename_found-IsUnique :
      (a b : Result CatalogError String)
      → IsUnique items
      → IsUnique (rename_found down.2 req a b items).1
  rename_found-IsUnique (err e) b u = u
  rename_found-IsUnique (ok from) (err e) u = u
  rename_found-IsUnique (ok from) (ok to) u =
      rename_rows-IsUnique from req.source.name to req.destination.name down.2 items u

  rename-IsUnique : IsUnique items → IsUnique (rename down (some req) namespaces items).1
  unfolding rename
  rename-IsUnique u = rename_found-IsUnique _ _ u

-- Each pair of a namespace and a name is unique, among the tables and among the views.
abbrev HasUniqueNames : CatalogRows → Type 0
HasUniqueNames d = IsUnique d.tables × IsUnique d.views

-- With the database's unique constraint, a rename of a table, and one of a view, keeps each pair of a
-- namespace and a name unique, whatever it answers.
rename_table-HasUniqueNames :
    (down : Bool × Bool × Bool) (req : RenameRequest) (d : CatalogRows)
    → HasUniqueNames d
    → HasUniqueNames (rename_table down (some req) d).1
      × HasUniqueNames (rename_view down (some req) d).1
rename_table-HasUniqueNames down req d (tables, views) = (
  (rename-IsUnique down req d.namespaces d.tables tables, views),
  (tables, rename-IsUnique down req d.namespaces d.views views),
)
