-- ===== src/Tables/Drop.antt =====
-- internal/api/handlers/table.go: LoadTable, DropTable and TableExists, each with one statement on
-- the tables and one on the namespaces.
use bingsan.Prelude.{
  String, ◌≡◌, Memᴰ, All, Bool, true, false, Option, none, some, List, [], ◌∷◌, ◌&&◌, ◌==◌,
  if◌then◌else◌,
}
use bingsan.Go.Value.{json_trip_fields}
use bingsan.Tables.Rows.{IsRowOf, IsLeft}
use bingsan.Tables.Commit.{
  LoadTableResponse, NamespaceRow, TableRow, World, namespace_exists, in_namespace, find_table,
}

pub data RowResponse (E : Type 0) : Type 0 where
  internal : E → RowResponse E
  no_namespace no_table not_found no_content : RowResponse E
  loaded : LoadTableResponse → RowResponse E

-- `DELETE FROM tables t USING namespaces n WHERE … n.name = $1 AND t.name = $2`
unfoldable pub delete_table :
    List String → String → List NamespaceRow → List TableRow → List TableRow
delete_table ns name namespaces [] = []
delete_table ns name namespaces (t ∷ ts) =
    let rest = delete_table ns name namespaces ts in
    if t.name == name && in_namespace ns t.namespace_id namespaces then rest else t ∷ rest

module _ {E : Type 0} where
  -- Which of the two is missing; an error of the statement counts as no namespace.
  abbrev which_missing : Option E → Bool → RowResponse E
  which_missing (some e) there = no_namespace
  which_missing none true = no_table
  which_missing none false = no_namespace

  abbrev answer_missing : List String → World E → RowResponse E
  answer_missing ns w = which_missing w.answers.exists (namespace_exists ns w.store.namespaces)

  unfoldable pub load_table : List String → String → World E → RowResponse E
  load_table ns name w = elim w.answers.select [
    | some e ↦ internal e
    | none ↦ (elim (find_table ns name w.store.namespaces w.store.tables) [
      | none ↦ answer_missing ns w
      | some row ↦ loaded (record {
        metadata_location = row.metadata_location;
        metadata = json_trip_fields row.metadata;
      })
    ])
  ]

  unfoldable pub table_exists : List String → String → World E → RowResponse E
  table_exists ns name w = elim w.answers.select [
    | some e ↦ internal e
    | none ↦ (elim (find_table ns name w.store.namespaces w.store.tables) [
      | none ↦ not_found
      | some row ↦ no_content
    ])
  ]

  -- No row was affected exactly if none was found.
  abbrev delete_found :
      Option E → Option TableRow → List String → String → World E → RowResponse E × World E
  delete_found (some e) found ns name w = (internal e, w)
  delete_found none none ns name w = (answer_missing ns w, w)
  delete_found none (some row) ns name w = (
    no_content,
    record w {
      store = record w.store { tables = delete_table ns name w.store.namespaces w.store.tables };
    },
  )

  unfoldable pub drop_table : List String → String → World E → RowResponse E × World E
  drop_table ns name w =
      delete_found w.answers.update (find_table ns name w.store.namespaces w.store.tables) ns name w

module _ {E : Type 0} (ns : List String) (name : String) (w : World E) where
  -- What is left after a drop: of the rows of tables those that are not of the table, and all else.
  abbrev pub Leaves : World E → Type 0
  Leaves w' =
      IsLeft ns name w.store.namespaces w.store.tables w'.store.tables
      × (w' ≡ record w { store = record w.store { tables = w'.store.tables } })

  -- By the answer: a dropped table had been there, its rows and no other are gone, it is not found any
  -- more, and every table of another name is loaded as before; with any other answer nothing has
  -- changed, and a table that is said to be missing is.
  abbrev pub IsDrop : RowResponse E × World E → Type 0
  IsDrop (no_content, w') =
      ((row : TableRow) × Memᴰ row w.store.tables × IsRowOf ns name w.store.namespaces row)
      × Leaves w'
      × (table_exists ns name (record w' { answers = record w.answers { select = none } })
          ≡ not_found)
      × ((other_ns : List String) (other : String)
          → (other == name) ≡ false
          → load_table other_ns other w' ≡ load_table other_ns other w)
  IsDrop (internal e, w') = w' ≡ w
  IsDrop (_, w') = All (λ t. ¬ IsRowOf ns name w.store.namespaces t) w.store.tables × (w' ≡ w)
