-- ===== src/Tables/Rows.antt =====
-- internal/api/handlers/table.go: what its SELECT, UPDATE and DELETE do to the rows of `tables`, said
-- of each row on its own.
use bingsan.Prelude.{
  String, ◌≡◌, refl, sym, ap, ◌∙◌, Bool, true, false, none, some, List, [], ◌∷◌, Memᴰ, ◌⊎◌, inl,
  inr, ◌&&◌, ◌==◌, eq_iff, arith, All, Pointwise, empty, more, Bool-cases,
}
use bingsan.Go.Value.{Fields}
use bingsan.Catalog.{same_name_iff, same_name_refl}
use bingsan.Tables.Commit.{
  NamespaceRow, TableRow, same_name, in_namespace, find_table, update_table,
}

-- The row is of a table with this name, in a namespace with that name.
abbrev pub IsRowOf : List String → String → List NamespaceRow → TableRow → Type 0
IsRowOf ns name namespaces t =
    (t.name ≡ name)
    × ((n : NamespaceRow) × Memᴰ n namespaces × (n.id ≡ t.namespace_id) × (n.name ≡ ns))

pub in_namespace-some :
    (ns : List String) (id : String) (namespaces : List NamespaceRow)
    → in_namespace ns id namespaces ≡ true
    → (m : NamespaceRow) × Memᴰ m namespaces × (m.id ≡ id) × (same_name m.name ns ≡ true)
unfolding in_namespace
in_namespace-some ns id [] h = absurd (ground arith)
in_namespace-some ns id (m ∷ namespaces) h = elim (Bool-cases (m.id == id && same_name m.name ns)) [
  | inl hit ↦ (m, Memᴰ.head refl, (eq_iff m.id id).0 (ground arith), ground arith)
  | inr other ↦
      let (k, there, e, f) = in_namespace-some ns id namespaces (ground arith) in
      (k, Memᴰ.tail there, e, f)
]

in_namespace-hit :
    (ns : List String) (id : String) (namespaces : List NamespaceRow) {n : NamespaceRow}
    → Memᴰ n namespaces
    → n.id ≡ id
    → n.name ≡ ns
    → in_namespace ns id namespaces ≡ true
unfolding in_namespace
in_namespace-hit ns id [] m e f = elim m [ ]
in_namespace-hit ns id (k ∷ namespaces) {n} (Memᴰ.head same) e f =
    let i = (eq_iff k.id id).1 (ap (λ x. x.id) (sym same) ∙ e) in
    let j : same_name k.name ns ≡ true =
      ap (λ x. same_name x ns) (ap (λ x. x.name) (sym same) ∙ f) ∙ same_name_refl ns in
    ground arith
in_namespace-hit ns id (k ∷ namespaces) (Memᴰ.tail m) e f =
    let rest = in_namespace-hit ns id namespaces m e f in ground arith

module _ (ns : List String) (name : String) (namespaces : List NamespaceRow) where
  abbrev is_row_of : TableRow → Bool
  is_row_of t = t.name == name && in_namespace ns t.namespace_id namespaces

  pub IsRowOf-hit : (t : TableRow) → IsRowOf ns name namespaces t → is_row_of t ≡ true
  IsRowOf-hit t (e, (n, m, i, f)) =
      let j = in_namespace-hit ns t.namespace_id namespaces m i f in
      let k = (eq_iff t.name name).1 e in ground arith

  pub hit-IsRowOf : (t : TableRow) → is_row_of t ≡ true → IsRowOf ns name namespaces t
  hit-IsRowOf t h =
      let (n, m, i, f) = in_namespace-some ns t.namespace_id namespaces (ground arith) in
      ((eq_iff t.name name).0 (ground arith), (n, m, i, same_name_iff n.name ns f))

  pub miss-IsRowOf : (t : TableRow) → is_row_of t ≡ false → ¬ IsRowOf ns name namespaces t
  miss-IsRowOf t h r = let e = IsRowOf-hit t r in absurd (ground arith)

  pub find_table-some :
      (tables : List TableRow) {row : TableRow}
      → find_table ns name namespaces tables ≡ some row
      → Memᴰ row tables × IsRowOf ns name namespaces row
  unfolding find_table
  find_table-some [] h = absurd (ground arith)
  find_table-some (t ∷ tables) {row} h = elim (Bool-cases (is_row_of t)) [
    | inl hit ↦
        let same : t ≡ row = ground arith in (Memᴰ.head (sym same), rw (← same) (hit-IsRowOf t hit))
    | inr miss ↦ let (m, r) = find_table-some tables {row = row} (ground arith) in (Memᴰ.tail m, r)
  ]

  pub find_table-none :
      (tables : List TableRow)
      → find_table ns name namespaces tables ≡ none
      → All (λ t. ¬ IsRowOf ns name namespaces t) tables
  unfolding find_table
  find_table-none [] h = tt
  find_table-none (t ∷ tables) h = elim (Bool-cases (is_row_of t)) [
    | inl hit ↦ absurd (ground arith)
    | inr miss ↦ (miss-IsRowOf t miss, find_table-none tables (ground arith))
  ]

-- The row with the id has the new metadata, and remembers where the old one was; any other is as it
-- was.
module _ (row : TableRow) (location : String) (metadata : Fields) where
  abbrev pub rewritten : TableRow → TableRow
  rewritten t = record t {
    metadata_location = location;
    metadata = metadata;
    previous_metadata_location = some row.metadata_location;
  }

  abbrev pub IsRewritten : TableRow → TableRow → Type 0
  IsRewritten t u = ((t.id ≡ row.id) × (u ≡ rewritten t)) ⊎ (((t.id == row.id) ≡ false) × (u ≡ t))

  abbrev updated_rows : List TableRow → List TableRow
  updated_rows tables = update_table row.id location metadata row.metadata_location tables

  pub update_table-IsRewritten :
      (tables : List TableRow) → Pointwise IsRewritten tables (updated_rows tables)
  unfolding update_table
  update_table-IsRewritten [] = empty
  update_table-IsRewritten (t ∷ tables) = elim (Bool-cases (t.id == row.id)) [
    | inl hit ↦
        rw hit (more (inl ((eq_iff t.id row.id).0 hit, refl)) (update_table-IsRewritten tables))
    | inr miss ↦ rw miss (more (inr (miss, refl)) (update_table-IsRewritten tables))
  ]

  pub find-update_table :
      (ns : List String) (name : String) (namespaces : List NamespaceRow) (tables : List TableRow)
      → find_table ns name namespaces tables ≡ some row
      → find_table ns name namespaces (updated_rows tables) ≡ some (rewritten row)
  unfolding find_table update_table
  find-update_table ns name namespaces [] h = absurd (ground arith)
  find-update_table ns name namespaces (t ∷ tables) h =
      elim (Bool-cases (is_row_of ns name namespaces t)) [
        | inl hit ↦
            let same : t ≡ row = ground arith in
            let e = (eq_iff t.id row.id).1 (ap (λ x. x.id) same) in
            let f : rewritten t ≡ rewritten row = ap rewritten same in rw e (ground arith)
        | inr miss ↦
            let rest = find-update_table ns name namespaces tables (ground arith) in
            elim (Bool-cases (t.id == row.id)) [
              | inl e ↦ rw e (ground arith)
              | inr e ↦ rw e (ground arith)
            ]
      ]

-- The rows that are of the table are gone, and the others are there, in their order.
pub data IsLeft (ns : List String) (name : String) (namespaces : List NamespaceRow)
    : List TableRow → List TableRow → Type 0 where
  done : IsLeft ns name namespaces [] []
  gone :
      {t : TableRow} {ts us : List TableRow}
      → IsRowOf ns name namespaces t
      → IsLeft ns name namespaces ts us
      → IsLeft ns name namespaces (t ∷ ts) us
  stays :
      {t : TableRow} {ts us : List TableRow}
      → ¬ IsRowOf ns name namespaces t
      → IsLeft ns name namespaces ts us
      → IsLeft ns name namespaces (t ∷ ts) (t ∷ us)
