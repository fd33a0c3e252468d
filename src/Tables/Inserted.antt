-- ===== src/Tables/Inserted.antt =====
-- internal/api/handlers/table.go: a table that CreateTable or RegisterTable has made is there.
use bingsan.Prelude.{
  ◌≡◌, refl, sym, ap, ◌∙◌, String, Bool, true, false, Option, none, some, List, [], ◌∷◌, ◌++◌, Memᴰ,
  ◌==◌, eq_iff, find, find-some, some_of, inl, inr, arith, Bool-cases, if_cases,
}
use bingsan.Prelude.Int.{ℤ, pos}
use bingsan.Go.Value.{Fields, json_trip_fields}
use bingsan.Updates.Exec.{Result, ok, err}
use bingsan.Tables.Commit.{
  LoadTableResponse, NamespaceRow, TableRow, Store, World, Format, in_namespace, find_table,
}
use bingsan.Tables.Rows.{in_namespace-some}
use bingsan.Tables.Drop.{loaded, load_table}
use bingsan.Tables.Create.{
  CreateTableRequest, RegisterTableRequest, CreateError, create_table, insert_table, insert_new,
  create_in, create_with_schema, register_in, register_table, named, is_row,
}

in_namespace-hit :
    (ns : List String) (n : NamespaceRow) (namespaces : List NamespaceRow)
    → find (named ns) namespaces ≡ some n
    → in_namespace ns n.id namespaces ≡ true
unfolding in_namespace
in_namespace-hit ns n [] h = absurd (ground arith)
in_namespace-hit ns n (m ∷ namespaces) h = elim (Bool-cases (named ns m)) [
  | inl hit ↦
      let whole : m ≡ n = ground arith in
      let same : m.id ≡ n.id = ap (λ x. x.id) whole in ground (arith, eq_iff m.id n.id)
  | inr other ↦ let rest = in_namespace-hit ns n namespaces (ground arith) in ground arith
]

-- The rows of one name have one id, as the column is unique.
abbrev pub IsOne : List String → List NamespaceRow → Type 0
IsOne ns namespaces =
    (m k : NamespaceRow)
    → Memᴰ m namespaces
    → Memᴰ k namespaces
    → named ns m ≡ true
    → named ns k ≡ true
    → m.id ≡ k.id

module _ (ns : List String) (name : String) (namespaces : List NamespaceRow) (n : NamespaceRow)
    (one : IsOne ns namespaces) (found : find (named ns) namespaces ≡ some n) where
  joined-is_row :
      (t : TableRow) → in_namespace ns t.namespace_id namespaces ≡ true → t.namespace_id ≡ n.id
  joined-is_row t h =
      let (m, there, e, f) = in_namespace-some ns t.namespace_id namespaces h in
      let (g, k) = find-some (named ns) namespaces found in sym e ∙ one m n there k f g

  find_table-new :
      (tables : List TableRow)
      → some_of (is_row n.id name) tables ≡ false
      → find_table ns name namespaces tables ≡ none
  unfolding find_table
  find_table-new [] h = refl
  find_table-new (t ∷ tables) h =
      let rest = find_table-new tables (ground arith) in
      elim (Bool-cases (in_namespace ns t.namespace_id namespaces)) [
        | inl in_it ↦ let e = joined-is_row t in_it in ground (arith, eq_iff t.namespace_id n.id)
        | inr other ↦ ground arith
      ]

  find_table-last :
      (tables : List TableRow) (t : TableRow)
      → some_of (is_row n.id name) tables ≡ false
      → is_row n.id name t ≡ true
      → find_table ns name namespaces (tables ++ t ∷ []) ≡ some t
  unfolding find_table
  find_table-last [] t h k =
      let hit = in_namespace-hit ns n namespaces found in
      let same : t.namespace_id ≡ n.id = (eq_iff t.namespace_id n.id).0 (ground arith) in
      let e = ap (λ id. in_namespace ns id namespaces) same in ground arith
  find_table-last (x ∷ tables) t h k =
      let rest = find_table-last tables t (ground arith) k in
      elim (Bool-cases (in_namespace ns x.namespace_id namespaces)) [
        | inl in_it ↦ let e = joined-is_row x in_it in ground (arith, eq_iff x.namespace_id n.id)
        | inr other ↦ ground arith
      ]

-- A database whose statements meet no error.
abbrev pub calm : Store → World (Unit {0})
calm store = record {
  store = store;
  now = pos 0;
  answers = record { select = none; exists = none; update = none };
}

-- An error has changed nothing; else the table was not there, and it is loaded as it was answered.
abbrev pub IsMade :
    List String → String → Store → Result CreateError LoadTableResponse × Store → Type 0
IsMade ns name store (err e, after) = after ≡ store
IsMade ns name store (ok r, after) =
    (find_table ns name store.namespaces store.tables ≡ none)
    × (load_table ns name (calm after)
        ≡ loaded (record {
          metadata_location = r.metadata_location;
          metadata = json_trip_fields r.metadata;
        }))

module _ (format : Format) (down : Bool × Bool) (uuid id : String) (now : ℤ) (ns : List String)
    (store : Store) (one : IsOne ns store.namespaces) where
  abbrev Made : String → Result CreateError LoadTableResponse × Store → Type 0
  Made name = IsMade ns name store

  insert_table-IsMade :
      (n : NamespaceRow) (name location : String) (metadata : Fields)
      → find (named ns) store.namespaces ≡ some n
      → Made name (insert_table format down uuid id now n.id name location metadata store)
  unfolding load_table
  insert_table-IsMade n name location metadata found =
      if_cases (Made name) down.1 (λ _. refl)
        (λ _.
          if_cases (Made name) (some_of (is_row n.id name) store.tables) (λ _. refl)
            (λ fresh.
              let new : TableRow = record {
                id = id;
                namespace_id = n.id;
                name = name;
                metadata_location = location;
                metadata = metadata;
                previous_metadata_location = none;
              } in
              let there =
                find_table-last ns name store.namespaces n one found store.tables new fresh
                  (ground (arith, eq_iff n.id n.id, eq_iff name name)) in
              (
                find_table-new ns name store.namespaces n one found store.tables fresh,
                rw (there, load_table) refl,
              )))

  insert_new-IsMade :
      (n : NamespaceRow) (name location : String) (metadata : Fields) (prefix : Option String)
      → find (named ns) store.namespaces ≡ some n
      → Made name (insert_new format down uuid id now n.id name location metadata prefix store)
  insert_new-IsMade n name location metadata none found = refl
  insert_new-IsMade n name location metadata (some prefix) found =
      insert_table-IsMade n name (format.metadata_path location (pos 0) now prefix) metadata found

  create_in-IsMade :
      (warehouse : String) (schema : Fields) (req : CreateTableRequest) (o : Option NamespaceRow)
      → find (named ns) store.namespaces ≡ o
      → Made req.name (create_in format down uuid id now warehouse ns schema req o store)
  create_in-IsMade warehouse schema req none found = refl
  create_in-IsMade warehouse schema req (some n) found =
      insert_new-IsMade n req.name _ _ (format.first_eight uuid) found

  with_schema-IsMade :
      (warehouse : String) (schema : Option Fields) (req : CreateTableRequest)
      → Made req.name (create_with_schema format down uuid id now warehouse ns schema req store)
  with_schema-IsMade warehouse none req = refl
  with_schema-IsMade warehouse (some schema) req =
      if_cases (Made req.name) down.0 (λ _. refl)
        (λ _. create_in-IsMade warehouse schema req (find (named ns) store.namespaces) refl)

  -- Where the rows of the namespace have one id, a table that CreateTable answers to have made was not
  -- there before; and on the database as CreateTable leaves it, LoadTable, if none of its statements meets
  -- an error, answers with the location and the metadata of that answer, as they are after JSON. Where
  -- CreateTable answers with an error, it has changed nothing.
  pub create_table-IsMade :
      (warehouse : String) (req : CreateTableRequest)
      → IsMade ns req.name store
          (create_table format down uuid id now warehouse ns (some req) store)
  unfolding create_table
  create_table-IsMade warehouse req =
      if_cases (Made req.name) (req.name == "") (λ _. refl)
        (λ _. with_schema-IsMade warehouse req.schema req)

  register_in-IsMade :
      (req : RegisterTableRequest) (o : Option NamespaceRow)
      → find (named ns) store.namespaces ≡ o
      → Made req.name (register_in format down uuid id now req o store)
  register_in-IsMade req none found = refl
  register_in-IsMade req (some n) found = insert_table-IsMade n req.name _ _ found

  -- The same of RegisterTable: what it registers is loaded with the location of the request.
  pub register_table-IsMade :
      (req : RegisterTableRequest)
      → IsMade ns req.name store (register_table format down uuid id now ns (some req) store)
  unfolding register_table
  register_table-IsMade req =
      if_cases (Made req.name) (req.name == "") (λ _. refl)
        (λ _.
          if_cases (Made req.name) (req.metadata_location == "") (λ _. refl)
            (λ _.
              if_cases (Made req.name) down.0 (λ _. refl)
                (λ _. register_in-IsMade req (find (named ns) store.namespaces) refl)))
