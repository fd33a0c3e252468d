-- ===== src/Tables/Atomic.antt =====
-- internal/api/handlers/table.go: what a commit leaves in the tables.
use bingsan.Prelude.{
  ℕ, suc, ◌<◌, ◌≤◌, String, ◌≡◌, refl, subst, true, Memᴰ, All, Pointwise, Option, none, some, List,
  [], ◌∷◌, ◌++◌, ◌⊎◌, inl, inr, arith, Option-cases, Bool-cases,
}
use bingsan.Prelude.Int.{add_one}
use bingsan.Go.Value.{Fields, int64, json_trip_fields}
use bingsan.Go.Map.{set}
use bingsan.Updates.Exec.{ok, Result-cases}
use bingsan.Updates.Util.{get_string}
use bingsan.Updates.Dispatch.{Decoder}
use bingsan.Db.Lock.{LockConfig, Attempt, LockError, exhausted, cancelled, failed, attempt_count}
use bingsan.Db.Lock.Atomic.{world, IsAtomic, with_lock-IsAtomic}
use bingsan.Tables.Requirement.{first_failed, validate_requirement, first_failed-none}
use bingsan.Tables.Drop.{load_table, loaded}
use bingsan.Tables.Rows.{
  IsRowOf, IsRewritten, find_table-some, find-update_table, update_table-IsRewritten,
}
use bingsan.Tables.Commit.{
  CommitTableRequest, LoadTableResponse, TableRow, World, TxError, CommitError, Captured, Format,
  Response, committed, lock_conflict, internal_error, bad_request, find_table, update_table,
  updated, write, get_metadata_version, commit_tx, tx_code, answer, answer_captured, answer_error,
  run_commit, commit_table, namespace_exists,
}

module _ {Raw E : Type 0} (decoder : Decoder Raw) (format : Format) (ns : List String)
    (name : String) (req : CommitTableRequest Raw) where
  -- The one change of a commit: of the rows of tables, that of the table has the updated metadata at
  -- a new location, and the others are as they were; the log has an entry; LoadTable answers with the
  -- new metadata. The requirements hold of the metadata as it was read.
  pub record Saves (w w' : World E) (response : Option LoadTableResponse) : Type 0 where
    pub row : TableRow
    pub metadata : Fields
    pub location : String
    pub there : Memᴰ row w.store.tables
    pub named : IsRowOf ns name w.store.namespaces row
    pub required :
        All (λ r. validate_requirement (json_trip_fields row.metadata) r ≡ true) req.requirements
    pub applied : updated decoder (json_trip_fields row.metadata) req.updates ≡ ok metadata
    pub answered :
        response
        ≡ some (record {
          metadata_location = location;
          metadata = set "last-updated-ms" (int64 w.now) metadata;
        })
    pub rows :
        Pointwise
          (IsRewritten row location (set "last-updated-ms" (int64 w.now) metadata))
          w.store.tables
          w'.store.tables
    pub logged : w'.store.commit_log ≡ w.store.commit_log ++ (row.id, location) ∷ []
    pub kept : w' ≡ record w {
      store = record w.store { tables = w'.store.tables; commit_log = w'.store.commit_log };
    }
    pub loads :
        load_table ns name (record w' { answers = record w'.answers { select = none } })
        ≡ loaded (record {
          metadata_location = location;
          metadata = json_trip_fields (set "last-updated-ms" (int64 w.now) metadata);
        })

  -- The world after the two writes.
  abbrev after_save : TableRow → String → Fields → World E → World E
  after_save row location metadata w = record w {
    store = record w.store {
      tables = update_table row.id location metadata row.metadata_location w.store.tables;
      commit_log = w.store.commit_log ++ (row.id, location) ∷ [];
    };
  }

  load-after_save :
      (w : World E) (row : TableRow) (location : String) (metadata : Fields)
      → find_table ns name w.store.namespaces w.store.tables ≡ some row
      → load_table ns name (record (after_save row location metadata w) {
        answers = record w.answers { select = none };
      })
        ≡ loaded (record { metadata_location = location; metadata = json_trip_fields metadata })
  unfolding load_table
  load-after_save w row location metadata f =
      let g = find-update_table row location metadata ns name w.store.namespaces w.store.tables f in
      ground (arith, g)

  after_save-Saves :
      (w w' : World E) (row : TableRow) (m : Fields) (location : String)
      (response : Option LoadTableResponse)
      → find_table ns name w.store.namespaces w.store.tables ≡ some row
      → first_failed (json_trip_fields row.metadata) req.requirements ≡ none
      → updated decoder (json_trip_fields row.metadata) req.updates ≡ ok m
      → response
        ≡ some (record {
          metadata_location = location;
          metadata = set "last-updated-ms" (int64 w.now) m;
        })
      → after_save row location (set "last-updated-ms" (int64 w.now) m) w ≡ w'
      → Saves w w' response
  after_save-Saves w w' row m location response f q u r e =
      let metadata = set "last-updated-ms" (int64 w.now) m in
      let (there, named) = find_table-some ns name w.store.namespaces w.store.tables f in
      subst (λ x. Saves w x response) e
        (record {
          row = row;
          metadata = m;
          location = location;
          there = there;
          named = named;
          required = first_failed-none (json_trip_fields row.metadata) req.requirements q;
          applied = u;
          answered = r;
          rows = update_table-IsRewritten row location metadata w.store.tables;
          logged = refl;
          kept = refl;
          loads = load-after_save w row location metadata f;
        })

  -- A function that returns no error has refused the commit, or has saved it.
  abbrev Effect : World E → Captured → World E → Type 0
  Effect w c w' = ((e : CommitError) × (c.commit_err ≡ some e) × (w' ≡ w)) ⊎ Saves w w' c.response

  save-Saves :
      (c c' : Captured) (w w' : World E) (row : TableRow) (m : Fields)
      → find_table ns name w.store.namespaces w.store.tables ≡ some row
      → first_failed (json_trip_fields row.metadata) req.requirements ≡ none
      → updated decoder (json_trip_fields row.metadata) req.updates ≡ ok m
      → write decoder format row (ok m) c w ≡ (none, (c', w'))
      → Saves w w' c'.response
  save-Saves c c' w w' row m f q u h =
      let metadata = set "last-updated-ms" (int64 w.now) m in
      elim (Option-cases (get_string metadata "table-uuid")) [
        | inl e ↦ absurd (ground arith)
        | inr (uuid, e) ↦ elim (Option-cases (get_string metadata "location")) [
          | inl l ↦ absurd (ground arith)
          | inr (location, l) ↦ elim (Option-cases (format.first_eight uuid)) [
            | inl p ↦ absurd (ground arith)
            | inr (prefix, p) ↦ elim (Option-cases w.answers.update) [
              | inr (x, a) ↦ absurd (ground arith)
              | inl a ↦
                  after_save-Saves w w' row m
                    (format.metadata_path location
                      (add_one (get_metadata_version row.metadata_location)) w.now prefix)
                    c'.response f q u (ground arith) (ground arith)
            ]
          ]
        ]
      ]

  commit_tx-Effect :
      (c c' : Captured) (w w' : World E)
      → commit_tx decoder format ns name req c w ≡ (none, (c', w'))
      → Effect w c' w'
  unfolding commit_tx
  commit_tx-Effect c c' w w' h = elim (Option-cases w.answers.select) [
    | inr (e, s) ↦ absurd (ground arith)
    | inl s ↦ elim (Option-cases (find_table ns name w.store.namespaces w.store.tables)) [
      | inl f ↦ elim (Option-cases w.answers.exists) [
        | inr (e, x) ↦ inl (CommitError.namespace_not_found, ground arith, ground arith)
        | inl x ↦ elim (Bool-cases (namespace_exists ns w.store.namespaces)) [
          | inl there ↦ inl (CommitError.table_not_found, ground arith, ground arith)
          | inr gone ↦ inl (CommitError.namespace_not_found, ground arith, ground arith)
        ]
      ]
      | inr (row, f) ↦
          let read = json_trip_fields row.metadata in
          elim (Option-cases (first_failed read req.requirements)) [
            | inr (r, q) ↦ inl (CommitError.requirement_failed r.type, ground arith, ground arith)
            | inl q ↦ elim (Result-cases (updated decoder read req.updates)) [
              | inr (e, u) ↦ inl (CommitError.updates_failed e, ground arith, ground arith)
              | inl (m, u) ↦ inr (save-Saves c c' w w' row m f q u (ground arith))
            ]
          ]
    ]
  ]

module _ {Raw E : Type 0} (decoder : Decoder Raw) (format : Format) (pg_code : E → Option String)
    (cfg : LockConfig) (env : ℕ → Attempt (TxError E)) (others : ℕ → World E → World E)
    (ns : List String) (name : String) (req : CommitTableRequest Raw) (w : World E) where
  -- The commit was saved in one attempt, of the world that the others had left.
  abbrev Committed : World E → Option LoadTableResponse → Type 0
  Committed w' response =
      (k : ℕ) × (k < attempt_count cfg.max_retries)
      × Saves decoder format ns name req (world others (suc k) w) w' response

  abbrev Untouched : World E → Type 0
  Untouched w' = (k : ℕ) × (k ≤ attempt_count cfg.max_retries) × (w' ≡ world others k w)

  -- By the response: an answer with metadata has saved just that, an error of WithLock has changed
  -- nothing, and a refusal has changed nothing or has saved.
  abbrev pub IsAnswer : Response E × World E → Type 0
  IsAnswer (committed response, w') = Committed w' response
  IsAnswer (lock_conflict, w') = Untouched w'
  IsAnswer (internal_error e, w') = Untouched w'
  IsAnswer (bad_request, w') = Untouched w'
  IsAnswer (_, w') = Untouched w' ⊎ ((response : Option LoadTableResponse) × Committed w' response)

  module _ (w' : World E) (k : ℕ) (lt : k < attempt_count cfg.max_retries) where
    refusal :
        (e : CommitError) (response : Option LoadTableResponse)
        → Untouched w' ⊎ ((r : Option LoadTableResponse) × Committed w' r)
        → IsAnswer (answer_error e, w')
    refusal CommitError.namespace_not_found response h = h
    refusal CommitError.table_not_found response h = h
    refusal (CommitError.requirement_failed t) response h = h
    refusal (CommitError.updates_failed e) response h = h

    captured-IsAnswer :
        (response : Option LoadTableResponse) (commit_err : Option CommitError)
        → ((e : CommitError) × (commit_err ≡ some e) × (w' ≡ world others (suc k) w))
          ⊎ Saves decoder format ns name req (world others (suc k) w) w' response
        → IsAnswer (answer_captured response commit_err, w')
    captured-IsAnswer response none (inl (e, p, _)) = absurd (ground arith)
    captured-IsAnswer response none (inr s) = (k, lt, s)
    captured-IsAnswer response (some e) (inl (_, _, q)) =
        refusal e response (inl (suc k, omega arith, q))
    captured-IsAnswer response (some e) (inr s) = refusal e response (inr (response, (k, lt, s)))

  answer-IsAnswer :
      (r : Option (LockError (TxError E)) × (Captured × World E))
      → IsAtomic
          (tx_code pg_code)
          cfg
          env
          others
          (commit_tx decoder format ns name req)
          (attempt_count cfg.max_retries)
          w
          r
      → IsAnswer (answer r.0 r.1.0, r.1.1)
  answer-IsAnswer (some (exhausted last), (c, w')) h = h
  answer-IsAnswer (some (cancelled e), (c, w')) h = h
  answer-IsAnswer (some (failed e), (c, w')) h = h
  answer-IsAnswer (none, (c, w')) (k, lt, (before, done)) =
      captured-IsAnswer w' k lt c.response c.commit_err
        (commit_tx-Effect decoder format ns name req before c (world others (suc k) w) w' done)

  -- A commit is atomic. If CommitTable answers with metadata, then one attempt of at most MaxRetries + 1
  -- has found a row of the table in the namespace, every requirement held of the row's metadata as it was
  -- read, and the updates turned that into the metadata of the answer but for `last-updated-ms`. Then, since
  -- the other transactions, the rows with that row's id have the metadata and the location of the answer
  -- and remember the old location; every other row, every namespace and the older entries of the log are as
  -- they were, and the log has one entry more; and LoadTable, if its statement meets no error, answers with
  -- that metadata, as it is after JSON. If CommitTable answers with a lock conflict or an internal error, it
  -- has changed nothing. If it refuses the commit, it has changed nothing or has saved such a commit.
  pub commit_table-IsAnswer :
      IsAnswer (commit_table decoder format pg_code cfg env others ns name (some req) w)
  unfolding commit_table
  commit_table-IsAnswer =
      answer-IsAnswer (run_commit decoder format pg_code cfg env others ns name req w) (
        with_lock-IsAtomic (tx_code pg_code) cfg env others (commit_tx decoder format ns name req) _
          w)
