-- ===== src/Tables/Commit.antt =====
-- internal/api/handlers/table.go: CommitTable. The tables that its SQL reads and writes are lists of
-- rows; what PostgreSQL answers to a statement, and the clock, stand in the world beside them.
use bingsan.Prelude.{
  ℕ, String, Bool, true, false, Option, none, some, List, [], ◌∷◌, ◌++◌, ◌&&◌, ◌==◌, if◌then◌else◌,
}
use bingsan.Prelude.Int.{ℤ, pos, add_one}
use bingsan.Go.Value.{Fields, int64, json_trip_fields}
use bingsan.Go.Map.{set}
use bingsan.Updates.Exec.{Result, ok, err}
use bingsan.Updates.Util.{get_string}
use bingsan.Updates.Dispatch.{Decoder}
use bingsan.Updates.Processor.{RawUpdate, ApplyError, process}
use bingsan.Db.Lock.{LockConfig, Attempt, LockError, exhausted, cancelled, failed, Body, with_lock}
use bingsan.Tables.Requirement.{Requirement, first_failed}

pub record CommitTableRequest (Raw : Type 0) : Type 0 where
  pub requirements : List Requirement
  pub updates : List (RawUpdate Raw)

pub record LoadTableResponse : Type 0 where
  pub metadata_location : String
  pub metadata : Fields

pub record NamespaceRow : Type 0 where
  pub id : String
  pub name : List String

pub record TableRow : Type 0 where
  pub id : String
  pub namespace_id : String
  pub name : String
  pub metadata_location : String
  pub metadata : Fields
  pub previous_metadata_location : Option String

-- The rows of `namespaces`, `tables` and `commit_log`.
pub record Store : Type 0 where
  pub namespaces : List NamespaceRow
  pub tables : List TableRow
  pub commit_log : List (String × String)

-- The error, if there is one, that each statement of the transaction meets.
pub record Answers (E : Type 0) : Type 0 where
  pub select : Option E
  pub exists : Option E
  pub update : Option E

pub record World (E : Type 0) : Type 0 where
  pub store : Store
  pub now : ℤ
  pub answers : Answers E

abbrev pub same_name : List String → List String → Bool
same_name [] [] = true
same_name (x ∷ xs) (y ∷ ys) = x == y && same_name xs ys
same_name _ _ = false

-- `SELECT EXISTS(SELECT 1 FROM namespaces WHERE name = $1)`
unfoldable pub namespace_exists : List String → List NamespaceRow → Bool
namespace_exists name [] = false
namespace_exists name (n ∷ ns) =
    let rest = namespace_exists name ns in if same_name n.name name then true else rest

-- The namespace that a table is joined with.
unfoldable pub in_namespace : List String → String → List NamespaceRow → Bool
in_namespace name id [] = false
in_namespace name id (n ∷ ns) =
    let rest = in_namespace name id ns in if n.id == id && same_name n.name name then true else rest

-- `… FROM tables t JOIN namespaces n ON … WHERE n.name = $1 AND t.name = $2`
unfoldable pub find_table :
    List String → String → List NamespaceRow → List TableRow → Option TableRow
find_table ns name namespaces [] = none
find_table ns name namespaces (t ∷ ts) =
    let rest = find_table ns name namespaces ts in
    if t.name == name && in_namespace ns t.namespace_id namespaces then some t else rest

-- `UPDATE tables SET … WHERE id = $4`
unfoldable pub update_table : String → String → Fields → String → List TableRow → List TableRow
update_table id location metadata previous [] = []
update_table id location metadata previous (t ∷ ts) =
    let rest = update_table id location metadata previous ts in
    if t.id == id
    then record t {
      metadata_location = location;
      metadata = metadata;
      previous_metadata_location = some previous;
    }
      ∷ rest
    else t ∷ rest

-- `getMetadataVersion`, which does not look at the location.
abbrev pub get_metadata_version : String → ℤ
get_metadata_version location = pos 0

-- The errors that the function in the transaction returns, and those of begin, SET and commit,
-- `driver_failed`. The last is the panic of `[:8]` on a
-- short uuid, which rolls the transaction back too.
pub data TxError (E : Type 0) : Type 0 where
  select_failed : E → TxError E
  update_failed : E → TxError E
  driver_failed : E → TxError E
  missing_uuid missing_location short_uuid : TxError E

-- `commitErr`
pub data CommitError : Type 0 where
  namespace_not_found table_not_found : CommitError
  requirement_failed : String → CommitError
  updates_failed : ApplyError → CommitError

-- The variables that the function captures.
pub record Captured : Type 0 where
  pub response : Option LoadTableResponse
  pub commit_err : Option CommitError

-- fmt.Sprintf on the parts of a location, and the first eight bytes of a uuid, if it has them.
pub record Format : Type 0 where
  pub metadata_path : String → ℤ → ℤ → String → String
  pub first_eight : String → Option String

-- `if len(req.Updates) > 0`
unfoldable pub updated :
    {Raw : Type 0} → Decoder Raw → Fields → List (RawUpdate Raw) → Result ApplyError Fields
updated decoder metadata [] = ok metadata
updated decoder metadata (u ∷ us) = process decoder metadata (u ∷ us)

module _ {Raw E : Type 0} (decoder : Decoder Raw) (format : Format) where
  abbrev refuse : CommitError → Captured → World E → Option (TxError E) × (Captured × World E)
  refuse e c w = (none, (record c { commit_err = some e }, w))

  -- The row, the log and the response.
  abbrev save :
      TableRow → Fields → String → Captured → World E → Option (TxError E) × (Captured × World E)
  save row metadata location c w = elim w.answers.update [
    | some e ↦ (some (update_failed e), (c, w))
    | none ↦ (
      none,
      (
        record c { response = some (record { metadata_location = location; metadata = metadata }) },
        record w {
          store = record w.store {
            tables = update_table row.id location metadata row.metadata_location w.store.tables;
            commit_log = w.store.commit_log ++ (row.id, location) ∷ [];
          };
        },
      ),
    )
  ]

  abbrev name_and_save :
      Option String
      → Option String
      → TableRow
      → Fields
      → Captured
      → World E
      → Option (TxError E) × (Captured × World E)
  name_and_save none location row metadata c w = (some missing_uuid, (c, w))
  name_and_save (some uuid) none row metadata c w = (some missing_location, (c, w))
  name_and_save (some uuid) (some location) row metadata c w = elim (format.first_eight uuid) [
    | none ↦ (some short_uuid, (c, w))
    | some prefix ↦
        save row metadata
          (format.metadata_path location (add_one (get_metadata_version row.metadata_location))
            w.now prefix)
          c w
  ]

  -- From `metadata["last-updated-ms"] = now` on.
  abbrev pub write :
      TableRow
      → Result ApplyError Fields
      → Captured
      → World E
      → Option (TxError E) × (Captured × World E)
  write row (err e) c w = refuse (updates_failed e) c w
  write row (ok m) c w =
      let metadata = set "last-updated-ms" (int64 w.now) m in
      name_and_save (get_string metadata "table-uuid") (get_string metadata "location") row metadata
        c w

  abbrev change :
      CommitTableRequest Raw
      → TableRow
      → Fields
      → Option Requirement
      → Captured
      → World E
      → Option (TxError E) × (Captured × World E)
  change req row metadata (some r) c w = refuse (requirement_failed r.type) c w
  change req row metadata none c w = write row (updated decoder metadata req.updates) c w

  abbrev missing : List String → Captured → World E → Option (TxError E) × (Captured × World E)
  missing ns c w = elim w.answers.exists [
    | some e ↦ refuse namespace_not_found c w
    | none ↦
        refuse
          (if namespace_exists ns w.store.namespaces then table_not_found else namespace_not_found)
          c w
  ]

  abbrev on_row :
      List String
      → CommitTableRequest Raw
      → Option TableRow
      → Captured
      → World E
      → Option (TxError E) × (Captured × World E)
  on_row ns req none c w = missing ns c w
  on_row ns req (some row) c w =
      let metadata = json_trip_fields row.metadata in
      change req row metadata (first_failed metadata req.requirements) c w

  -- The function that CommitTable runs in a transaction.
  unfoldable pub commit_tx :
      List String → String → CommitTableRequest Raw → Body (TxError E) Captured (World E)
  commit_tx ns name req c w = elim w.answers.select [
    | some e ↦ (some (select_failed e), (c, w))
    | none ↦ on_row ns req (find_table ns name w.store.namespaces w.store.tables) c w
  ]

-- errors.As finds the PgError in an error that wraps one.
abbrev pub tx_code : {E : Type 0} → (E → Option String) → TxError E → Option String
tx_code pg_code (select_failed e) = pg_code e
tx_code pg_code (update_failed e) = pg_code e
tx_code pg_code (driver_failed e) = pg_code e
tx_code pg_code _ = none

-- The answers of CommitTable; a response that was never set is empty.
pub data Response (E : Type 0) : Type 0 where
  bad_request : Response E
  lock_conflict : Response E
  internal_error : LockError (TxError E) → Response E
  namespace_missing : Response E
  table_missing : Response E
  requirement_conflict : String → Response E
  bad_update : ApplyError → Response E
  committed : Option LoadTableResponse → Response E

abbrev pub answer_error : {E : Type 0} → CommitError → Response E
answer_error namespace_not_found = namespace_missing
answer_error table_not_found = table_missing
answer_error (requirement_failed t) = requirement_conflict t
answer_error (updates_failed e) = bad_update e

abbrev pub answer_captured :
    {E : Type 0} → Option LoadTableResponse → Option CommitError → Response E
answer_captured response (some e) = answer_error e
answer_captured response none = committed response

-- The end of CommitTable, after WithLock.
abbrev pub answer : {E : Type 0} → Option (LockError (TxError E)) → Captured → Response E
answer (some (exhausted last)) c = lock_conflict
answer (some (cancelled e)) c = internal_error (cancelled e)
answer (some (failed e)) c = internal_error (failed e)
answer none c = answer_captured c.response c.commit_err

module _ {Raw E : Type 0} (decoder : Decoder Raw) (format : Format) (pg_code : E → Option String)
    (cfg : LockConfig) (env : ℕ → Attempt (TxError E)) (others : ℕ → World E → World E) where
  abbrev start : Captured
  start = record { response = none; commit_err = none }

  -- The transactions of a request, if its body could be parsed.
  abbrev pub run_commit :
      List String
      → String
      → CommitTableRequest Raw
      → World E
      → Option (LockError (TxError E)) × (Captured × World E)
  run_commit ns name req w =
      with_lock (tx_code pg_code) cfg env others (commit_tx decoder format ns name req) start w

  unfoldable pub commit_table :
      List String → String → Option (CommitTableRequest Raw) → World E → Response E × World E
  commit_table ns name none w = (bad_request, w)
  commit_table ns name (some req) w =
      let (r, (c, w')) = run_commit ns name req w in (answer r c, w')
