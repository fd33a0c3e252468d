-- ===== src/Transactions.antt =====
-- internal/api/handlers/transaction.go: CommitTransaction, over the rows and the locks of a commit to one
-- table. Which error each query of the function meets stands in the world beside the rows.
pub mod Unchanged
mod Tests
use bingsan.Prelude.{
  ℕ, zero, suc, String, Bool, true, false, Option, none, some, List, [], ◌∷◌, ◌⊎◌, inl, inr, ◌&&◌,
  ◌==◌, find, if◌then◌else◌,
}
use bingsan.Go.Value.{Fields, json_trip_fields}
use bingsan.Updates.Processor.{RawUpdate}
use bingsan.Db.Lock.{LockConfig, Attempt, LockError, exhausted, cancelled, failed, Body, with_lock}
use bingsan.Tables.Requirement.{Requirement, first_failed}
use bingsan.Tables.Commit.{NamespaceRow, TableRow, Store, same_name}

pub record TableChange (Raw : Type 0) : Type 0 where
  pub namespace : List String
  pub name : String
  pub requirements : List Requirement
  pub updates : List (RawUpdate Raw)

pub record CommitResult : Type 0 where
  pub namespace : List String
  pub name : String
  pub metadata_location : String
  pub metadata : Fields

-- What the two queries for change number i meet.
pub record TxWorld (E : Type 0) : Type 0 where
  pub store : Store
  pub namespace_error : ℕ → Option E
  pub table_error : ℕ → Option E

-- The errors of commitTableInTx, each a *fiber.Error.
pub data TxFailure (E : Type 0) : Type 0 where
  namespace_missing table_missing : TxFailure E
  get_namespace_failed get_table_failed : E → TxFailure E
  requirement_failed : String → TxFailure E

-- The variables that the function sets.
pub record TxCaptured (E : Type 0) : Type 0 where
  pub results : List CommitResult
  pub tx_err : Option (TxFailure E)

pub data TxResponse (E : Type 0) : Type 0 where
  bad_request changes_required lock_conflict : TxResponse E
  internal_error : LockError E → TxResponse E
  refused : TxFailure E → TxResponse E
  committed : List CommitResult → TxResponse E

abbrev pub Checked : Type 0 → Type 0
Checked E = CommitResult ⊎ TxFailure E

-- `txErr` is set where a change fails, and never reset.
abbrev pub capture :
    {E : Type 0} → TxCaptured E → List CommitResult × Option (TxFailure E) → TxCaptured E
capture c (results, none) = record c { results = results }
capture c (results, some f) = record { results = results; tx_err = some f }

-- A failure ends the loop; else the result stands before those of the later changes.
abbrev pub add_result :
    {E : Type 0}
    → Checked E
    → List CommitResult × Option (TxFailure E)
    → List CommitResult × Option (TxFailure E)
add_result (inr f) later = ([], some f)
add_result (inl r) (results, failure) = (r ∷ results, failure)

module _ {Raw E : Type 0} where
  -- The metadata is read from JSON, where every number is a float64. The updates of the change are not
  -- looked at.
  abbrev pub check_table : TableChange Raw → Option TableRow → Checked E
  check_table change none = inr table_missing
  check_table change (some t) =
      elim (first_failed (json_trip_fields t.metadata) change.requirements) [
        | some r ↦ inr (requirement_failed r.type)
        | none ↦ inl (record {
          namespace = change.namespace;
          name = change.name;
          metadata_location = t.metadata_location;
          metadata = json_trip_fields t.metadata;
        })
      ]

  abbrev pub in_found_namespace :
      Option E → TableChange Raw → Store → Option NamespaceRow → Checked E
  in_found_namespace table_error change store none = inr namespace_missing
  in_found_namespace (some e) change store (some n) = inr (get_table_failed e)
  in_found_namespace none change store (some n) =
      check_table change (find (λ t. t.namespace_id == n.id && t.name == change.name) store.tables)

  abbrev pub commit_table_in_tx : ℕ → TableChange Raw → TxWorld E → Checked E
  commit_table_in_tx i change w = elim (w.namespace_error i) [
    | some e ↦ inr (get_namespace_failed e)
    | none ↦
        in_found_namespace (w.table_error i) change w.store
          (find (λ n. same_name n.name change.namespace) w.store.namespaces)
  ]

  -- The loop over the changes: the results before the first failure, and that.
  unfoldable pub commit_all :
      ℕ → List (TableChange Raw) → TxWorld E → List CommitResult × Option (TxFailure E)
  commit_all i [] w = ([], none)
  commit_all i (change ∷ changes) w =
      let later = commit_all (suc i) changes w in add_result (commit_table_in_tx i change w) later

  -- The function in the transaction: it returns no error, for all of the failures are fiber's.
  abbrev pub run_changes : List (TableChange Raw) → Body E (TxCaptured E) (TxWorld E)
  run_changes changes c w = (none, (capture c (commit_all zero changes w), w))

abbrev pub tx_answer : {E : Type 0} → Option (LockError E) → TxCaptured E → TxResponse E
tx_answer (some (exhausted last)) c = lock_conflict
tx_answer (some (cancelled e)) c = internal_error (cancelled e)
tx_answer (some (failed e)) c = internal_error (failed e)
tx_answer none c = elim c.tx_err [ some f ↦ refused f | none ↦ committed c.results ]

module _ {Raw E : Type 0} (pg_code : E → Option String) (cfg : LockConfig) (env : ℕ → Attempt E)
    (others : ℕ → TxWorld E → TxWorld E) where
  abbrev pub run_transaction :
      List (TableChange Raw) → TxWorld E → Option (LockError E) × (TxCaptured E × TxWorld E)
  run_transaction changes w =
      with_lock pg_code cfg env others (run_changes changes)
        (record { results = []; tx_err = none }) w

  unfoldable pub commit_transaction :
      Option (List (TableChange Raw)) → TxWorld E → TxResponse E × TxWorld E
  commit_transaction none w = (bad_request, w)
  commit_transaction (some []) w = (changes_required, w)
  commit_transaction (some (change ∷ changes)) w =
      let (r, (c, after)) = run_transaction (change ∷ changes) w in (tx_answer r c, after)
