-- ===== src/Views.antt =====
-- internal/api/handlers/view.go: LoadView, and what CreateView and ReplaceView work on: the rows of
-- namespaces and of views. What PostgreSQL answers to a statement, and the clock, stand in the world beside them.
pub mod Create
pub mod Replace
pub mod Replaced
mod Tests
use Prim.Native.String
use bingsan.Prelude.{
  ℕ, String, Bool, true, false, Option, none, some, List, [], ◌∷◌, ◌++◌, ◌&&◌, ◌==◌, find, some_of,
  if◌then◌else◌,
}
use bingsan.Prelude.Int.{ℤ, pos, add_one}
use bingsan.Go.Value.{
  Value, Fields, int, int64, string, slice, object, nil, cons, end, field, json_trip_fields,
}
use bingsan.Updates.Exec.{Result, ok, err}
use bingsan.Updates.Util.{get_string}
use bingsan.Db.Lock.{LockConfig, Attempt, LockError, exhausted, cancelled, failed, Body, with_lock}
use bingsan.Tables.Commit.{
  LoadTableResponse, NamespaceRow, Answers, Format, namespace_exists, in_namespace,
  get_metadata_version, TxError, select_failed, update_failed, missing_uuid, missing_location,
  short_uuid, tx_code,
}
use bingsan.Tables.Create.{
  CreateError, invalid_body, name_required, schema_required, namespace_not_found, already_exists,
  internal, or_location, properties_value, one_item, named, or_null,
}

pub record ViewRow : Type 0 where
  pub id : String
  pub namespace_id : String
  pub name : String
  pub metadata_location : String
  pub metadata : Fields

pub record ViewStore : Type 0 where
  pub namespaces : List NamespaceRow
  pub views : List ViewRow

pub record ViewWorld (E : Type 0) : Type 0 where
  pub store : ViewStore
  pub now : ℤ
  pub answers : Answers E

-- What a response holds, as LoadViewResponse does.
abbrev pub LoadViewResponse : Type 0
LoadViewResponse = LoadTableResponse

-- The join of the views with the namespaces.
abbrev pub is_view : List String → String → List NamespaceRow → ViewRow → Bool
is_view ns name namespaces v = v.name == name && in_namespace ns v.namespace_id namespaces

-- The answers of LoadView and of ReplaceView.
pub data ViewResponse (E : Type 0) : Type 0 where
  bad_request lock_conflict namespace_missing view_missing : ViewResponse E
  query_failed : E → ViewResponse E
  internal_error : LockError (TxError E) → ViewResponse E
  loaded : Option LoadViewResponse → ViewResponse E

-- `viewErr`
pub data ViewError : Type 0 where
  no_namespace no_view : ViewError

module _ {E : Type 0} where
  -- Which of the two is missing; an error of the statement counts as no namespace.
  abbrev pub which_missing : List String → ViewWorld E → ViewError
  which_missing ns w = elim w.answers.exists [
    | some e ↦ no_namespace
    | none ↦ if namespace_exists ns w.store.namespaces then no_view else no_namespace
  ]

  abbrev pub answer_missing : ViewError → ViewResponse E
  answer_missing no_namespace = namespace_missing
  answer_missing no_view = view_missing

  abbrev pub answer_row : List String → Option ViewRow → ViewWorld E → ViewResponse E
  answer_row ns none w = answer_missing (which_missing ns w)
  answer_row ns (some v) w = loaded (
      some (record {
        metadata_location = v.metadata_location;
        metadata = json_trip_fields v.metadata;
      }))

  unfoldable pub load_view : List String → String → ViewWorld E → ViewResponse E
  load_view ns name w = elim w.answers.select [
    | some e ↦ query_failed e
    | none ↦ answer_row ns (find (is_view ns name w.store.namespaces) w.store.views) w
  ]
