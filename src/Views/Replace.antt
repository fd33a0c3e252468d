-- ===== src/Views/Replace.antt =====
-- internal/api/handlers/view.go: ReplaceView.
use bingsan.Prelude.{ℕ, String, Option, none, some, List, [], ◌∷◌, ◌==◌, find, if◌then◌else◌}
use bingsan.Prelude.Int.{add_one}
use bingsan.Go.Value.{Fields, json_trip_fields}
use bingsan.Updates.Util.{get_string}
use bingsan.Db.Lock.{LockConfig, Attempt, LockError, exhausted, cancelled, failed, Body, with_lock}
use bingsan.Tables.Commit.{
  Format, get_metadata_version, TxError, select_failed, update_failed, missing_uuid,
  missing_location, short_uuid, tx_code,
}
use bingsan.Views.{
  ViewRow, ViewWorld, LoadViewResponse, ViewResponse, ViewError, is_view, which_missing,
  answer_missing, bad_request, lock_conflict, internal_error, loaded,
}

-- `UPDATE views SET metadata_location, metadata WHERE id`
unfoldable pub update_view : String → String → Fields → List ViewRow → List ViewRow
update_view id location metadata [] = []
update_view id location metadata (v ∷ vs) =
    let rest = update_view id location metadata vs in
    (if v.id == id then record v { metadata_location = location; metadata = metadata } else v)
    ∷ rest

-- The variables that the function captures.
pub record ViewCaptured : Type 0 where
  pub response : Option LoadViewResponse
  pub update_err : Option ViewError

module _ {E : Type 0} (format : Format) where
  -- The first argument is the error of the `UPDATE`.
  abbrev pub save_view :
      Option E
      → ViewRow
      → Fields
      → String
      → ViewCaptured
      → ViewWorld E
      → Option (TxError E) × (ViewCaptured × ViewWorld E)
  save_view (some e) row metadata location c w = (some (update_failed e), (c, w))
  save_view none row metadata location c w = (
    none,
    (
      record c { response = some (record { metadata_location = location; metadata = metadata }) },
      record w {
        store = record w.store { views = update_view row.id location metadata w.store.views };
      },
    ),
  )

  abbrev pub save_at :
      Option String
      → String
      → ViewRow
      → Fields
      → ViewCaptured
      → ViewWorld E
      → Option (TxError E) × (ViewCaptured × ViewWorld E)
  save_at none location row metadata c w = (some short_uuid, (c, w))
  save_at (some prefix) location row metadata c w =
      save_view w.answers.update row metadata
        (format.metadata_path location (add_one (get_metadata_version row.metadata_location)) w.now
          prefix)
        c w

  abbrev pub name_and_save_view :
      Option String
      → Option String
      → ViewRow
      → Fields
      → ViewCaptured
      → ViewWorld E
      → Option (TxError E) × (ViewCaptured × ViewWorld E)
  name_and_save_view none location row metadata c w = (some missing_uuid, (c, w))
  name_and_save_view (some uuid) none row metadata c w = (some missing_location, (c, w))
  name_and_save_view (some uuid) (some location) row metadata c w =
      save_at (format.first_eight uuid) location row metadata c w

  -- The metadata is written as it was read.
  abbrev pub replace_row :
      List String
      → Option ViewRow
      → ViewCaptured
      → ViewWorld E
      → Option (TxError E) × (ViewCaptured × ViewWorld E)
  replace_row ns none c w = (none, (record c { update_err = some (which_missing ns w) }, w))
  replace_row ns (some row) c w =
      let metadata = json_trip_fields row.metadata in
      name_and_save_view (get_string metadata "view-uuid") (get_string metadata "location") row
        metadata c w

  abbrev pub replace_selected :
      Option E
      → List String
      → String
      → ViewCaptured
      → ViewWorld E
      → Option (TxError E) × (ViewCaptured × ViewWorld E)
  replace_selected (some e) ns name c w = (some (select_failed e), (c, w))
  replace_selected none ns name c w =
      replace_row ns (find (is_view ns name w.store.namespaces) w.store.views) c w

  -- The function that ReplaceView runs in a transaction.
  unfoldable pub replace_tx : List String → String → Body (TxError E) ViewCaptured (ViewWorld E)
  replace_tx ns name c w = replace_selected w.answers.select ns name c w

abbrev pub answer_update : {E : Type 0} → ViewCaptured → Option ViewError → ViewResponse E
answer_update c (some e) = answer_missing e
answer_update c none = loaded c.response

abbrev pub answer_view :
    {E : Type 0} → Option (LockError (TxError E)) → ViewCaptured → ViewResponse E
answer_view (some (exhausted last)) c = lock_conflict
answer_view (some (cancelled e)) c = internal_error (cancelled e)
answer_view (some (failed e)) c = internal_error (failed e)
answer_view none c = answer_update c c.update_err

module _ {E : Type 0} (format : Format) (pg_code : E → Option String) (cfg : LockConfig)
    (env : ℕ → Attempt (TxError E)) (others : ℕ → ViewWorld E → ViewWorld E) where
  -- Nothing of the body is read, once it could be parsed.
  unfoldable pub replace_view :
      {Request : Type 0}
      → List String
      → String
      → Option Request
      → ViewWorld E
      → ViewResponse E × ViewWorld E
  replace_view ns name none w = (bad_request, w)
  replace_view ns name (some req) w =
      let (r, (c, after)) =
        with_lock (tx_code pg_code) cfg env others (replace_tx format ns name)
          (record { response = none; update_err = none }) w in
      (answer_view r c, after)
