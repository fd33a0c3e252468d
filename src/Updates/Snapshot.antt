-- ===== src/Updates/Snapshot.antt =====
-- internal/api/handlers/updates/snapshot.go
use bingsan.Prelude.{
  String, Bool, false, not, Option, none, some, List, [], ◌∷◌, ◌&&◌, ◌==◌, if◌then◌else◌,
}
use bingsan.Prelude.Int.{ℤ, pos, leb_ℤ}
use bingsan.Go.Value.{
  Value, Items, Fields, nil, cons, end, field, string, int, int64, slice, object, as_object,
}
use bingsan.Go.Map.{get, set, delete}
use bingsan.Go.Slice.{append, any, filter}
use bingsan.Updates.Types.{
  AddSnapshot, SetSnapshotRef, RemoveSnapshots, RemoveSnapshotRef, Error, required, already_exists,
  does_not_exist, bad_ref_type, referenced_by, is_current,
}
use bingsan.Updates.Exec.{Exec, ◌>>=◌, ◌>>◌, done, gets, or_fail, fail, fail_if, modify}
use bingsan.Updates.Util.{
  get_int64, get_slice, get_map, get_string, set_if_not_nil, ensure_slice, ensure_map, or_nil,
  or_end, has_id, item_id, mem_id, keeps, raise_to,
}

abbrev log_entry : ℤ → ℤ → Fields
log_entry snapshot_id timestamp_ms =
    field "snapshot-id" (int64 snapshot_id) (field "timestamp-ms" (int64 timestamp_ms) end)

unfoldable pub apply_add_snapshot : AddSnapshot → Exec Error (Unit {0})
apply_add_snapshot u = do
  snapshot ← or_fail u.snapshot (required "snapshot")
  snapshot_id ← or_fail (get_int64 snapshot "snapshot-id") (required "snapshot-id")
  timestamp_ms ← or_fail (get_int64 snapshot "timestamp-ms") (required "timestamp-ms")
  snapshots ← ensure_slice "snapshots"
  fail_if (any (has_id "snapshot-id" snapshot_id) snapshots)
      (already_exists "snapshot-id" snapshot_id)
  modify (set "snapshots" (slice (append snapshots (object snapshot))))
  raise_to "last-sequence-number" int64 (get_int64 snapshot "sequence-number")
  snapshot_log ← ensure_slice "snapshot-log"
  modify (
      set "snapshot-log"
        (slice (append snapshot_log (object (log_entry snapshot_id timestamp_ms)))))

-- The reference object with its optional retention fields.
unfoldable pub new_ref : SetSnapshotRef → Fields
new_ref u =
    set_if_not_nil
      (set_if_not_nil
        (set_if_not_nil
          (field "type" (string u.ref_type) (field "snapshot-id" (int64 u.snapshot_id) end))
          "max-ref-age-ms" int64 u.max_ref_age_ms)
        "max-snapshot-age-ms" int64 u.max_snapshot_age_ms)
      "min-snapshots-to-keep" int u.min_snapshots_to_keep

unfoldable pub apply_set_snapshot_ref : SetSnapshotRef → Exec Error (Unit {0})
apply_set_snapshot_ref u = do
  fail_if (u.ref_name == "") (required "ref-name")
  fail_if (not (u.ref_type == "branch") && not (u.ref_type == "tag")) (bad_ref_type u.ref_type)
  snapshots ← gets (λ m. or_nil (get_slice m "snapshots"))
  fail_if (leb_ℤ (pos 0) u.snapshot_id && not (any (has_id "snapshot-id" u.snapshot_id) snapshots))
      (does_not_exist "snapshot-id" u.snapshot_id)
  refs ← ensure_map "refs"
  modify (set "refs" (object (set u.ref_name (object (new_ref u)) refs)))
  modify λ m.
      if u.ref_name == "main" && u.ref_type == "branch"
      then set "current-snapshot-id" (int64 u.snapshot_id) m
      else m

abbrev referenced : List ℤ → String → Option ℤ → Option (ℤ × String) → Option (ℤ × String)
referenced ids name none rest = rest
referenced ids name (some n) rest = if mem_id n ids then some (n, name) else rest

-- The first of the references, in the order of the loop, to a snapshot that is to be removed.
unfoldable pub find_referenced : List ℤ → Fields → Option (ℤ × String)
find_referenced ids end = none
find_referenced ids (field name ref refs) =
    referenced ids name (item_id "snapshot-id" ref) (find_referenced ids refs)

abbrev fail_referenced : Option (ℤ × String) → Exec Error (Unit {0})
fail_referenced none = done
fail_referenced (some (n, name)) = fail (referenced_by n name)

abbrev fail_current : List ℤ → Option ℤ → Exec Error (Unit {0})
fail_current ids none = done
fail_current ids (some n) = fail_if (mem_id n ids) (is_current n)

abbrev pub remove_snapshot_ids : List ℤ → Option Items → Exec Error (Unit {0})
remove_snapshot_ids [] snapshots = done
remove_snapshot_ids (n ∷ ids) none = done
remove_snapshot_ids (n ∷ ids) (some nil) = done
remove_snapshot_ids (n ∷ ids) (some (cons v items)) = do
  refs ← gets (λ m. or_end (get_map m "refs"))
  fail_referenced (find_referenced (n ∷ ids) refs)
  current ← gets (λ m. get_int64 m "current-snapshot-id")
  fail_current (n ∷ ids) current
  modify (set "snapshots" (slice (filter (keeps "snapshot-id" (n ∷ ids)) (cons v items))))

unfoldable pub apply_remove_snapshots : RemoveSnapshots → Exec Error (Unit {0})
apply_remove_snapshots u = do
  snapshots ← gets (λ m. get_slice m "snapshots")
  remove_snapshot_ids u.snapshot_ids snapshots

-- `refs[name].(map[string]any)` whose `type` is "branch"
abbrev type_is_branch : Option String → Bool
type_is_branch none = false
type_is_branch (some t) = t == "branch"

abbrev object_is_branch : Option Fields → Bool
object_is_branch none = false
object_is_branch (some ref) = type_is_branch (get_string ref "type")

unfoldable pub is_branch : Option Value → Bool
is_branch none = false
is_branch (some v) = object_is_branch (as_object v)

abbrev remove_ref : String → Option Fields → Exec Error (Unit {0})
remove_ref name none = done
remove_ref name (some refs) = do
  modify
      λ m. if is_branch (get name refs) && name == "main" then delete "current-snapshot-id" m else m
  modify (set "refs" (object (delete name refs)))

unfoldable pub apply_remove_snapshot_ref : RemoveSnapshotRef → Exec Error (Unit {0})
apply_remove_snapshot_ref u = do
  fail_if (u.ref_name == "") (required "ref-name")
  refs ← gets (λ m. get_map m "refs")
  remove_ref u.ref_name refs
