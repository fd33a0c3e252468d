-- ===== src/Updates/Integrity/Sync.antt =====
-- The branch `main` and `current-snapshot-id`, which snapshot.go writes in one call.
use bingsan.Prelude.{◌≡◌, refl, true, some, List, inl, inr, arith, ◌==◌, eq_iff}
use bingsan.Prelude.Int.{ℤ}
use bingsan.Go.Value.{Value, Fields, object}
use bingsan.Go.Map.{get, get-set, get-delete}
use bingsan.Updates.Types.{SetSnapshotRef, RemoveSnapshotRef}
use bingsan.Updates.Util.{get_int64, item_id}
use bingsan.Updates.Snapshot.{new_ref, is_branch}
use bingsan.Updates.Dispatch.{Update, Decoder, handle}
use bingsan.Updates.Frame.{handle-frame}
use bingsan.Updates.Processor.{RawUpdate, apply}
use bingsan.Updates.Processor.Induction.{apply-keeps}
use bingsan.Updates.Integrity.Refs.{
  refs_of, SetsRef, RemovesRef, item_id-new_ref, apply_set_snapshot_ref-SetsRef,
  apply_remove_snapshot_ref-RemovesRef,
}

-- Where `main` is a branch at a snapshot, `current-snapshot-id` is that snapshot.
abbrev pub IsInSync : Fields → Type 0
IsInSync m =
    (ref : Value) (n : ℤ)
    → get "main" (refs_of m) ≡ some ref
    → is_branch (some ref) ≡ true
    → item_id "snapshot-id" ref ≡ some n
    → get_int64 m "current-snapshot-id" ≡ some n

is_branch-new_ref :
    (u : SetSnapshotRef) → is_branch (some (object (new_ref u))) ≡ (u.ref_type == "branch")
unfolding is_branch new_ref get
is_branch-new_ref u = grind (arith, get-set)

sets-IsInSync : (u : SetSnapshotRef) (m m' : Fields) → SetsRef u m m' → IsInSync m → IsInSync m'
sets-IsInSync u m m' (inl same) h ref n at_main branch e =
    rw same (h ref n (rw same at at_main) branch e)
sets-IsInSync u m m' (inr (_, refs, current)) h ref n at_main branch e =
    grind (arith, get-set, eq_iff, is_branch-new_ref u, item_id-new_ref u, h ref n)

removes-IsInSync :
    (u : RemoveSnapshotRef) (m m' : Fields) → RemovesRef u m m' → IsInSync m → IsInSync m'
removes-IsInSync u m m' (inl same) h ref n at_main branch e =
    rw same (h ref n (rw same at at_main) branch e)
removes-IsInSync u m m' (inr (refs, current)) h ref n at_main branch e =
    grind (arith, get-delete, eq_iff, h ref n)

same-IsInSync :
    (m m' : Fields)
    → get "refs" m' ≡ get "refs" m
    → get "current-snapshot-id" m' ≡ get "current-snapshot-id" m
    → IsInSync m
    → IsInSync m'
same-IsInSync m m' r c h ref n at_main branch e = rw c (h ref n (rw r at at_main) branch e)

handle-IsInSync : (u : Update) (m : Fields) → IsInSync m → IsInSync (handle u m).1
unfolding handle
handle-IsInSync (Update.set_snapshot_ref u) m h =
    sets-IsInSync u m _ (apply_set_snapshot_ref-SetsRef u m) h
handle-IsInSync (Update.remove_snapshot_ref u) m h =
    removes-IsInSync u m _ (apply_remove_snapshot_ref-RemovesRef u m) h
handle-IsInSync u m h =
    same-IsInSync m _ (handle-frame u m "refs" refl) (handle-frame u m "current-snapshot-id" refl) h

-- Whatever a commit asks for, and also where it fails half way: if `current-snapshot-id` is the
-- snapshot of `main` wherever `main` is a branch at a snapshot, then so it is after `Apply`.
pub apply-IsInSync :
    {Raw : Type 0} (decoder : Decoder Raw) (updates : List (RawUpdate Raw)) (m : Fields)
    → IsInSync m
    → IsInSync (apply decoder updates m).1
apply-IsInSync = apply-keeps IsInSync handle-IsInSync
