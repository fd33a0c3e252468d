-- ===== src/Updates/Integrity/Dangling.antt =====
-- The ids by which the metadata names its own schemas, specs, orders and snapshots.
use bingsan.Prelude.{
  String, ◌≡◌, refl, subst, false, none, some, List, inl, inr, arith, Bool-cases, ◌==◌, ◌&&◌,
}
use bingsan.Prelude.Int.{ℤ, pos, ◌≤ℤ◌}
use bingsan.Go.Value.{Value, Fields, object}
use bingsan.Go.Map.{get, get-set, get-delete}
use bingsan.Go.Slice.{filter, any-filter}
use bingsan.Updates.Types.{SetSnapshotRef, RemoveSnapshotRef}
use bingsan.Updates.Util.{get_int64, has_id, item_id, keeps, mem_id}
use bingsan.Updates.Snapshot.{new_ref, is_branch}
use bingsan.Updates.Dispatch.{Update, Decoder, handle}
use bingsan.Updates.Frame.{handle-frame}
use bingsan.Updates.Processor.{RawUpdate, apply}
use bingsan.Updates.Processor.Induction.{apply-keeps}
use bingsan.Updates.Integrity.Slices.{
  items_at, Expires, apply_add_snapshot-Grows, apply_remove_snapshots-Expires,
}
use bingsan.Updates.Integrity.Pointers.{
  Exists, Grows-any, keeps_of_has_id, current_schema_exists, default_spec_exists,
  default_order_exists,
}
use bingsan.Updates.Integrity.Refs.{
  HasSnapshot, refs_of, SetsRef, RemovesRef, item_id-new_ref, find_referenced-none,
  apply_set_snapshot_ref-SetsRef, apply_remove_snapshot_ref-RemovesRef,
}

-- Ids below zero stand for no snapshot.
abbrev pub RefsExist : Fields → Type 0
RefsExist m =
    (name : String) (ref : Value) (n : ℤ)
    → get name (refs_of m) ≡ some ref
    → item_id "snapshot-id" ref ≡ some n
    → pos 0 ≤ℤ n
    → HasSnapshot n m

abbrev pub CurrentExists : Fields → Type 0
CurrentExists m =
    (n : ℤ) → get_int64 m "current-snapshot-id" ≡ some n → pos 0 ≤ℤ n → HasSnapshot n m

-- The two ways to name a snapshot.
abbrev Snapshots : Fields → Type 0
Snapshots m = RefsExist m × CurrentExists m

-- The references stay, and every snapshot that they may name stays.
Snapshots-keep :
    (m m' : Fields)
    → get "refs" m' ≡ get "refs" m
    → get "current-snapshot-id" m' ≡ get "current-snapshot-id" m
    → ((n : ℤ) → HasSnapshot n m → HasSnapshot n m')
    → Snapshots m
    → Snapshots m'
Snapshots-keep m m' r c keep h = (
  (λ name ref n at_name e le. keep n (h.0 name ref n (rw r at at_name) e le)),
  λ n e le. keep n (h.1 n (rw c at e) le),
)

Expires-Snapshots : (ids : List ℤ) (m m' : Fields) → Expires ids m m' → Snapshots m → Snapshots m'
Expires-Snapshots ids m m' (inl same) h = rw same h
Expires-Snapshots ids m m' (inr (f, c, e)) h = (
  (λ name ref n at_name en le.
      keep n (find_referenced-none ids (refs_of m) name ref n f (rw at_refs at at_name) en)
        (h.0 name ref n (rw at_refs at at_name) en le)),
  λ n en le. keep n (c n (rw at_current at en)) (h.1 n (rw at_current at en) le),
)
  where
    at_refs : get "refs" m' ≡ get "refs" m
    at_refs = rw e (simp get-set)

    at_current : get "current-snapshot-id" m' ≡ get "current-snapshot-id" m
    at_current = rw e (simp get-set)

    at_snapshots :
        items_at "snapshots" m' ≡ filter (keeps "snapshot-id" ids) (items_at "snapshots" m)
    at_snapshots = rw e (simp get-set)

    keep : (n : ℤ) → mem_id n ids ≡ false → HasSnapshot n m → HasSnapshot n m'
    keep n miss there =
        rw
          (
            at_snapshots,
            any-filter (has_id "snapshot-id" n) (keeps "snapshot-id" ids) (items_at "snapshots" m)
                (λ v. keeps_of_has_id "snapshot-id" n ids v miss),
          )
          there

sets-Snapshots :
    (u : SetSnapshotRef) (m m' : Fields)
    → get "snapshots" m' ≡ get "snapshots" m
    → SetsRef u m m'
    → Snapshots m
    → Snapshots m'
sets-Snapshots u m m' s (inl same) h = rw same h
sets-Snapshots u m m' s (inr (exists, r, c)) h = rw s (in_refs, in_current)
  where
    named : (n : ℤ) → u.snapshot_id ≡ n → pos 0 ≤ℤ n → HasSnapshot n m
    named n same le = subst (λ k. HasSnapshot k m) same (exists (rw same le))

    in_refs :
        (name : String) (ref : Value) (n : ℤ)
        → get name (refs_of m') ≡ some ref
        → item_id "snapshot-id" ref ≡ some n
        → pos 0 ≤ℤ n
        → HasSnapshot n m
    in_refs name ref n at_name e le = elim (Bool-cases (u.ref_name == name)) [
      | inr other ↦ h.0 name ref n (rw (r, get-set, other) at at_name) e le
      | inl here ↦
          let is_new : some (object (new_ref u)) ≡ some ref = rw (r, get-set, here) at at_name in
          named n (cc (item_id-new_ref u, is_new, e)) le
    ]

    in_current :
        (n : ℤ) → get_int64 m' "current-snapshot-id" ≡ some n → pos 0 ≤ℤ n → HasSnapshot n m
    in_current n e le = elim (Bool-cases (u.ref_name == "main" && u.ref_type == "branch")) [
      | inr other ↦ h.1 n (rw (c, other) at e) le
      | inl main ↦
          let is_new : some u.snapshot_id ≡ some n = rw (c, main) at e in named n (cc is_new) le
    ]

removes-Snapshots :
    (u : RemoveSnapshotRef) (m m' : Fields)
    → get "snapshots" m' ≡ get "snapshots" m
    → RemovesRef u m m'
    → Snapshots m
    → Snapshots m'
removes-Snapshots u m m' s (inl same) h = rw same h
removes-Snapshots u m m' s (inr (r, c)) h = rw s (in_refs, in_current)
  where
    in_refs :
        (name : String) (ref : Value) (n : ℤ)
        → get name (refs_of m') ≡ some ref
        → item_id "snapshot-id" ref ≡ some n
        → pos 0 ≤ℤ n
        → HasSnapshot n m
    in_refs name ref n at_name e le = elim (Bool-cases (u.ref_name == name)) [
      | inr other ↦ h.0 name ref n (rw (r, get-delete, other) at at_name) e le
      | inl here ↦
          let gone : none ≡ some ref = rw (r, get-delete, here) at at_name in absurd (ground arith)
    ]

    in_current :
        (n : ℤ) → get_int64 m' "current-snapshot-id" ≡ some n → pos 0 ≤ℤ n → HasSnapshot n m
    in_current n e le =
        elim (Bool-cases (is_branch (get u.ref_name (refs_of m)) && u.ref_name == "main")) [
          | inr other ↦ h.1 n (rw (c, other) at e) le
          | inl main ↦ let gone : none ≡ some n = rw (c, main) at e in absurd (ground arith)
        ]

Snapshots-exist : (u : Update) (m : Fields) → Snapshots m → Snapshots (handle u m).1
unfolding handle
Snapshots-exist (Update.add_snapshot u) m h =
    Snapshots-keep m _ (handle-frame (Update.add_snapshot u) m "refs" refl)
      (handle-frame (Update.add_snapshot u) m "current-snapshot-id" refl)
      (λ n. Grows-any "snapshot-id" n _ _ (apply_add_snapshot-Grows u m)) h
Snapshots-exist (Update.remove_snapshots u) m h =
    Expires-Snapshots u.snapshot_ids m _ (apply_remove_snapshots-Expires u m) h
Snapshots-exist (Update.set_snapshot_ref u) m h =
    sets-Snapshots u m _ (handle-frame (Update.set_snapshot_ref u) m "snapshots" refl)
      (apply_set_snapshot_ref-SetsRef u m) h
Snapshots-exist (Update.remove_snapshot_ref u) m h =
    removes-Snapshots u m _ (handle-frame (Update.remove_snapshot_ref u) m "snapshots" refl)
      (apply_remove_snapshot_ref-RemovesRef u m) h
Snapshots-exist u m h =
    Snapshots-keep m _ (handle-frame u m "refs" refl) (handle-frame u m "current-snapshot-id" refl)
      (λ n there. rw (handle-frame u m "snapshots" refl) there) h

-- Every id by which the metadata names a part of itself.
pub record HasNoDangling (m : Fields) : Type 0 where
  pub current_schema : Exists "schemas" "schema-id" "current-schema-id" m
  pub default_spec : Exists "partition-specs" "spec-id" "default-spec-id" m
  pub default_order : Exists "sort-orders" "order-id" "default-sort-order-id" m
  pub refs : RefsExist m
  pub current_snapshot : CurrentExists m

handle-HasNoDangling : (u : Update) (m : Fields) → HasNoDangling m → HasNoDangling (handle u m).1
handle-HasNoDangling u m h = record {
  current_schema = current_schema_exists u m h.current_schema;
  default_spec = default_spec_exists u m h.default_spec;
  default_order = default_order_exists u m h.default_order;
  refs = (Snapshots-exist u m (h.refs, h.current_snapshot)).0;
  current_snapshot = (Snapshots-exist u m (h.refs, h.current_snapshot)).1;
}

-- Whatever a commit asks for, and also where it fails half way: if the current schema, the default
-- spec and order, and the snapshots (with ids from zero) of the references and of
-- `current-snapshot-id` exist in the metadata, then they do so after `Apply`.
pub apply-HasNoDangling :
    {Raw : Type 0} (decoder : Decoder Raw) (updates : List (RawUpdate Raw)) (m : Fields)
    → HasNoDangling m
    → HasNoDangling (apply decoder updates m).1
apply-HasNoDangling = apply-keeps HasNoDangling handle-HasNoDangling
