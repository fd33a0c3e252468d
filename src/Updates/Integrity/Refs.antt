-- ===== src/Updates/Integrity/Refs.antt =====
-- What the handlers of snapshot.go do to the references and to `current-snapshot-id`.
use bingsan.Prelude.{
  String, ◌≡◌, true, false, not, none, some, List, ◌⊎◌, ◌&&◌, inl, inr, arith, Bool-cases,
  Option-cases, ◌==◌, if◌then◌else◌,
}
use bingsan.Prelude.Int.{ℤ, pos, ◌≤ℤ◌, leb_ℤ}
use bingsan.Go.Value.{Value, Fields, end, field, int64, object}
use bingsan.Go.Map.{get, set, delete, get-set}
use bingsan.Go.Slice.{any}
use bingsan.Updates.Types.{SetSnapshotRef, RemoveSnapshotRef}
use bingsan.Updates.Util.{get_map, or_end, has_id, item_id, mem_id}
use bingsan.Updates.Util.Laws.{write_laws}
use bingsan.Updates.Snapshot.{
  new_ref, find_referenced, is_branch, apply_set_snapshot_ref, apply_remove_snapshot_ref,
}
use bingsan.Updates.Integrity.Slices.{items_at}

-- A snapshot with the id is in the metadata.
abbrev pub HasSnapshot : ℤ → Fields → Type 0
HasSnapshot n m = any (has_id "snapshot-id" n) (items_at "snapshots" m) ≡ true

abbrev pub refs_of : Fields → Fields
refs_of m = or_end (get_map m "refs")

pub item_id-new_ref :
    (u : SetSnapshotRef) → item_id "snapshot-id" (object (new_ref u)) ≡ some u.snapshot_id
unfolding new_ref item_id get
item_id-new_ref u = grind (arith, get-set)

pub find_referenced-none :
    (ids : List ℤ) (refs : Fields) (name : String) (ref : Value) (n : ℤ)
    → find_referenced ids refs ≡ none
    → get name refs ≡ some ref
    → item_id "snapshot-id" ref ≡ some n
    → mem_id n ids ≡ false
unfolding find_referenced get
find_referenced-none ids end name ref n f g e = ground arith
find_referenced-none ids (field k v refs) name ref n f g e =
    ground (arith, find_referenced-none ids refs name ref n)

-- What `set-snapshot-ref` has done: nothing, or it has set the reference, whose snapshot exists if
-- its id is not negative, and `current-snapshot-id` follows the branch `main`.
abbrev pub SetsRef : SetSnapshotRef → Fields → Fields → Type 0
SetsRef u m m' =
    (m' ≡ m)
    ⊎ ((pos 0 ≤ℤ u.snapshot_id → HasSnapshot u.snapshot_id m)
        × (refs_of m' ≡ set u.ref_name (object (new_ref u)) (refs_of m))
        × (get "current-snapshot-id" m' ≡ (
            if u.ref_name == "main" && u.ref_type == "branch"
            then some (int64 u.snapshot_id)
            else get "current-snapshot-id" m)))

pub apply_set_snapshot_ref-SetsRef :
    (u : SetSnapshotRef) (m : Fields) → SetsRef u m (apply_set_snapshot_ref u m).1
unfolding apply_set_snapshot_ref
apply_set_snapshot_ref-SetsRef u m = elim (Bool-cases (u.ref_name == "")) [
  | inl e ↦ inl (ground arith)
  | inr e ↦ elim (Bool-cases (not (u.ref_type == "branch") && not (u.ref_type == "tag"))) [
    | inl t ↦ inl (ground arith)
    | inr t ↦
        elim (Bool-cases (
          leb_ℤ (pos 0) u.snapshot_id
          && not (any (has_id "snapshot-id" u.snapshot_id) (items_at "snapshots" m)))) [
            | inl s ↦ inl (ground arith)
            | inr s ↦
                inr ((λ nonneg. ground arith), grind (arith, write_laws), grind (arith, write_laws))
          ]
  ]
]

-- What `remove-snapshot-ref` has done: nothing, or it has removed the reference, and
-- `current-snapshot-id` with it if that was the branch `main`.
abbrev pub RemovesRef : RemoveSnapshotRef → Fields → Fields → Type 0
RemovesRef u m m' =
    (m' ≡ m)
    ⊎ ((refs_of m' ≡ delete u.ref_name (refs_of m))
        × (get "current-snapshot-id" m' ≡ (
            if is_branch (get u.ref_name (refs_of m)) && u.ref_name == "main"
            then none
            else get "current-snapshot-id" m)))

pub apply_remove_snapshot_ref-RemovesRef :
    (u : RemoveSnapshotRef) (m : Fields) → RemovesRef u m (apply_remove_snapshot_ref u m).1
unfolding apply_remove_snapshot_ref
apply_remove_snapshot_ref-RemovesRef u m = elim (Bool-cases (u.ref_name == "")) [
  | inl e ↦ inl (ground arith)
  | inr e ↦ elim (Option-cases (get_map m "refs")) [
    | inl none_there ↦ inl (ground arith)
    | inr (refs, r) ↦ inr (grind (arith, write_laws), grind (arith, write_laws))
  ]
]
