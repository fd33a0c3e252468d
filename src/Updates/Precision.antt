-- ===== src/Updates/Precision.antt =====
-- Snapshot ids of more than 53 bits: `set-snapshot-ref` compares an exact int64 with ids that have
-- come through float64.
use bingsan.Prelude.{
  ℕ, ◌≤◌, ◌%◌, ◌^◌, String, ◌≡◌, ◌≢◌, refl, false, not, ◌&&◌, some, inl, inr, arith, Option-cases,
  ◌==◌,
}
use bingsan.Prelude.Int.{pos}
use bingsan.Go.Float64.{to_int64-ne_odd}
use bingsan.Go.Value.{Value, Items, Fields, nil, cons, float64, int, int64, object, as_int64}
use bingsan.Go.Value.Decoded.{IsDecoded, AllDecoded, get-IsDecoded}
use bingsan.Go.Map.{get}
use bingsan.Go.Slice.{any}
use bingsan.Updates.Types.{SetSnapshotRef, does_not_exist}
use bingsan.Updates.Exec.{err}
use bingsan.Updates.Util.{has_id}
use bingsan.Updates.Snapshot.{apply_set_snapshot_ref}
use bingsan.Updates.Integrity.Slices.{items_at}

module _ (n : ℕ) (big : 2 ^ 53 ≤ n) (odd : n % 2 ≡ 1) where
  as_int64-ne : (v : Value) → IsDecoded v → as_int64 v ≢ some (pos n)
  as_int64-ne (float64 f) h e = to_int64-ne_odd f n h big odd (ground arith)
  as_int64-ne (int k) h e = h
  as_int64-ne (int64 k) h e = h
  as_int64-ne _ h e = ground arith

  has_id-miss : (key : String) (v : Value) → IsDecoded v → has_id key (pos n) v ≡ false
  unfolding has_id
  has_id-miss key (object m) h = elim (Option-cases (get key m)) [
    | inl e ↦ ground arith
    | inr (w, e) ↦ ground (arith, as_int64-ne w (get-IsDecoded key m w h e))
  ]
  has_id-miss key _ h = refl

  any_miss :
      (key : String) (items : Items) → AllDecoded items → any (has_id key (pos n)) items ≡ false
  unfolding any
  any_miss key nil h = refl
  any_miss key (cons v items) h = ground (arith, has_id-miss key v h.0, any_miss key items h.1)

-- Where the snapshots of the metadata are decoded from JSON, a branch or tag with a name cannot be
-- set to an odd snapshot id from 2 ^ 53 on: the handler answers that the snapshot does not exist,
-- whatever snapshots there are, and changes nothing.
pub set_snapshot_ref-large :
    (u : SetSnapshotRef) (m : Fields) (n : ℕ)
    → (u.ref_name == "") ≡ false
    → not (u.ref_type == "branch") && not (u.ref_type == "tag") ≡ false
    → u.snapshot_id ≡ pos n
    → 2 ^ 53 ≤ n
    → n % 2 ≡ 1
    → AllDecoded (items_at "snapshots" m)
    → apply_set_snapshot_ref u m ≡ (err (does_not_exist "snapshot-id" (pos n)), m)
unfolding apply_set_snapshot_ref
set_snapshot_ref-large u m n named typed e big odd decoded =
    let gone : any (has_id "snapshot-id" (pos n)) (items_at "snapshots" m) ≡ false =
      any_miss n big odd "snapshot-id" (items_at "snapshots" m) decoded in
    rw e (grind (arith, gone, named, typed))
