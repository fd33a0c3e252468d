-- ===== src/Updates/Statistics.antt =====
-- internal/api/handlers/updates/statistics.go
use bingsan.Prelude.{String, not, Option, none, some}
use bingsan.Prelude.Int.{ℤ}
use bingsan.Go.Value.{Fields, int64, slice, object}
use bingsan.Go.Map.{set}
use bingsan.Go.Slice.{append, filter}
use bingsan.Updates.Types.{
  SetStatistics, RemoveStatistics, SetPartitionStatistics, RemovePartitionStatistics, Error,
  required,
}
use bingsan.Updates.Exec.{Result, ok, err, Exec, ◌>>=◌, gets, or_fail, modify}
use bingsan.Updates.Util.{get_int64, get_slice, ensure_slice, has_id, filter_at}

-- The snapshot of new statistics: their own id, or the deprecated one, which is written into them.
abbrev statistics_id : Fields → Option ℤ → Option ℤ → Result Error (ℤ × Fields)
statistics_id statistics (some n) deprecated = ok (n, statistics)
statistics_id statistics none (some n) = ok (n, set "snapshot-id" (int64 n) statistics)
statistics_id statistics none none = err (required "snapshot-id")

-- Replace what the slice has for the snapshot.
replace_at : String → ℤ → Fields → Exec Error (Unit {0})
replace_at key snapshot_id entry = do
  items ← ensure_slice key
  modify (
      set key (
        slice
          (append (filter (λ v. not (has_id "snapshot-id" snapshot_id v)) items) (object entry))))

unfoldable pub apply_set_statistics : SetStatistics → Exec Error (Unit {0})
unfolding replace_at
apply_set_statistics u = do
  given ← or_fail u.statistics (required "statistics")
  found ← λ m. (statistics_id given (get_int64 given "snapshot-id") u.snapshot_id, m)
  replace_at "statistics" found.0 found.1

unfoldable pub apply_remove_statistics : RemoveStatistics → Exec Error (Unit {0})
apply_remove_statistics u = do
  statistics ← gets (λ m. get_slice m "statistics")
  filter_at "statistics" (λ v. not (has_id "snapshot-id" u.snapshot_id v)) statistics

unfoldable pub apply_set_partition_statistics : SetPartitionStatistics → Exec Error (Unit {0})
unfolding replace_at
apply_set_partition_statistics u = do
  given ← or_fail u.partition_statistics (required "partition-statistics")
  snapshot_id ← or_fail (get_int64 given "snapshot-id") (required "snapshot-id")
  replace_at "partition-statistics" snapshot_id given

unfoldable pub apply_remove_partition_statistics : RemovePartitionStatistics → Exec Error (Unit {0})
apply_remove_partition_statistics u = do
  items ← gets (λ m. get_slice m "partition-statistics")
  filter_at "partition-statistics" (λ v. not (has_id "snapshot-id" u.snapshot_id v)) items
