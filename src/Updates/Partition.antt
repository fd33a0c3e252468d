-- ===== src/Updates/Partition.antt =====
-- internal/api/handlers/updates/partition.go
use bingsan.Prelude.{Option, none, some, List}
use bingsan.Prelude.Int.{ℤ}
use bingsan.Go.Value.{Items, int, slice, object}
use bingsan.Go.Map.{set}
use bingsan.Go.Slice.{append, any}
use bingsan.Updates.Types.{
  AddSpec, SetDefaultSpec, RemovePartitionSpecs, Error, required, already_exists,
}
use bingsan.Updates.Exec.{Exec, ◌>>=◌, ◌>>◌, done, gets, or_fail, fail_if, modify}
use bingsan.Updates.Util.{
  get_int, get_slice, or_zero, max_field_id, ensure_slice, has_id, with_id, raise_to, set_default,
  remove_items_by_id,
}

unfoldable pub apply_add_spec : AddSpec → Exec Error (Unit {0})
apply_add_spec u = do
  given ← or_fail u.spec (required "spec")
  specs ← ensure_slice "partition-specs"
  let (spec_id, spec) = with_id "spec-id" specs given
  fail_if (any (has_id "spec-id" spec_id) specs) (already_exists "spec-id" spec_id)
  raise_to "last-partition-id" int (max_field_id (get_slice spec "fields") "field-id")
  modify (set "partition-specs" (slice (append specs (object spec))))

unfoldable pub apply_set_default_spec : SetDefaultSpec → Exec Error (Unit {0})
apply_set_default_spec u =
    set_default "partition-specs" "spec-id" "default-spec-id" "partition specs" "spec-id" u.spec_id

abbrev remove_specs : List ℤ → Option Items → Exec Error (Unit {0})
remove_specs ids none = done
remove_specs ids (some specs) = do
  default_id ← gets (λ m. or_zero (get_int m "default-spec-id"))
  filtered ← λ m. (remove_items_by_id specs ids "spec-id" default_id "default partition spec", m)
  modify (set "partition-specs" (slice filtered))

unfoldable pub apply_remove_partition_specs : RemovePartitionSpecs → Exec Error (Unit {0})
apply_remove_partition_specs u = do
  specs ← gets (λ m. get_slice m "partition-specs")
  remove_specs u.spec_ids specs
