-- ===== src/Updates/SortOrder.antt =====
-- internal/api/handlers/updates/sortorder.go
use bingsan.Go.Value.{slice, object}
use bingsan.Go.Map.{set}
use bingsan.Go.Slice.{append, any}
use bingsan.Updates.Types.{AddSortOrder, SetDefaultSortOrder, Error, required, already_exists}
use bingsan.Updates.Exec.{Exec, ◌>>=◌, ◌>>◌, or_fail, fail_if, modify}
use bingsan.Updates.Util.{ensure_slice, has_id, with_id, set_default}

unfoldable pub apply_add_sort_order : AddSortOrder → Exec Error (Unit {0})
apply_add_sort_order u = do
  given ← or_fail u.sort_order (required "sort-order")
  orders ← ensure_slice "sort-orders"
  let (order_id, order) = with_id "order-id" orders given
  fail_if (any (has_id "order-id" order_id) orders) (already_exists "order-id" order_id)
  modify (set "sort-orders" (slice (append orders (object order))))

unfoldable pub apply_set_default_sort_order : SetDefaultSortOrder → Exec Error (Unit {0})
apply_set_default_sort_order u =
    set_default "sort-orders" "order-id" "default-sort-order-id" "sort orders" "sort-order-id"
      u.sort_order_id
