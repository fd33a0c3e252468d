-- ===== src/Go/Map.antt =====
-- `map[string]any` as an association list: `m[k]`, `m[k] = v` and `delete(m, k)`.
use bingsan.Prelude.{String, ◌≡◌, refl, Option, none, some, arith, ◌==◌, eq_iff, if◌then◌else◌}
use bingsan.Go.Value.{Value, Fields, end, field}

unfoldable pub get : String → Fields → Option Value
get k end = none
get k (field j v m) = if j == k then some v else get k m

unfoldable pub set : String → Value → Fields → Fields
set k v end = field k v end
set k v (field j w m) = if j == k then field k v m else field j w (set k v m)

unfoldable pub delete : String → Fields → Fields
delete k end = end
delete k (field j v m) = let rest = delete k m in if j == k then rest else field j v rest

pub get-set :
    (k j : String) (v : Value) (m : Fields)
    → get j (set k v m) ≡ (if k == j then some v else get j m)
unfolding get set
get-set k j v end = refl
get-set k j v (field i w m) = ground (arith, eq_iff k j, eq_iff i k, eq_iff i j, get-set k j v m)

pub get-delete :
    (k j : String) (m : Fields) → get j (delete k m) ≡ (if k == j then none else get j m)
unfolding get delete
get-delete k j end = ground arith
get-delete k j (field i w m) = ground (arith, eq_iff k j, eq_iff i k, eq_iff i j, get-delete k j m)

pub ruleset map_laws = (get-set, get-delete)
