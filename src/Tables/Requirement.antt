-- ===== src/Tables/Requirement.antt =====
-- internal/api/handlers/table.go: what a commit requires of the table's metadata.
use bingsan.Prelude.{
  All, Bool-cases, inl, inr, ◌≡◌, arith, String, Bool, true, false, Option, none, some, List, [],
  ◌∷◌, ◌==◌, if◌then◌else◌,
}
use bingsan.Prelude.Int.{ℤ, eqb_ℤ}
use bingsan.Go.Float64.{Float64, to_int64}
use bingsan.Go.Value.{Value, Fields, as_object, as_string}
use bingsan.Go.Map.{get}
use bingsan.Updates.Util.{and_then}

-- A missing text is empty; a missing number is `none`.
pub record Requirement : Type 0 where
  pub type : String
  pub ref : String
  pub uuid : String
  pub snapshot_id : Option ℤ
  pub last_assigned_field_id : Option ℤ
  pub current_schema_id : Option ℤ
  pub last_assigned_partition_id : Option ℤ
  pub default_spec_id : Option ℤ
  pub default_sort_order_id : Option ℤ

-- The assertion `v.(float64)`, which an `int` or an `int64` fails.
abbrev as_float64 : Value → Option Float64
as_float64 (Value.float64 f) = some f
as_float64 _ = none

abbrev matches : Option Float64 → Option ℤ → Bool
matches none none = true
matches none (some n) = false
matches (some f) none = false
matches (some f) (some n) = eqb_ℤ (to_int64 f) n

abbrev is_text : Option String → String → Bool
is_text none s = false
is_text (some t) s = t == s

-- The object at a key, where there is a map with one.
abbrev object_in : Option Fields → String → Option Fields
object_in none key = none
object_in (some m) key = and_then (get key m) as_object

abbrev number_in : Option Fields → String → Option Float64
number_in none key = none
number_in (some m) key = and_then (get key m) as_float64

unfoldable pub validate_requirement : Fields → Requirement → Bool
validate_requirement metadata req =
    if req.type == "assert-create"
    then true
    else if req.type == "assert-table-uuid"
    then is_text (and_then (get "table-uuid" metadata) as_string) req.uuid
    else if req.type == "assert-ref-snapshot-id"
    then matches (number_in (object_in (object_in (some metadata) "refs") req.ref) "snapshot-id")
        req.snapshot_id
    else if req.type == "assert-last-assigned-field-id"
    then matches (number_in (some metadata) "last-column-id") req.last_assigned_field_id
    else if req.type == "assert-current-schema-id"
    then matches (number_in (some metadata) "current-schema-id") req.current_schema_id
    else if req.type == "assert-last-assigned-partition-id"
    then true
    else if req.type == "assert-default-spec-id"
    then matches (number_in (some metadata) "default-spec-id") req.default_spec_id
    else if req.type == "assert-default-sort-order-id"
    then matches (number_in (some metadata) "default-sort-order-id") req.default_sort_order_id
    else true

-- The first requirement that fails: the loop of CommitTable.
unfoldable pub first_failed : Fields → List Requirement → Option Requirement
first_failed metadata [] = none
first_failed metadata (r ∷ rs) =
    let rest = first_failed metadata rs in if validate_requirement metadata r then rest else some r

-- Where none is the first to fail, all of them hold.
pub first_failed-none :
    (metadata : Fields) (rs : List Requirement)
    → first_failed metadata rs ≡ none
    → All (λ r. validate_requirement metadata r ≡ true) rs
unfolding first_failed
first_failed-none metadata [] h = tt
first_failed-none metadata (r ∷ rs) h = elim (Bool-cases (validate_requirement metadata r)) [
  | inl holds ↦ (holds, first_failed-none metadata rs (ground arith))
  | inr fails ↦ absurd (ground arith)
]
