-- ===== src/Scan.antt =====
-- internal/api/handlers/scan.go: the plans of scans. Their rows stand beside those of the tables and
-- the namespaces; which statements fail, the new uuid and the clock are arguments. An id is a uuid in
-- its canonical form; a text that is none makes a statement fail.
pub mod Final
pub mod Submitted
mod Tests
use bingsan.Prelude.{
  ℕ, String, Bool, true, false, not, Option, none, some, List, [], ◌∷◌, ◌++◌, map, ◌&&◌, ◌||◌, ◌==◌,
  find, some_of, if◌then◌else◌,
}
use bingsan.Prelude.Int.{ℤ, pos, ◌+ℤ◌}
use bingsan.Go.Value.{Fields}
use bingsan.Updates.Exec.{Result, ok, err}
use bingsan.Tables.Commit.{NamespaceRow, TableRow, Store, in_namespace, find_table}

pub data Status : Type 0 where
  pending running completed cancelled : Status

-- What a request says of the scan; the body is stored as it is read.
pub record ScanPlanRequest : Type 0 where
  pub snapshot_id : Option ℤ
  pub select : List String
  pub filter : Fields
  pub case_sensitive : Bool

-- A row of `scan_plans`.
pub record PlanRow : Type 0 where
  pub id : String
  pub table_id : String
  pub plan_data : ScanPlanRequest
  pub status : Status
  pub expires_at : ℤ

pub record Plans : Type 0 where
  pub store : Store
  pub plans : List PlanRow

pub record ScanPlanResponse : Type 0 where
  pub plan_id : String
  pub status : Status

-- No tasks are made yet: `ScanTasks` is empty, if `has_tasks` says so, or nil.
pub record ScanPlanResult : Type 0 where
  pub plan_id : String
  pub status : Status
  pub has_tasks : Bool

pub data ScanError : Type 0 where
  invalid_body plan_id_required table_not_found plan_not_found internal : ScanError
  plan_not_ready : Status → ScanError

abbrev pub status_code : ScanError → ℕ
status_code invalid_body = 400
status_code plan_id_required = 400
status_code table_not_found = 404
status_code plan_not_found = 404
status_code internal = 500
status_code (plan_not_ready s) = 400

abbrev pub is_completed : Status → Bool
is_completed completed = true
is_completed _ = false

-- `status IN ('pending', 'running')`
abbrev pub is_active : Status → Bool
is_active pending = true
is_active running = true
is_active _ = false

abbrev pub has_id : String → PlanRow → Bool
has_id id p = p.id == id

abbrev pub is_named : List String → String → Store → String → TableRow → Bool
is_named ns name store id t =
    t.id == id && t.name == name && in_namespace ns t.namespace_id store.namespaces

-- The join of a plan with its table and its namespace.
abbrev pub is_plan : List String → String → String → Store → PlanRow → Bool
is_plan ns name id store p = has_id id p && some_of (is_named ns name store p.table_id) store.tables

-- `UPDATE scan_plans SET status`, of the rows that a test picks.
abbrev pub set_status : Status → (PlanRow → Bool) → PlanRow → PlanRow
set_status status picks p = if picks p then record p { status = status } else p

-- One hour in nanoseconds.
abbrev pub plan_lifetime : ℤ
plan_lifetime = pos 3600000000000

module _ (down : Bool × Bool × Bool) (uuid : String) (now : ℤ) where
  abbrev pub new_plan : ScanPlanRequest → String → PlanRow
  new_plan req table_id = record {
    id = uuid;
    table_id = table_id;
    plan_data = req;
    status = pending;
    expires_at = now +ℤ plan_lifetime;
  }

  -- An error of the last statement is not read.
  abbrev pub completed_rows : List PlanRow → List PlanRow
  completed_rows plans = if down.2 then plans else map (set_status completed (has_id uuid)) plans

  -- The primary key refuses an id that is taken.
  abbrev pub insert_plan :
      ScanPlanRequest → Option TableRow → Plans → Result ScanError ScanPlanResponse × Plans
  insert_plan req none d = (err table_not_found, d)
  insert_plan req (some t) d =
      if down.1 || some_of (has_id uuid) d.plans then (err internal, d) else (
        ok (record { plan_id = uuid; status = pending }),
        record d { plans = completed_rows (d.plans ++ new_plan req t.id ∷ []) },
      )

  unfoldable pub submit_scan_plan :
      List String
      → String
      → Option ScanPlanRequest
      → Plans
      → Result ScanError ScanPlanResponse × Plans
  submit_scan_plan ns name none d = (err invalid_body, d)
  submit_scan_plan ns name (some req) d =
      if down.0
      then (err internal, d)
      else insert_plan req (find_table ns name d.store.namespaces d.store.tables) d

abbrev pub plan_result : Option PlanRow → String → Result ScanError ScanPlanResult
plan_result none id = err plan_not_found
plan_result (some p) id =
    ok (record { plan_id = id; status = p.status; has_tasks = is_completed p.status })

unfoldable pub get_scan_plan :
    Bool → List String → String → String → Plans → Result ScanError ScanPlanResult
get_scan_plan down ns name id d =
    if down then err internal else plan_result (find (is_plan ns name id d.store) d.plans) id

abbrev pub may_cancel : List String → String → String → Store → PlanRow → Bool
may_cancel ns name id store p = is_plan ns name id store p && is_active p.status

unfoldable pub cancel_scan_plan :
    Bool → List String → String → String → Plans → Result ScanError (Unit {0}) × Plans
cancel_scan_plan down ns name id d =
    if down
    then (err internal, d)
    else if some_of (may_cancel ns name id d.store) d.plans
    then (
      ok tt,
      record d { plans = map (set_status cancelled (may_cancel ns name id d.store)) d.plans },
    )
    else (err plan_not_found, d)

abbrev pub ready : Result ScanError ScanPlanResult → Result ScanError ScanPlanResult
ready (err e) = err e
ready (ok r) = if is_completed r.status then ok r else err (plan_not_ready r.status)

-- The id in the body, if the body could be parsed.
unfoldable pub fetch_plan_tasks :
    Bool → List String → String → Option String → Plans → Result ScanError ScanPlanResult
fetch_plan_tasks down ns name none d = err invalid_body
fetch_plan_tasks down ns name (some id) d =
    if id == "" then err plan_id_required else ready (get_scan_plan down ns name id d)
