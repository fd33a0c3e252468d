-- ===== src/Scan/Tests.antt =====
-- A table with one plan that is cancelled, and a new one.
use bingsan.Prelude.{◌≡◌, refl, true, false, none, some, List, [], ◌∷◌, find}
use bingsan.Prelude.Int.{pos}
use bingsan.Go.Value.{end}
use bingsan.Updates.Exec.{ok, err}
use bingsan.Tables.Commit.{find_table, in_namespace}
use bingsan.Scan.{
  pending, completed, cancelled, ScanPlanRequest, PlanRow, Plans, plan_not_found, has_id,
  submit_scan_plan, get_scan_plan, cancel_scan_plan,
}
use bingsan.Scan.Final.{ScanCall, submits, cancels, after_calls, after_calls-final}
use bingsan.Scan.Submitted.{submit_scan_plan-completed}

abbrev everything : ScanPlanRequest
everything = record { snapshot_id = none; select = []; filter = end; case_sensitive = true }

abbrev first_plan : PlanRow
first_plan = record {
  id = "p";
  table_id = "t";
  plan_data = everything;
  status = cancelled;
  expires_at = pos 9;
}

abbrev plans_before : Plans
plans_before = record {
  store = record {
    namespaces = record { id = "n"; name = "db" ∷ [] } ∷ [];
    tables =
        record {
          id = "t";
          namespace_id = "n";
          name = "a";
          metadata_location = "here";
          metadata = end;
          previous_metadata_location = none;
        }
        ∷ [];
    commit_log = [];
  };
  plans = first_plan ∷ [];
}

abbrev calls : List ScanCall
calls =
    submits (false, false, false) "q" (pos 1) ("db" ∷ []) "a" (some everything)
    ∷ cancels false ("db" ∷ []) "a" "p"
    ∷ []

after_calls-final_example :
    find (has_id "p") (after_calls calls plans_before).plans ≡ some first_plan
after_calls-final_example = after_calls-final "p" first_plan calls plans_before refl refl

submit_scan_plan-completed_example :
    (after : Plans) × (submit_scan_plan
        (false, false, false)
        "q"
        (pos 1)
        ("db" ∷ [])
        "a"
        (some everything)
        plans_before
      ≡ (ok (record { plan_id = "q"; status = pending }), after))
    × (get_scan_plan false ("db" ∷ []) "a" "q" after
        ≡ ok (record { plan_id = "q"; status = completed; has_tasks = true }))
    × (cancel_scan_plan false ("db" ∷ []) "a" "q" after ≡ (err plan_not_found, after))
unfolding find_table in_namespace
submit_scan_plan-completed_example =
    submit_scan_plan-completed ("db" ∷ []) "a" "q" (pos 1) everything _ plans_before refl refl
