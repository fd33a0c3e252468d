-- ===== src/Scan/Submitted.antt =====
-- internal/api/handlers/scan.go: what the handlers say of a plan that has just been submitted.
use bingsan.Prelude.{
  ◌≡◌, refl, ap, ◌∙◌, String, Bool, true, false, some, List, [], ◌∷◌, ◌++◌, map, ◌&&◌, ◌==◌, eq_iff,
  find-last, some_of, some_of-less, inl, inr, arith, Bool-cases, if_cases,
}
use bingsan.Prelude.Int.{ℤ}
use bingsan.Updates.Exec.{Result, ok, err}
use bingsan.Tables.Commit.{Store, NamespaceRow, TableRow, find_table, in_namespace}
use bingsan.Scan.{
  Status, pending, completed, ScanPlanRequest, PlanRow, Plans, ScanError, plan_not_found,
  ScanPlanResponse, has_id, is_named, is_plan, set_status, new_plan, insert_plan, submit_scan_plan,
  may_cancel, cancel_scan_plan, plan_result, get_scan_plan,
}

-- The table that a request names is the one that its plan is joined with.
find_table-named :
    (ns : List String) (name : String) (store : Store) (namespaces : List NamespaceRow)
    (tables : List TableRow) {t : TableRow}
    → namespaces ≡ store.namespaces
    → find_table ns name namespaces tables ≡ some t
    → some_of (is_named ns name store t.id) tables ≡ true
unfolding find_table
find_table-named ns name store namespaces [] e h = absurd (ground arith)
find_table-named ns name store namespaces (x ∷ tables) {t} e h =
    elim (Bool-cases (x.name == name && in_namespace ns x.namespace_id namespaces)) [
      | inl hit ↦
          let same : x ≡ t = ground arith in
          let e' = ap (in_namespace ns x.namespace_id) e in
          let e'' : x.id ≡ t.id = ap (λ y. y.id) same in ground (arith, eq_iff x.id t.id)
      | inr other ↦
          let rest = find_table-named ns name store namespaces tables {t = t} e (ground arith) in
          ground arith
    ]

map-last :
    (uuid : String) (status : Status) (plans : List PlanRow) (q : PlanRow)
    → some_of (has_id uuid) plans ≡ false
    → has_id uuid q ≡ true
    → map (set_status status (has_id uuid)) (plans ++ q ∷ [])
      ≡ plans ++ record q { status = status } ∷ []
map-last uuid status [] q h k = ground arith
map-last uuid status (x ∷ plans) q h k =
    let rest = map-last uuid status plans q (ground arith) k in ground arith

some_of-last_false :
    (p : PlanRow → Bool) (plans : List PlanRow) (q : PlanRow)
    → some_of p plans ≡ false
    → p q ≡ false
    → some_of p (plans ++ q ∷ []) ≡ false
some_of-last_false p [] q h k = ground arith
some_of-last_false p (x ∷ plans) q h k =
    let rest = some_of-last_false p plans q (ground arith) k in ground arith

module _ (ns : List String) (name uuid : String) (now : ℤ) (req : ScanPlanRequest) where
  abbrev done_plan : String → PlanRow
  done_plan table_id = record {
    id = uuid;
    table_id = table_id;
    plan_data = req;
    status = completed;
    expires_at = (new_plan (false, false, false) uuid now req table_id).expires_at;
  }

  abbrev saved : TableRow → Plans → Plans
  saved t d = record d { plans = d.plans ++ done_plan t.id ∷ [] }

  saved-completed :
      (t : TableRow) (d : Plans)
      → some_of (has_id uuid) d.plans ≡ false
      → some_of (is_named ns name d.store t.id) d.store.tables ≡ true
      → get_scan_plan false ns name uuid (saved t d)
        ≡ ok (record { plan_id = uuid; status = completed; has_tasks = true })
  unfolding get_scan_plan
  saved-completed t d fresh there =
      let apart =
        some_of-less (is_plan ns name uuid d.store) (has_id uuid) d.plans (λ p h. ground arith)
          fresh in
      ap (λ o. plan_result o uuid)
        (find-last (is_plan ns name uuid d.store) d.plans {x = done_plan t.id} apart
          (ground (arith, eq_iff uuid uuid)))

  saved-not_cancelled :
      (t : TableRow) (d : Plans)
      → some_of (has_id uuid) d.plans ≡ false
      → cancel_scan_plan false ns name uuid (saved t d) ≡ (err plan_not_found, saved t d)
  unfolding cancel_scan_plan
  saved-not_cancelled t d fresh =
      let idle =
        some_of-less (may_cancel ns name uuid d.store) (has_id uuid) d.plans (λ p h. ground arith)
          fresh in
      let none_left =
        some_of-last_false (may_cancel ns name uuid d.store) d.plans (done_plan t.id) idle
          (ground arith) in
      if_cases {A = Result ScanError (Unit {0}) × Plans} (λ r. r ≡ (err plan_not_found, saved t d))
        (some_of (may_cancel ns name uuid d.store) (saved t d).plans) (λ hit. absurd (ground arith))
        (λ _. refl)

  -- Where no statement fails, a plan that is submitted, for a table that is there and with an id
  -- that is new, is answered as pending and is completed at once: GetScanPlan answers that it is
  -- completed, and CancelScanPlan that there is none to cancel, and changes nothing.
  pub submit_scan_plan-completed :
      (t : TableRow) (d : Plans)
      → find_table ns name d.store.namespaces d.store.tables ≡ some t
      → some_of (has_id uuid) d.plans ≡ false
      → (after : Plans) × (submit_scan_plan (false, false, false) uuid now ns name (some req) d
          ≡ (ok (record { plan_id = uuid; status = pending }), after))
        × (get_scan_plan false ns name uuid after
            ≡ ok (record { plan_id = uuid; status = completed; has_tasks = true }))
        × (cancel_scan_plan false ns name uuid after ≡ (err plan_not_found, after))
  unfolding submit_scan_plan
  submit_scan_plan-completed t d found fresh =
      let there = find_table-named ns name d.store d.store.namespaces d.store.tables refl found in
      let rows =
        map-last uuid completed d.plans (new_plan (false, false, false) uuid now req t.id) fresh
          (ground (arith, eq_iff uuid uuid)) in
      let answer : ScanPlanResponse = record { plan_id = uuid; status = pending } in
      (
        saved t d,
        ap (λ o. insert_plan (false, false, false) uuid now req o d) found
            ∙ if_cases {A = Result ScanError ScanPlanResponse × Plans}
                (λ r. r ≡ (ok answer, saved t d)) (some_of (has_id uuid) d.plans)
                (λ taken. absurd (ground arith))
                (λ _. ap (λ plans. (ok answer, record d { plans = plans })) rows),
        saved-completed t d fresh there,
        saved-not_cancelled t d fresh,
      )
