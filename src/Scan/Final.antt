-- ===== src/Scan/Final.antt =====
-- internal/api/handlers/scan.go: a plan that is completed or cancelled stays so.
use bingsan.Prelude.{
  ◌≡◌, sym, subst, String, Bool, false, Option, none, some, List, [], ◌∷◌, ◌++◌, map, ◌||◌, find,
  find-some, some_of, some_of-false, inl, inr, arith, Bool-cases, if_cases,
}
use bingsan.Prelude.Int.{ℤ}
use bingsan.Updates.Exec.{Result}
use bingsan.Tables.Commit.{Store, TableRow, find_table}
use bingsan.Scan.{
  Status, ScanPlanRequest, PlanRow, Plans, ScanError, ScanPlanResponse, is_active, has_id,
  set_status, new_plan, completed, insert_plan, submit_scan_plan, may_cancel, cancel_scan_plan,
}

-- The calls that change plans, and changes of the tables by others, which drop no table of a plan.
pub data ScanCall : Type 0 where
  submits :
      Bool × Bool × Bool → String → ℤ → List String → String → Option ScanPlanRequest → ScanCall
  cancels : Bool → List String → String → String → ScanCall
  others : Store → ScanCall

abbrev pub after_call : ScanCall → Plans → Plans
after_call (submits down uuid now ns name body) d =
    (submit_scan_plan down uuid now ns name body d).1
after_call (cancels down ns name id) d = (cancel_scan_plan down ns name id d).1
after_call (others store) d = record d { store = store }

unfoldable pub after_calls : List ScanCall → Plans → Plans
after_calls [] d = d
after_calls (c ∷ cs) d = after_calls cs (after_call c d)

-- A row that an update does not pick is found as it was.
find-set_status :
    (id : String) (status : Status) (picks : PlanRow → Bool) (plans : List PlanRow) {p : PlanRow}
    → find (has_id id) plans ≡ some p
    → picks p ≡ false
    → find (has_id id) (map (set_status status picks) plans) ≡ some p
find-set_status id status picks [] h k = absurd (ground arith)
find-set_status id status picks (q ∷ plans) {p} h k = elim (Bool-cases (has_id id q)) [
  | inl hit ↦
      let same : q ≡ p = ground arith in
      let kept : picks q ≡ false = subst (λ x. picks x ≡ false) (sym same) k in ground arith
  | inr other ↦
      let rest = find-set_status id status picks plans {p = p} (ground arith) k in
      let same =
        if_cases (λ x. has_id id x ≡ false) (picks q) {x = record q { status = status }} {y = q}
          (λ _. other) (λ _. other) in
      ground arith
]

find-last_same :
    (id : String) (plans : List PlanRow) (q : PlanRow) {p : PlanRow}
    → find (has_id id) plans ≡ some p
    → find (has_id id) (plans ++ q ∷ []) ≡ some p
find-last_same id [] q h = absurd (ground arith)
find-last_same id (x ∷ plans) q {p} h = elim (Bool-cases (has_id id x)) [
  | inl hit ↦ ground arith
  | inr other ↦ let rest = find-last_same id plans q {p = p} (ground arith) in ground arith
]

module _ (id : String) (p : PlanRow) where
  abbrev Has : Plans → Type 0
  Has d = find (has_id id) d.plans ≡ some p

  insert_plan-Has :
      (down : Bool × Bool × Bool) (uuid : String) (now : ℤ) (req : ScanPlanRequest)
      (o : Option TableRow) (d : Plans)
      → Has d
      → Has (insert_plan down uuid now req o d).1
  insert_plan-Has down uuid now req none d h = h
  insert_plan-Has down uuid now req (some t) d h =
      if_cases {A = Result ScanError ScanPlanResponse × Plans} (λ r. Has r.1)
        (down.1 || some_of (has_id uuid) d.plans) (λ _. h)
        (λ fresh.
          let (hit, m) = find-some (has_id id) d.plans h in
          let apart = some_of-false (has_id uuid) d.plans (ground arith) m in
          let there = find-last_same id d.plans (new_plan down uuid now req t.id) h in
          if_cases (λ plans. find (has_id id) plans ≡ some p) down.2 (λ _. there)
            (λ _.
              find-set_status id completed (has_id uuid)
                (d.plans ++ new_plan down uuid now req t.id ∷ []) there apart))

  submit_scan_plan-Has :
      (down : Bool × Bool × Bool) (uuid : String) (now : ℤ) (ns : List String) (name : String)
      (body : Option ScanPlanRequest) (d : Plans)
      → Has d
      → Has (submit_scan_plan down uuid now ns name body d).1
  unfolding submit_scan_plan
  submit_scan_plan-Has down uuid now ns name none d h = h
  submit_scan_plan-Has down uuid now ns name (some req) d h =
      if_cases {A = Result ScanError ScanPlanResponse × Plans} (λ r. Has r.1) down.0 (λ _. h)
        (λ _.
          insert_plan-Has down uuid now req (find_table ns name d.store.namespaces d.store.tables) d
            h)

  cancel_scan_plan-Has :
      (down : Bool) (ns : List String) (name other : String) (d : Plans)
      → is_active p.status ≡ false
      → Has d
      → Has (cancel_scan_plan down ns name other d).1
  unfolding cancel_scan_plan
  cancel_scan_plan-Has down ns name other d final h =
      if_cases {A = Result ScanError (Unit {0}) × Plans} (λ r. Has r.1) down (λ _. h)
        (λ _.
          if_cases {A = Result ScanError (Unit {0}) × Plans} (λ r. Has r.1)
            (some_of (may_cancel ns name other d.store) d.plans)
            (λ _.
              find-set_status id Status.cancelled (may_cancel ns name other d.store) d.plans h
                (ground arith))
            (λ _. h))

  -- A plan that is completed or cancelled stays as it is: whatever plans are submitted and cancelled
  -- after that, in any order, by whatever requests and whatever statements fail, its row is the same.
  pub after_calls-final :
      (cs : List ScanCall) (d : Plans)
      → find (has_id id) d.plans ≡ some p
      → is_active p.status ≡ false
      → find (has_id id) (after_calls cs d).plans ≡ some p
  unfolding after_calls
  after_calls-final [] d h final = h
  after_calls-final (submits down uuid now ns name body ∷ cs) d h final =
      after_calls-final cs _ (submit_scan_plan-Has down uuid now ns name body d h) final
  after_calls-final (cancels down ns name other ∷ cs) d h final =
      after_calls-final cs _ (cancel_scan_plan-Has down ns name other d final h) final
  after_calls-final (others store ∷ cs) d h final = after_calls-final cs _ h final
