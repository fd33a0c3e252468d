-- ===== src/Transactions/Unchanged.antt =====
-- internal/api/handlers/transaction.go: what CommitTransaction leaves in the tables.
use bingsan.Prelude.{
  ℕ, zero, suc, ◌≤◌, String, ◌≡◌, refl, sym, ap, subst, ◌∙◌, true, Memᴰ, All, Pointwise, empty,
  more, inl, inr, ◌&&◌, ◌==◌, eq_iff, find, find-some, Option-cases, Option, none, some, List, [],
  ◌∷◌, arith,
}
use bingsan.Db.Lock.{LockConfig, Attempt, LockError, exhausted, cancelled, failed, attempt_count}
use bingsan.Db.Lock.Atomic.{world, IsAtomic, with_lock-IsAtomic}
use bingsan.Go.Value.{json_trip_fields}
use bingsan.Catalog.{same_name_iff}
use bingsan.Tables.Requirement.{first_failed, validate_requirement, first_failed-none}
use bingsan.Tables.Commit.{NamespaceRow, TableRow, Store, same_name}
use bingsan.Transactions.{
  check_table, commit_table_in_tx, Checked, add_result, TableChange, CommitResult, TxWorld,
  TxFailure, TxCaptured, TxResponse, bad_request, changes_required, lock_conflict, internal_error,
  refused, committed, commit_all, capture, run_changes, tx_answer, commit_transaction,
}

-- A row of the change's table, in a namespace of its name, whose metadata met every requirement, and
-- that the result tells of.
abbrev pub IsResult : {Raw : Type 0} → Store → TableChange Raw → CommitResult → Type 0
IsResult store change r =
    (n : NamespaceRow) × Memᴰ n store.namespaces
    × (n.name ≡ change.namespace)
    × ((t : TableRow) × Memᴰ t store.tables
        × (t.namespace_id ≡ n.id)
        × (t.name ≡ change.name)
        × All (λ q. validate_requirement (json_trip_fields t.metadata) q ≡ true) change.requirements
        × (r ≡ record {
          namespace = change.namespace;
          name = change.name;
          metadata_location = t.metadata_location;
          metadata = json_trip_fields t.metadata;
        }))

module _ {Raw E : Type 0} where
  check_table-IsResult :
      (change : TableChange Raw) (w : TxWorld E) (n : NamespaceRow) (t : TableRow)
      (r : CommitResult)
      → find (λ m. same_name m.name change.namespace) w.store.namespaces ≡ some n
      → find (λ u. u.namespace_id == n.id && u.name == change.name) w.store.tables ≡ some t
      → check_table {E = E} change (some t) ≡ inl r
      → IsResult w.store change r
  check_table-IsResult change w n t r f g h =
      let (named, there) = find-some _ w.store.namespaces f in
      let (row, in_it) = find-some _ w.store.tables g in
      elim (Option-cases (first_failed (json_trip_fields t.metadata) change.requirements)) [
        | inr (q, e) ↦ absurd (ground arith)
        | inl e ↦ (
          n,
          there,
          same_name_iff n.name change.namespace named,
          (
            t,
            in_it,
            (eq_iff t.namespace_id n.id).0 (ground arith),
            (eq_iff t.name change.name).0 (ground arith),
            first_failed-none (json_trip_fields t.metadata) change.requirements e,
            ground arith,
          ),
        )
      ]

  commit_table_in_tx-IsResult :
      (i : ℕ) (change : TableChange Raw) (w : TxWorld E) (r : CommitResult)
      → commit_table_in_tx i change w ≡ inl r
      → IsResult w.store change r
  commit_table_in_tx-IsResult i change w r h = elim (Option-cases (w.namespace_error i)) [
    | inr (x, e) ↦ absurd (ground arith)
    | inl e ↦
        elim (Option-cases (find (λ m. same_name m.name change.namespace) w.store.namespaces)) [
          | inl f ↦ absurd (ground arith)
          | inr (n, f) ↦ elim (Option-cases (w.table_error i)) [
            | inr (x, g) ↦ absurd (ground arith)
            | inl g ↦
                elim (Option-cases
                  (find (λ u. u.namespace_id == n.id && u.name == change.name) w.store.tables)) [
                    | inl k ↦ absurd (ground arith)
                    | inr (t, k) ↦ check_table-IsResult change w n t r f k (ground arith)
                  ]
          ]
        ]
  ]

  one_more :
      (i : ℕ) (change : TableChange Raw) (changes : List (TableChange Raw)) (w : TxWorld E)
      (c : Checked E) (o : List CommitResult × Option (TxFailure E)) {results : List CommitResult}
      → commit_table_in_tx i change w ≡ c
      → (o.1 ≡ none → Pointwise (IsResult w.store) changes o.0)
      → add_result c o ≡ (results, none)
      → Pointwise (IsResult w.store) (change ∷ changes) results
  one_more i change changes w (inr f) o e rest h = absurd (ground arith)
  one_more i change changes w (inl r) o e rest h =
      subst (Pointwise (IsResult w.store) (change ∷ changes)) (ap (λ p. p.0) h)
        (more (commit_table_in_tx-IsResult i change w r e) (rest (ap (λ p. p.1) h)))

  commit_all-IsResult :
      (i : ℕ) (changes : List (TableChange Raw)) (w : TxWorld E) {results : List CommitResult}
      → commit_all i changes w ≡ (results, none)
      → Pointwise (IsResult w.store) changes results
  unfolding commit_all
  commit_all-IsResult i [] w h = subst (Pointwise (IsResult w.store) []) (ap (λ p. p.0) h) empty
  commit_all-IsResult i (change ∷ changes) w h =
      one_more i change changes w (commit_table_in_tx i change w) (commit_all (suc i) changes w)
        refl
        (λ e.
          commit_all-IsResult (suc i) changes w (ap (λ f. ((commit_all (suc i) changes w).0, f)) e))
        h

module _ {E : Type 0} (cfg : LockConfig) (others : ℕ → TxWorld E → TxWorld E) where
  -- The database is as the first turns of the other transactions left it.
  abbrev IsOthers : TxWorld E → TxWorld E → Type 0
  IsOthers w after = (k : ℕ) × (k ≤ attempt_count cfg.max_retries) × (after ≡ world others k w)

  abbrev pub IsReport :
      {Raw : Type 0}
      → Option (List (TableChange Raw))
      → TxWorld E
      → TxResponse E × TxWorld E
      → Type 0
  IsReport (some changes) w (committed results, after) =
      IsOthers w after × Pointwise (IsResult after.store) changes results
  IsReport none w (committed results, after) = ⊥
  IsReport body w (bad_request, after) = IsOthers w after
  IsReport body w (changes_required, after) = IsOthers w after
  IsReport body w (lock_conflict, after) = IsOthers w after
  IsReport body w (internal_error e, after) = IsOthers w after
  IsReport body w (refused f, after) = IsOthers w after

module _ {Raw E : Type 0} (pg_code : E → Option String) (cfg : LockConfig) (env : ℕ → Attempt E)
    (others : ℕ → TxWorld E → TxWorld E) where
  captured-IsReport :
      (changes : List (TableChange Raw)) (w after : TxWorld E) (c c' : TxCaptured E)
      (o : List CommitResult × Option (TxFailure E))
      → commit_all zero changes after ≡ o
      → c' ≡ capture c o
      → IsOthers cfg others w after
      → IsReport cfg others (some changes) w (tx_answer none c', after)
  captured-IsReport changes w after c c' (results, some f) e is h = rw is h
  captured-IsReport changes w after c c' (results, none) e is h = go c.tx_err refl
    where
      go :
          (t : Option (TxFailure E))
          → c.tx_err ≡ t
          → IsReport cfg others (some changes) w (tx_answer none c', after)
      go none t = rw (is, t) (h, commit_all-IsResult zero changes after e)
      go (some f) t = rw (is, t) h

  answer-IsReport :
      (changes : List (TableChange Raw)) (w : TxWorld E)
      (r : Option (LockError E) × (TxCaptured E × TxWorld E))
      → IsAtomic pg_code cfg env others (run_changes changes) (attempt_count cfg.max_retries) w r
      → IsReport cfg others (some changes) w (tx_answer r.0 r.1.0, r.1.1)
  answer-IsReport changes w (some (exhausted last), (c, after)) (k, few, is) = (k, few, is)
  answer-IsReport changes w (some (cancelled e), (c, after)) (k, few, is) = (k, few, is)
  answer-IsReport changes w (some (failed e), (c, after)) (k, few, is) = (k, few, is)
  answer-IsReport changes w (none, (c', after)) (k, few, (c, is)) =
      let same : after ≡ world others (suc k) w = sym (ap (λ p. p.1.1) is) in
      captured-IsReport changes w after c c' _ refl
        (sym (ap (λ p. p.1.0) is) ∙ ap (λ d. capture c (commit_all zero changes d)) (sym same))
        (suc k, omega (arith, few), same)

  -- CommitTransaction commits nothing: whatever it answers, the database is as the other
  -- transactions left it at some moment of the call. Where it answers with results, these are of
  -- that moment and stand for the changes of the request one by one: a namespace and a table of the
  -- change's names were there, every requirement of the change held of the table's metadata as it is
  -- read from JSON, and the result gives that metadata and its location; the updates of the change
  -- are not in it.
  pub commit_transaction-IsReport :
      (body : Option (List (TableChange Raw))) (w : TxWorld E)
      → IsReport cfg others body w (commit_transaction pg_code cfg env others body w)
  unfolding commit_transaction
  commit_transaction-IsReport none w = (0, omega arith, refl)
  commit_transaction-IsReport (some []) w = (0, omega arith, refl)
  commit_transaction-IsReport (some (change ∷ changes)) w = answer-IsReport (change ∷ changes) w _ (
      with_lock-IsAtomic pg_code cfg env others (run_changes (change ∷ changes))
        (record { results = []; tx_err = none }) w)
