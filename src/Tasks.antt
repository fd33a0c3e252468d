-- ===== src/Tasks.antt =====
-- internal/background/tasks.go: a task that runs where this node leads, and the three that clean up.
-- What PostgreSQL answers to a query is an argument.
pub mod Cleanup
pub mod Execution
mod Tests
use bingsan.Prelude.{
  Bool, true, false, not, Option, none, some, List, ◌∷◌, [], keep, String, ℕ, ◌*◌, if◌then◌else◌,
}
use bingsan.Prelude.Int.{ℤ, ltb_ℤ}
use bingsan.Updates.Exec.{Result, ok, err}
use bingsan.Leader.{Elector, try_acquire, lock_key_cleanup}
use bingsan.Auth.{TokenRow, KeyRow, AuthStore}

-- The tables that the tasks clean up; of the locks and the plans only when they expire.
pub record Cleaned : Type 0 where
  pub locks : List ℤ
  pub plans : List (Option ℤ)
  pub auth : AuthStore

-- What a run of a task works on: the database and whether its queries fail, one after the other.
pub record Task : Type 0 where
  pub name : String
  pub lock_key : ℤ
  pub interval : ℕ
  pub run : Cleaned → Bool × Cleaned

pub data Outcome : Type 0 where
  check_failed not_leader failed completed : Outcome

abbrev counted : Bool × Cleaned → Outcome × Cleaned
counted (true, d) = (failed, d)
counted (false, d) = (completed, d)

module _ {E : Type 0} where
  abbrev pub run_if :
      (Cleaned → Bool × Cleaned) → Cleaned → Result E Bool × Elector → Outcome × Cleaned × Elector
  run_if run d (err x, e) = (check_failed, d, e)
  run_if run d (ok false, e) = (not_leader, d, e)
  run_if run d (ok true, e) = let (o, after) = counted (run d) in (o, after, e)

  unfoldable pub execute_task :
      Task → Result E Bool → Cleaned → Elector → Outcome × Cleaned × Elector
  execute_task task answer d e = run_if task.run d (try_acquire task.lock_key answer e)

-- `expires_at < NOW()`
abbrev pub is_past : ℤ → Option ℤ → Bool
is_past now none = false
is_past now (some t) = ltb_ℤ t now

abbrev pub delete_tokens : ℤ → AuthStore → AuthStore
delete_tokens now store = record store {
  tokens = keep (λ r. not (ltb_ℤ r.expires_at now)) store.tokens;
}

abbrev pub delete_keys : ℤ → AuthStore → AuthStore
delete_keys now store = record store {
  keys = keep (λ r. not (is_past now r.expires_at)) store.keys;
}

-- The error, if a query fails, and the tables after it.
unfoldable pub cleanup_expired_locks : Bool → ℤ → Cleaned → Bool × Cleaned
cleanup_expired_locks down now d =
    if down then (true, d) else (false, record d { locks = keep (λ t. not (ltb_ℤ t now)) d.locks })

unfoldable pub cleanup_expired_tokens : Bool × Bool → ℤ → Cleaned → Bool × Cleaned
cleanup_expired_tokens (true, down) now d = (true, d)
cleanup_expired_tokens (false, true) now d = (true, record d { auth = delete_tokens now d.auth })
cleanup_expired_tokens (false, false) now d =
    (false, record d { auth = delete_keys now (delete_tokens now d.auth) })

unfoldable pub cleanup_expired_scan_plans : Bool → ℤ → Cleaned → Bool × Cleaned
cleanup_expired_scan_plans down now d =
    if down
    then (true, d)
    else (false, record d { plans = keep (λ t. not (is_past now t)) d.plans })

abbrev minute : ℕ
minute = 60000000000

-- The tasks, at the time `now` and with the queries that fail.
abbrev pub default_tasks : Bool → Bool × Bool → Bool → ℤ → List Task
default_tasks locks tokens plans now =
    record {
      name = "cleanup_expired_locks";
      lock_key = lock_key_cleanup;
      interval = minute;
      run = cleanup_expired_locks locks now;
    }
    ∷ record {
      name = "cleanup_expired_tokens";
      lock_key = lock_key_cleanup;
      interval = 5 * minute;
      run = cleanup_expired_tokens tokens now;
    }
    ∷ record {
      name = "cleanup_expired_scan_plans";
      lock_key = lock_key_cleanup;
      interval = minute;
      run = cleanup_expired_scan_plans plans now;
    }
    ∷ []
