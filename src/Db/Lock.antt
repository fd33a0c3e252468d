-- ===== src/Db/Lock.antt =====
-- internal/db/lock.go: WithLock. What PostgreSQL answers at each attempt, and what other
-- transactions do to the database before it, are arguments.
pub mod Atomic
pub mod Retry
use bingsan.Prelude.{ℕ, zero, suc, String, Bool, true, false, Option, none, some, ◌==◌}
use bingsan.Prelude.Int.{ℤ, pos, negsuc}

pub record LockConfig : Type 0 where
  pub timeout_ms : ℤ
  pub max_retries : ℤ

-- The answers at one attempt, `none` where there is no error: the wait before it, which the end of
-- the context cuts short, the begin of the transaction, its lock_timeout, and its commit.
pub record Attempt (E : Type 0) : Type 0 where
  pub waited : Option E
  pub begin : Option E
  pub set_timeout : ℤ → Option E
  pub commit : Option E

-- Where `executeWithLock` fails, with the error that it wraps or passes on.
pub data Failure (E : Type 0) : Type 0 where
  begin_failed : E → Failure E
  set_timeout_failed : E → Failure E
  fn_failed : E → Failure E
  commit_failed : E → Failure E

-- `ctx.Err()`, another error of an attempt, or ErrLockTimeout with the last error.
pub data LockError (E : Type 0) : Type 0 where
  cancelled : E → LockError E
  failed : Failure E → LockError E
  exhausted : Option (Failure E) → LockError E

abbrev pub cause : {E : Type 0} → Failure E → E
cause (begin_failed e) = e
cause (set_timeout_failed e) = e
cause (fn_failed e) = e
cause (commit_failed e) = e

-- A function that runs in a transaction: the variables that it captures, and the database.
abbrev pub Body : Type 0 → Type 0 → Type 0 → Type 0
Body E C D = C → D → Option E × (C × D)

module _ {E C D : Type 0} where
  -- The commit: the changes are in the database, or are rolled back. Variables keep their values.
  abbrev pub finish : Option E → D → Option E × (C × D) → Option (Failure E) × (C × D)
  finish commit d (some e, (c', d')) = (some (fn_failed e), (c', d))
  finish none d (none, (c', d')) = (none, (c', d'))
  finish (some e) d (none, (c', d')) = (some (commit_failed e), (c', d))

  abbrev pub execute :
      (begin set_timeout commit : Option E) → Body E C D → C → D → Option (Failure E) × (C × D)
  execute (some e) t commit fn c d = (some (begin_failed e), (c, d))
  execute none (some e) commit fn c d = (some (set_timeout_failed e), (c, d))
  execute none none commit fn c d = finish commit d (fn c d)

  unfoldable pub execute_with_lock :
      ℤ → Attempt E → Body E C D → C → D → Option (Failure E) × (C × D)
  execute_with_lock timeout_ms attempt fn c d =
      execute attempt.begin (attempt.set_timeout timeout_ms) attempt.commit fn c d

abbrev is_code : String → Option String → Bool
is_code code none = false
is_code code (some s) = s == code

-- `pg_code` is errors.As on the chain of an error, with the code of a PgError that it finds.
module _ {E : Type 0} (pg_code : E → Option String) where
  unfoldable pub is_lock_timeout_error : Failure E → Bool
  is_lock_timeout_error e = is_code "55P03" (pg_code (cause e))

  unfoldable pub is_serialization_error : E → Bool
  is_serialization_error e = is_code "40001" (pg_code e)

-- There is no wait before the first attempt.
abbrev pub wait_before : {E : Type 0} → (ℕ → Attempt E) → ℕ → Option E
wait_before env zero = none
wait_before env (suc n) = (env (suc n)).waited

-- `for attempt := 0; attempt <= cfg.MaxRetries; attempt++`
abbrev pub attempt_count : ℤ → ℕ
attempt_count (pos n) = suc n
attempt_count (negsuc n) = 0

-- The loop's body, with what the next attempt does after an error.
module _ {E C D : Type 0} (rest : Failure E → C → D → Option (LockError E) × (C × D)) where
  abbrev pub retry : Bool → Failure E → C → D → Option (LockError E) × (C × D)
  retry true e c d = rest e c d
  retry false e c d = (some (failed e), (c, d))

  abbrev pub after_attempt :
      (E → Option String) → Option (Failure E) × (C × D) → Option (LockError E) × (C × D)
  after_attempt pg_code (none, (c, d)) = (none, (c, d))
  after_attempt pg_code (some e, (c, d)) = retry (is_lock_timeout_error pg_code e) e c d

-- `select` on the context and the timer
abbrev pub unless_cancelled :
    {E C D : Type 0}
    → Option E
    → C
    → D
    → Option (LockError E) × (C × D)
    → Option (LockError E) × (C × D)
unless_cancelled none c d go_on = go_on
unless_cancelled (some e) c d go_on = (some (cancelled e), (c, d))

module _ {E C D : Type 0} (pg_code : E → Option String) (cfg : LockConfig) (env : ℕ → Attempt E)
    (others : ℕ → D → D) (fn : Body E C D) where
  -- The loop from attempt `n`, with `left` attempts to go and the last error so far.
  unfoldable pub attempts :
      (left n : ℕ) → Option (Failure E) → C → D → Option (LockError E) × (C × D)
  attempts zero n last c d = (some (exhausted last), (c, d))
  attempts (suc left) n last c d = unless_cancelled (wait_before env n) c d (
      after_attempt (λ e. attempts left (suc n) (some e)) pg_code
        (execute_with_lock cfg.timeout_ms (env n) fn c (others n d)))

  unfoldable pub with_lock : C → D → Option (LockError E) × (C × D)
  with_lock c d = attempts (attempt_count cfg.max_retries) 0 none c d
