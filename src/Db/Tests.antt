-- ===== src/Db/Tests.antt =====
-- internal/db/lock.go: the theorems at a call whose first attempt meets a lock timeout.
use bingsan.Prelude.{ℕ, zero, suc, ◌+◌, ◌<◌, ◌≤◌, String, ◌≡◌, refl, Option, none, some, arith}
use bingsan.Prelude.Int.{pos}
use bingsan.Db.Lock.{
  LockConfig, Attempt, Body, is_lock_timeout_error, wait_before, attempts, execute_with_lock,
  with_lock,
}
use bingsan.Db.Lock.Atomic.{IsAtomic, with_lock-IsAtomic}
use bingsan.Db.Lock.Retry.{IsLockTimeout, fault_of, with_lock-succeeds}

abbrev config : LockConfig
config = record { timeout_ms = pos 5000; max_retries = pos 2 }

abbrev code_of : String → Option String
code_of s = some s

abbrev blocked : Attempt String
blocked = record { waited = none; begin = some "55P03"; set_timeout = λ _. none; commit = none }

abbrev free : Attempt String
free = record { waited = none; begin = none; set_timeout = λ _. none; commit = none }

abbrev answers : ℕ → Attempt String
answers zero = blocked
answers (suc n) = free

-- Another transaction adds ten at its turn.
abbrev add_ten : ℕ → ℕ → ℕ
add_ten n d = d + 10

abbrev add_one_row : Body String (Unit {0}) ℕ
add_one_row c d = (none, (c, suc d))

second_attempt : with_lock code_of config answers add_ten add_one_row tt 0 ≡ (none, (tt, 21))
unfolding with_lock attempts execute_with_lock is_lock_timeout_error
second_attempt = refl

with_lock-IsAtomic_example :
    IsAtomic code_of config answers add_ten add_one_row 3 0
      (with_lock code_of config answers add_ten add_one_row tt 0)
with_lock-IsAtomic_example = with_lock-IsAtomic code_of config answers add_ten add_one_row tt 0

no_wait : (j : ℕ) → j ≤ 1 → wait_before answers j ≡ none
no_wait zero le = refl
no_wait (suc j) le = refl

first_blocked : (j : ℕ) → j < 1 → IsLockTimeout code_of (fault_of config (answers j))
unfolding is_lock_timeout_error
first_blocked zero lt = refl
first_blocked (suc j) lt = absurd (omega arith)

with_lock-succeeds_example : (with_lock code_of config answers add_ten add_one_row tt 0).0 ≡ none
with_lock-succeeds_example =
    with_lock-succeeds code_of config answers add_ten add_one_row (λ c d. refl) 1 no_wait
      first_blocked refl tt 0 (omega arith)
