-- ===== src/Tasks/Execution.antt =====
-- internal/background/tasks.go with internal/leader/election.go: when a task runs.
use bingsan.Prelude.{◌≡◌, refl, Bool, true, false, arith, inl, inr, Bool-cases}
use bingsan.Prelude.Int.{eqb_ℤ_iff}
use bingsan.Updates.Exec.{Result, ok, err}
use bingsan.Leader.{Elector, try_acquire, is_leader}
use bingsan.Tasks.{Task, Cleaned, run_if, execute_task}

run_if-leader :
    {E : Type 0} (task : Task) (answer : Result E Bool) (d : Cleaned) (e : Elector)
    → is_leader task.lock_key (run_if task.run d (try_acquire task.lock_key answer e)).2 ≡ false
    → (run_if task.run d (try_acquire task.lock_key answer e)).1 ≡ d
unfolding try_acquire is_leader
run_if-leader task (err x) d e h = elim (Bool-cases (e.locks task.lock_key)) [
  | inl led ↦ absurd (ground arith)
  | inr not_led ↦ ground arith
]
run_if-leader task (ok false) d e h = elim (Bool-cases (e.locks task.lock_key)) [
  | inl led ↦ absurd (ground arith)
  | inr not_led ↦ ground arith
]
run_if-leader task (ok true) d e h = elim (Bool-cases (e.locks task.lock_key)) [
  | inl led ↦ absurd (ground arith)
  | inr not_led ↦ let same = (eqb_ℤ_iff task.lock_key task.lock_key).1 refl in absurd (ground arith)
]

-- A task changes the tables only on a node that leads for the task's key when it is done.
pub execute_task-leader :
    {E : Type 0} (task : Task) (answer : Result E Bool) (d : Cleaned) (e : Elector)
    → is_leader task.lock_key (execute_task task answer d e).2 ≡ false
    → (execute_task task answer d e).1 ≡ d
unfolding execute_task
execute_task-leader task answer d e h = run_if-leader task answer d e h
