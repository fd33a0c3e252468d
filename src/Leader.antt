-- ===== src/Leader.antt =====
-- internal/leader/election.go: the elector of a node. What PostgreSQL answers to a query is an
-- argument; a query that fails has an error.
pub mod System
pub mod Exclusion
pub mod Loss
mod Tests
use bingsan.Prelude.{String, Bool, true, false, List, [], ◌∷◌, if◌then◌else◌}
use bingsan.Prelude.Int.{ℤ, pos, eqb_ℤ}
use bingsan.Updates.Exec.{Result, ok, err}

abbrev pub lock_key_cleanup : ℤ
lock_key_cleanup = pos 1

abbrev pub lock_key_metrics : ℤ
lock_key_metrics = pos 2

-- `locks` is a `map[int64]bool`, false for a missing key.
pub record Elector : Type 0 where
  pub node_id : String
  pub locks : ℤ → Bool

abbrev pub update : ℤ → Bool → (ℤ → Bool) → ℤ → Bool
update key value locks k = if eqb_ℤ key k then value else locks k

unfoldable pub new_elector : String → Elector
new_elector node_id = record { node_id = node_id; locks = λ _. false }

-- Which query a call makes: none, or one on the key.
unfoldable pub is_leader : ℤ → Elector → Bool
is_leader key e = e.locks key

module _ {E : Type 0} where
  -- `pg_try_advisory_lock` has answered.
  abbrev acquired : ℤ → Elector → Result E Bool → Result E Bool × Elector
  acquired key e (err x) = (err x, e)
  acquired key e (ok false) = (ok false, e)
  acquired key e (ok true) = (ok true, record e { locks = update key true e.locks })

  -- The answer is read only if the lock is not held already.
  unfoldable pub try_acquire : ℤ → Result E Bool → Elector → Result E Bool × Elector
  try_acquire key answer e = if e.locks key then (ok true, e) else acquired key e answer

  -- `pg_advisory_unlock` has answered; what it says is not read.
  abbrev released : ℤ → Elector → Result E Bool → Result E (Unit {0}) × Elector
  released key e (err x) = (err x, e)
  released key e (ok _) = (ok tt, record e { locks = update key false e.locks })

  unfoldable pub release : ℤ → Result E Bool → Elector → Result E (Unit {0}) × Elector
  release key answer e = if e.locks key then released key e answer else (ok tt, e)

-- The map is new after the loop, whatever the queries answered.
unfoldable pub release_all : Elector → Elector
release_all e = record e { locks = λ _. false }
