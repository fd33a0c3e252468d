-- ===== src/Leader/Loss.antt =====
-- internal/leader/election.go: what an elector knows of its lock when its session has ended.
use bingsan.Prelude.{ℕ, ◌≡◌, ◌≢◌, refl, String, true, none, some, arith}
use bingsan.Prelude.Int.{ℤ, eqb_ℤ_iff}
use bingsan.Leader.{new_elector, try_acquire, is_leader}
use bingsan.Leader.System.{
  LockServer, IsAdvisory, System, start, acquires, LossyStep, steps, loses, after_acquire, Reach,
  here, next,
}
use bingsan.Leader.Exclusion.{OneSession}

module _ {S : Type 0} (server : LockServer S) (laws : IsAdvisory server) (names : ℕ → String)
    (i j : ℕ) (k : ℤ) (apart : i ≢ j) where
  -- Node i acquires the lock, its session ends, and node j acquires the lock.
  abbrev first : System S
  first = after_acquire server i i k (start server names)

  abbrev lost : System S
  lost = record first { server = server.end_session i first.server }

  abbrev both : System S
  both = after_acquire server j j k lost

  both-Reach : Reach (LossyStep server OneSession) (start server names) both
  both-Reach =
      next (next (next here (steps (acquires i i k refl))) (loses i)) (steps (acquires j j k refl))

  given : (n : ℕ) (s : S) → server.holder k s ≡ none → (server.try_lock n k s).0 ≡ true
  given n s free = ground (arith, laws.try_lock_answer n k s)

  held :
      (n : ℕ) (s : S)
      → server.holder k s ≡ none
      → server.holder k (server.try_lock n k s).1 ≡ some n
  held n s free = ground (arith, laws.try_lock_holder n k k s, eqb_ℤ_iff k k)

  freed : server.holder k (server.end_session i (server.try_lock i k server.empty).1) ≡ none
  freed = ground (
    arith,
    laws.end_holder i k (server.try_lock i k server.empty).1,
    held i server.empty (laws.empty_free k),
  )

  both_lead : (is_leader k (both.electors i) ≡ true) × (is_leader k (both.electors j) ≡ true)
  unfolding is_leader try_acquire new_elector
  both_lead = ground (
    arith,
    given i server.empty (laws.empty_free k),
    given j (server.end_session i (server.try_lock i k server.empty).1) freed,
    eqb_ℤ_iff k k,
  )

  -- Where a session may end, as a pool ends the connections that are old or idle, two nodes can
  -- lead for one key, whatever the nodes and the key: an elector is not told that its lock is lost.
  pub Reach-two_leaders :
      (t : System S) × Reach (LossyStep server OneSession) (start server names) t
      × (is_leader k (t.electors i) ≡ true)
      × (is_leader k (t.electors j) ≡ true)
  Reach-two_leaders = (both, both-Reach, both_lead.0, both_lead.1)
