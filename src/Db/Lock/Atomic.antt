-- ===== src/Db/Lock/Atomic.antt =====
-- What a call of WithLock leaves in the database.
use bingsan.Prelude.{
  ℕ, zero, suc, ◌+◌, ◌<◌, ◌≤◌, String, ◌≡◌, refl, subst, Bool, true, false, Option, none, some,
  arith,
}
use bingsan.Db.Lock.{
  LockConfig, Attempt, Failure, LockError, Body, execute, finish, execute_with_lock,
  is_lock_timeout_error, wait_before, attempts, retry, after_attempt, unless_cancelled,
  attempt_count, with_lock,
}

-- The database as the first `n` turns of the other transactions leave it.
abbrev pub world : {D : Type 0} → (ℕ → D → D) → ℕ → D → D
world others zero d = d
world others (suc n) d = others n (world others n d)

module _ {E C D : Type 0} (fn : Body E C D) where
  -- An attempt that succeeds has done what `fn` does, and one that fails has changed nothing.
  abbrev pub Attempted : D → Option (Failure E) × (C × D) → Type 0
  Attempted d (none, (c', d')) = (c : C) × (fn c d ≡ (none, (c', d')))
  Attempted d (some e, (c', d')) = d' ≡ d

  execute-Attempted :
      (begin set_timeout commit : Option E) (c : C) (d : D)
      → Attempted d (execute begin set_timeout commit fn c d)
  execute-Attempted (some e) t commit c d = refl
  execute-Attempted none (some e) commit c d = refl
  execute-Attempted none none commit c d = go commit (fn c d) refl
    where
      go :
          (commit : Option E) (r : Option E × (C × D))
          → fn c d ≡ r
          → Attempted d (finish commit d r)
      go commit (some e, (c', d')) h = refl
      go none (none, (c', d')) h = (c, h)
      go (some e) (none, (c', d')) h = refl

module _ {E C D : Type 0} (pg_code : E → Option String) (cfg : LockConfig) (env : ℕ → Attempt E)
    (others : ℕ → D → D) (fn : Body E C D) where
  -- Of `total` attempts at most, one has done what `fn` does and the others nothing; or none has
  -- done anything.
  abbrev pub IsAtomic : ℕ → D → Option (LockError E) × (C × D) → Type 0
  IsAtomic total d (none, (c', d')) =
      (k : ℕ) × (k < total) × ((c : C) × (fn c (world others (suc k) d) ≡ (none, (c', d'))))
  IsAtomic total d (some e, (c', d')) = (k : ℕ) × (k ≤ total) × (d' ≡ world others k d)

  module _ (left n : ℕ) (d : D) (rest : Failure E → C → D → Option (LockError E) × (C × D))
      (later : (e : Failure E) (c : C)
        → IsAtomic (suc n + left) d (rest e c (world others (suc n) d))) where
    retry-IsAtomic :
        (b : Bool) (e : Failure E) (c : C)
        → IsAtomic (n + suc left) d (retry rest b e c (world others (suc n) d))
    retry-IsAtomic true e c =
        let same : n + suc left ≡ suc n + left = omega arith in rw same (later e c)
    retry-IsAtomic false e c = (suc n, omega arith, refl)

    after_attempt-IsAtomic :
        (r : Option (Failure E) × (C × D))
        → Attempted fn (world others (suc n) d) r
        → IsAtomic (n + suc left) d (after_attempt rest pg_code r)
    after_attempt-IsAtomic (none, (c, d')) h = (n, omega arith, h)
    after_attempt-IsAtomic (some e, (c, d')) h =
        rw h (retry-IsAtomic (is_lock_timeout_error pg_code e) e c)

    unless_cancelled-IsAtomic :
        (o : Option E) (c : C) (r : Option (LockError E) × (C × D))
        → IsAtomic (n + suc left) d r
        → IsAtomic (n + suc left) d (unless_cancelled o c (world others n d) r)
    unless_cancelled-IsAtomic none c r h = h
    unless_cancelled-IsAtomic (some e) c r h = (n, omega arith, refl)

  attempts-IsAtomic :
      (left n : ℕ) (last : Option (Failure E)) (c : C) (d : D)
      → IsAtomic (n + left) d (attempts pg_code cfg env others fn left n last c (world others n d))
  unfolding attempts execute_with_lock
  attempts-IsAtomic zero n last c d = (n, omega arith, refl)
  attempts-IsAtomic (suc left) n last c d =
      let now = world others (suc n) d in
      let rest = λ (e : Failure E). attempts pg_code cfg env others fn left (suc n) (some e) in
      let later = λ (e : Failure E) (c' : C). attempts-IsAtomic left (suc n) (some e) c' d in
      unless_cancelled-IsAtomic left n d rest later (wait_before env n) c _ (
        after_attempt-IsAtomic left n d rest later
          (execute_with_lock cfg.timeout_ms (env n) fn c now)
          (execute-Attempted fn (env n).begin ((env n).set_timeout cfg.timeout_ms) (env n).commit c
            now))

  -- A call of WithLock that returns no error has run its function to the end once, as attempt k of
  -- at most MaxRetries + 1, and its database is what the function made of what the other
  -- transactions had left until then. A call that returns an error leaves what the others have left.
  pub with_lock-IsAtomic :
      (c : C) (d : D)
      → IsAtomic (attempt_count cfg.max_retries) d (with_lock pg_code cfg env others fn c d)
  unfolding with_lock
  with_lock-IsAtomic c d =
      let total = attempt_count cfg.max_retries in
      let same : 0 + total ≡ total = omega arith in
      subst (λ k. IsAtomic k d (attempts pg_code cfg env others fn total 0 none c d)) same
        (attempts-IsAtomic total 0 none c d)
