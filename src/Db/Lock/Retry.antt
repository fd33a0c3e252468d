-- ===== src/Db/Lock/Retry.antt =====
-- Which attempts WithLock makes, and what its errors say.
use bingsan.Prelude.{
  ℕ, zero, suc, ◌+◌, ◌<◌, ◌≤◌, String, ◌≡◌, refl, subst, sym, ◌∙◌, ap, Bool, true, false, Option,
  none, some, inl, inr, arith, Bool-cases, ltb,
}
use bingsan.Db.Lock.{
  LockConfig, Attempt, Failure, LockError, Body, begin_failed, set_timeout_failed, commit_failed,
  execute, finish, execute_with_lock, is_lock_timeout_error, wait_before, attempts, retry,
  after_attempt, unless_cancelled, attempt_count, with_lock,
}

module _ {E : Type 0} (pg_code : E → Option String) where
  -- The last error that the loop keeps is a lock timeout; none is kept before the first attempt.
  abbrev IsKept : ℕ → Option (Failure E) → Type 0
  IsKept n none = n ≡ 0
  IsKept n (some e) = is_lock_timeout_error pg_code e ≡ true

  -- An error that ends the loop at once is no lock timeout, and the one that comes with
  -- ErrLockTimeout is; without an error it comes where there is no attempt at all.
  abbrev pub IsReported : ℕ → Option (LockError E) → Type 0
  IsReported total none = Unit
  IsReported total (some (LockError.cancelled e)) = Unit
  IsReported total (some (LockError.failed e)) = is_lock_timeout_error pg_code e ≡ false
  IsReported total (some (LockError.exhausted last)) = IsKept total last

module _ {E C D : Type 0} (pg_code : E → Option String) where
  module _ (total : ℕ) (rest : Failure E → C → D → Option (LockError E) × (C × D))
      (later : (e : Failure E) (c : C) (d : D)
        → is_lock_timeout_error pg_code e ≡ true
        → IsReported pg_code total (rest e c d).0) where
    retry-IsReported :
        (b : Bool) (e : Failure E) (c : C) (d : D)
        → is_lock_timeout_error pg_code e ≡ b
        → IsReported pg_code total (retry rest b e c d).0
    retry-IsReported true e c d h = later e c d h
    retry-IsReported false e c d h = h

    after_attempt-IsReported :
        (r : Option (Failure E) × (C × D))
        → IsReported pg_code total (after_attempt rest pg_code r).0
    after_attempt-IsReported (none, (c, d)) = tt
    after_attempt-IsReported (some e, (c, d)) =
        retry-IsReported (is_lock_timeout_error pg_code e) e c d refl

  unless_cancelled-IsReported :
      (total : ℕ) (o : Option E) (c : C) (d : D) (r : Option (LockError E) × (C × D))
      → IsReported pg_code total r.0
      → IsReported pg_code total (unless_cancelled o c d r).0
  unless_cancelled-IsReported total none c d r h = h
  unless_cancelled-IsReported total (some e) c d r h = tt

  module _ (cfg : LockConfig) (env : ℕ → Attempt E) (others : ℕ → D → D) (fn : Body E C D) where
    attempts-IsReported :
        (total left n : ℕ) (last : Option (Failure E)) (c : C) (d : D)
        → total ≡ n + left
        → IsKept pg_code n last
        → IsReported pg_code total (attempts pg_code cfg env others fn left n last c d).0
    unfolding attempts
    attempts-IsReported total zero n none c d t h = omega arith
    attempts-IsReported total zero n (some e) c d t h = h
    attempts-IsReported total (suc left) n last c d t h =
        unless_cancelled-IsReported total (wait_before env n) c d _ (
          after_attempt-IsReported total
            (λ e. attempts pg_code cfg env others fn left (suc n) (some e))
            (λ e c' d' timeout.
              attempts-IsReported total left (suc n) (some e) c' d' (omega arith) timeout)
            (execute_with_lock cfg.timeout_ms (env n) fn c (others n d)))

    -- WithLock answers ErrLockTimeout only where the last attempt met a lock timeout, or where no
    -- attempt is allowed; any other error that it answers, but the end of the context, is no lock
    -- timeout.
    pub with_lock-IsReported :
        (c : C) (d : D)
        → IsReported pg_code
            (attempt_count cfg.max_retries)
            (with_lock pg_code cfg env others fn c d).0
    unfolding with_lock
    with_lock-IsReported c d =
        let total = attempt_count cfg.max_retries in
        attempts-IsReported total total 0 none c d (omega arith) refl

-- What an attempt answers where the function does not fail.
abbrev fault : {E : Type 0} → (begin set_timeout commit : Option E) → Option (Failure E)
fault (some e) t commit = some (begin_failed e)
fault none (some e) commit = some (set_timeout_failed e)
fault none none (some e) = some (commit_failed e)
fault none none none = none

abbrev pub fault_of : {E : Type 0} → LockConfig → Attempt E → Option (Failure E)
fault_of cfg attempt = fault attempt.begin (attempt.set_timeout cfg.timeout_ms) attempt.commit

abbrev pub IsLockTimeout : {E : Type 0} → (E → Option String) → Option (Failure E) → Type 0
IsLockTimeout pg_code none = ⊥
IsLockTimeout pg_code (some e) = is_lock_timeout_error pg_code e ≡ true

module _ {E C D : Type 0} (fn : Body E C D) (works : (c : C) (d : D) → (fn c d).0 ≡ none) where
  finish-fault :
      (commit : Option E) (d : D) (r : Option E × (C × D))
      → r.0 ≡ none
      → (finish commit d r).0 ≡ fault none none commit
  finish-fault commit d (some e, (c', d')) h = absurd (ground arith)
  finish-fault none d (none, (c', d')) h = refl
  finish-fault (some e) d (none, (c', d')) h = refl

  execute-fault :
      (begin set_timeout commit : Option E) (c : C) (d : D)
      → (execute begin set_timeout commit fn c d).0 ≡ fault begin set_timeout commit
  execute-fault (some e) t commit c d = refl
  execute-fault none (some e) commit c d = refl
  execute-fault none none commit c d = finish-fault commit d (fn c d) (works c d)

module _ {E C D : Type 0} (pg_code : E → Option String)
    (rest : Failure E → C → D → Option (LockError E) × (C × D)) where
  after_attempt-done :
      (r : Option (Failure E) × (C × D)) → r.0 ≡ none → (after_attempt rest pg_code r).0 ≡ none
  after_attempt-done (none, (c, d)) h = refl
  after_attempt-done (some e, (c, d)) h = absurd (ground arith)

  after_attempt-timeout :
      (r : Option (Failure E) × (C × D))
      → IsLockTimeout pg_code r.0
      → ((e : Failure E) (c : C) (d : D) → (rest e c d).0 ≡ none)
      → (after_attempt rest pg_code r).0 ≡ none
  after_attempt-timeout (none, (c, d)) h later = absurd h
  after_attempt-timeout (some e, (c, d)) h later = rw h (later e c d)

module _ {E C D : Type 0} (pg_code : E → Option String) (cfg : LockConfig) (env : ℕ → Attempt E)
    (others : ℕ → D → D) (fn : Body E C D) (works : (c : C) (d : D) → (fn c d).0 ≡ none) (k : ℕ)
    (waits : (j : ℕ) → j ≤ k → wait_before env j ≡ none)
    (timeouts : (j : ℕ) → j < k → IsLockTimeout pg_code (fault_of cfg (env j)))
    (free : fault_of cfg (env k) ≡ none) where
  attempts-succeeds :
      (left n : ℕ) (last : Option (Failure E)) (c : C) (d : D)
      → n ≤ k
      → k < n + left
      → (attempts pg_code cfg env others fn left n last c d).0 ≡ none
  unfolding attempts execute_with_lock
  attempts-succeeds zero n last c d le lt = absurd (omega arith)
  attempts-succeeds (suc left) n last c d le lt =
      rw (attempts, waits n le)
        (elim (Bool-cases (ltb n k)) [
          | inl before ↦
              after_attempt-timeout pg_code _ _
                (subst (IsLockTimeout pg_code)
                  (sym (
                    execute-fault fn works (env n).begin ((env n).set_timeout cfg.timeout_ms)
                      (env n).commit c (others n d)))
                  (timeouts n (ground arith)))
                (λ e c' d'.
                  attempts-succeeds left (suc n) (some e) c' d' (ground arith) (omega arith))
          | inr now ↦
              let here : n ≡ k = ground arith in
              after_attempt-done pg_code _ _ (
                execute-fault fn works (env n).begin ((env n).set_timeout cfg.timeout_ms)
                  (env n).commit c (others n d)
                ∙ ap (λ i. fault_of cfg (env i)) here
                ∙ free)
        ])

  -- Where the function itself does not fail, the context does not end, attempt k of at most
  -- MaxRetries + 1 meets no error, and the attempts before it meet lock timeouts only, WithLock
  -- returns no error.
  pub with_lock-succeeds :
      (c : C) (d : D)
      → k < attempt_count cfg.max_retries
      → (with_lock pg_code cfg env others fn c d).0 ≡ none
  unfolding with_lock
  with_lock-succeeds c d lt =
      attempts-succeeds (attempt_count cfg.max_retries) 0 none c d (omega arith) (omega arith)
