-- ===== src/Leader/Tests.antt =====
-- The electors over a lock server that is a table of holders.
use bingsan.Prelude.{
  ℕ, ◌≡◌, ◌≢◌, refl, ap, ◌∙◌, String, Bool, true, false, Option, none, some, ◌&&◌, arith, eqb,
  if◌then◌else◌,
}
use bingsan.Prelude.Int.{ℤ, eqb_ℤ, eqb_ℤ_iff}
use bingsan.Leader.{is_leader, lock_key_cleanup, new_elector, try_acquire}
use bingsan.Leader.System.{
  LockServer, IsAdvisory, may_lock, without, System, start, LossyStep, acquires, after_acquire,
  Reach, here, next,
}
use bingsan.Leader.Exclusion.{OneSession, Reach-one_leader}
use bingsan.Leader.Loss.{Reach-two_leaders}

abbrev Holders : Type 0
Holders = ℤ → Option ℕ

abbrev frees : ℕ → Option ℕ → Bool
frees n none = false
frees n (some m) = eqb m n

-- Each lock is taken once, and an unlock frees it.
abbrev table : LockServer Holders
table = record {
  empty = λ k. none;
  holder = λ k s. s k;
  try_lock =
      λ n k s. (may_lock n (s k), λ j. if eqb_ℤ k j && may_lock n (s k) then some n else s j);
  unlock = λ n k s. (frees n (s k), λ j. if eqb_ℤ k j && frees n (s k) then none else s j);
  end_session = λ n s j. without n (s j);
}

unlock-other :
    (n m : ℕ) (k j : ℤ) (s : Holders) → m ≢ n → s j ≡ some m → (table.unlock n k s).1 j ≡ some m
unlock-other n m k j s apart h =
    elim (eqb_ℤ k j) as (λ b. eqb_ℤ k j ≡ b → (if b && frees n (s k) then none else s j) ≡ some m) [
      | true ↦ λ same.
          let e = (eqb_ℤ_iff k j).0 same in let f : s k ≡ some m = ap s e ∙ h in ground arith
      | false ↦ λ other. h
    ]
      refl

table-IsAdvisory : IsAdvisory table
table-IsAdvisory = record {
  empty_free = λ k. refl;
  try_lock_answer = λ n k s. refl;
  try_lock_holder = λ n k j s. refl;
  unlock_other = unlock-other;
  unlock_same = λ n k j s other. ground arith;
  end_holder = λ n j s. refl;
}

abbrev node_names : ℕ → String
node_names i = "node"

abbrev one_acquired : System Holders
one_acquired = after_acquire table 1 1 lock_key_cleanup (start table node_names)

leads : is_leader lock_key_cleanup (one_acquired.electors 1) ≡ true
unfolding is_leader try_acquire new_elector
leads = refl

abbrev node : ℕ
node = 1

Reach-one_leader_example : node ≡ node
Reach-one_leader_example =
    Reach-one_leader table table-IsAdvisory node_names {t = one_acquired}
      (next here (acquires 1 1 lock_key_cleanup refl)) node node lock_key_cleanup leads leads

Reach-two_leaders_example :
    (t : System Holders) × Reach (LossyStep table OneSession) (start table node_names) t
    × (is_leader lock_key_cleanup (t.electors 1) ≡ true)
    × (is_leader lock_key_cleanup (t.electors 2) ≡ true)
Reach-two_leaders_example =
    Reach-two_leaders table table-IsAdvisory node_names 1 2 lock_key_cleanup (omega arith)
