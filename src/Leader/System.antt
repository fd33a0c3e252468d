-- ===== src/Leader/System.antt =====
-- Nodes with electors over one PostgreSQL, whose advisory locks are an interface: the operations on
-- a lock server that internal/leader/election.go calls, and their documented laws.
use bingsan.Prelude.{
  ℕ, ◌≡◌, ◌≢◌, String, Bool, true, false, Option, none, some, List, [], ◌∷◌, eqb, ◌&&◌,
  if◌then◌else◌,
}
use bingsan.Prelude.Int.{ℤ, eqb_ℤ}
use bingsan.Updates.Exec.{Result, ok}
use bingsan.Leader.{Elector, new_elector, try_acquire, release, release_all}

-- Sessions are numbered. A lock is free or is held by a session.
pub record LockServer (S : Type 0) : Type 0 where
  pub empty : S
  pub holder : ℤ → S → Option ℕ
  pub try_lock : ℕ → ℤ → S → Bool × S
  pub unlock : ℕ → ℤ → S → Bool × S
  pub end_session : ℕ → S → S

-- A session may lock what is free or its own.
abbrev pub may_lock : ℕ → Option ℕ → Bool
may_lock n none = true
may_lock n (some m) = eqb m n

abbrev pub without : ℕ → Option ℕ → Option ℕ
without n none = none
without n (some m) = if eqb m n then none else some m

-- Locks of a session may be taken several times, so an unlock need not free its lock; but it frees
-- no lock of another session. The end of a session frees all of its locks and no other.
pub record IsAdvisory {S : Type 0} (server : LockServer S) : Type 0 where
  pub empty_free : (k : ℤ) → server.holder k server.empty ≡ none
  pub try_lock_answer :
      (n : ℕ) (k : ℤ) (s : S) → (server.try_lock n k s).0 ≡ may_lock n (server.holder k s)
  pub try_lock_holder :
      (n : ℕ) (k j : ℤ) (s : S)
      → server.holder j (server.try_lock n k s).1
        ≡ (if eqb_ℤ k j && may_lock n (server.holder k s) then some n else server.holder j s)
  pub unlock_other :
      (n m : ℕ) (k j : ℤ) (s : S)
      → m ≢ n
      → server.holder j s ≡ some m
      → server.holder j (server.unlock n k s).1 ≡ some m
  pub unlock_same :
      (n : ℕ) (k j : ℤ) (s : S)
      → eqb_ℤ k j ≡ false
      → server.holder j (server.unlock n k s).1 ≡ server.holder j s
  pub end_holder :
      (n : ℕ) (j : ℤ) (s : S)
      → server.holder j (server.end_session n s) ≡ without n (server.holder j s)

-- Node number i has the elector `electors i`.
pub record System (S : Type 0) : Type 0 where
  pub server : S
  pub electors : ℕ → Elector

abbrev pub set_elector : ℕ → Elector → (ℕ → Elector) → ℕ → Elector
set_elector i e electors j = if eqb i j then e else electors j

module _ {S : Type 0} (server : LockServer S) where
  abbrev pub start : (ℕ → String) → System S
  start names = record { server = server.empty; electors = λ i. new_elector (names i) }

  -- A call that holds its lock already makes no query.
  abbrev pub lock_on : ℕ → ℤ → Bool → S → S
  lock_on n k true s = s
  lock_on n k false s = (server.try_lock n k s).1

  abbrev pub unlock_on : ℕ → ℤ → Bool → S → S
  unlock_on n k true s = (server.unlock n k s).1
  unlock_on n k false s = s

  -- The unlocks of `ReleaseAll` that reach the server, one by one.
  abbrev pub unlock_all : ℕ → List ℤ → S → S
  unlock_all n [] s = s
  unlock_all n (k ∷ ks) s = unlock_all n ks (server.unlock n k s).1

  -- A step of node i whose query runs on session n of its pool.
  abbrev pub after_acquire : ℕ → ℕ → ℤ → System S → System S
  after_acquire i n k s =
      let e = s.electors i in
      let answer : Result (Unit {0}) Bool = ok (server.try_lock n k s.server).0 in
      record {
        server = lock_on n k (e.locks k) s.server;
        electors = set_elector i (try_acquire k answer e).1 s.electors;
      }

  abbrev pub after_release : ℕ → ℕ → ℤ → System S → System S
  after_release i n k s =
      let e = s.electors i in
      let answer : Result (Unit {0}) Bool = ok (server.unlock n k s.server).0 in
      record {
        server = unlock_on n k (e.locks k) s.server;
        electors = set_elector i (release k answer e).1 s.electors;
      }

  abbrev pub after_release_all : ℕ → ℕ → List ℤ → System S → System S
  after_release_all i n ks s = record {
    server = unlock_all n ks s.server;
    electors = set_elector i (release_all (s.electors i)) s.electors;
  }

  -- Queries that fail leave the server as it is; then only `ReleaseAll` changes an elector, and that
  -- is `release_all` with no keys. `Sessions i n` says that session n is of the pool of node i.
  pub data Step (Sessions : ℕ → ℕ → Type 0) (s : System S) : System S → Type 0 where
    acquires : (i n : ℕ) (k : ℤ) → Sessions i n → Step Sessions s (after_acquire i n k s)
    releases : (i n : ℕ) (k : ℤ) → Sessions i n → Step Sessions s (after_release i n k s)
    releases_all :
        (i n : ℕ) (ks : List ℤ) → Sessions i n → Step Sessions s (after_release_all i n ks s)

  -- Besides, a session may end, as a pool ends the connections that are old or idle.
  pub data LossyStep (Sessions : ℕ → ℕ → Type 0) (s : System S) : System S → Type 0 where
    steps : {t : System S} → Step Sessions s t → LossyStep Sessions s t
    loses : (n : ℕ) → LossyStep Sessions s (record s { server = server.end_session n s.server })

pub data Reach {T : Type 0} (R : T → T → Type 0) (s : T) : T → Type 0 where
  here : Reach R s s
  next : {t u : T} → Reach R s t → R t u → Reach R s u
