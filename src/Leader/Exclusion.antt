-- ===== src/Leader/Exclusion.antt =====
-- Two nodes and one lock: sessions that live as long as their node.
use bingsan.Prelude.{
  ℕ, ◌≡◌, ◌≢◌, String, Bool, true, false, some, List, [], ◌∷◌, inl, inr, arith, eqb, Bool-cases,
}
use bingsan.Prelude.Int.{ℤ, eqb_ℤ, eqb_ℤ_iff}
use bingsan.Updates.Exec.{ok}
use bingsan.Leader.{Elector, new_elector, try_acquire, release, release_all, is_leader}
use bingsan.Leader.System.{
  LockServer, IsAdvisory, System, set_elector, start, Step, acquires, releases, releases_all,
  lock_on, unlock_on, unlock_all, Reach, here, next,
}

-- Each node has one session, its own.
abbrev pub OneSession : ℕ → ℕ → Type 0
OneSession i n = n ≡ i

release_all-none : (l : ℤ) (e : Elector) → ¬ (is_leader l (release_all e) ≡ true)
unfolding is_leader release_all
release_all-none l e h = ground arith

new_elector-none : (l : ℤ) (name : String) → ¬ (is_leader l (new_elector name) ≡ true)
unfolding is_leader new_elector
new_elector-none l name h = ground arith

module _ {S : Type 0} (server : LockServer S) (laws : IsAdvisory server) where
  -- A lock that a node believes to hold is held by its session.
  abbrev HoldsWhatItSays : System S → Type 0
  HoldsWhatItSays s =
      (i : ℕ) (k : ℤ) → is_leader k (s.electors i) ≡ true → server.holder k s.server ≡ some i

  lock_on-other :
      (i j : ℕ) (k l : ℤ) (b : Bool) (s : S)
      → server.holder l s ≡ some j
      → server.holder l (lock_on server i k b s) ≡ some j
  lock_on-other i j k l true s h = h
  lock_on-other i j k l false s h = grind (arith, laws.try_lock_holder i k l s, eqb_ℤ_iff k l)

  unlock_on-other :
      (i j : ℕ) (k l : ℤ) (b : Bool) (s : S)
      → j ≢ i
      → server.holder l s ≡ some j
      → server.holder l (unlock_on server i k b s) ≡ some j
  unlock_on-other i j k l true s apart h = laws.unlock_other i j k l s apart h
  unlock_on-other i j k l false s apart h = h

  unlock_all-other :
      (i j : ℕ) (ks : List ℤ) (l : ℤ) (s : S)
      → j ≢ i
      → server.holder l s ≡ some j
      → server.holder l (unlock_all server i ks s) ≡ some j
  unlock_all-other i j [] l s apart h = h
  unlock_all-other i j (k ∷ ks) l s apart h =
      unlock_all-other i j ks l (server.unlock i k s).1 apart (laws.unlock_other i j k l s apart h)

  -- What node i believes after its call is so on the server after the call.
  try_acquire-own :
      (i : ℕ) (k l : ℤ) (e : Elector) (s : S)
      → ((m : ℤ) → is_leader m e ≡ true → server.holder m s ≡ some i)
      → is_leader l (try_acquire {E = Unit {0}} k (ok (server.try_lock i k s).0) e).1 ≡ true
      → server.holder l (lock_on server i k (e.locks k) s) ≡ some i
  unfolding is_leader try_acquire
  try_acquire-own i k l e s h leads = elim (Bool-cases (e.locks k)) [
    | inl held ↦ rw held (h l (ground arith))
    | inr new ↦ elim (Bool-cases (server.try_lock i k s).0) [
      | inr refused ↦ rw new (lock_on-other i i k l false s (h l (ground arith)))
      | inl given ↦ elim (Bool-cases (eqb_ℤ k l)) [
        | inl same ↦
            rw new (ground (arith, laws.try_lock_holder i k l s, laws.try_lock_answer i k s))
        | inr apart ↦ rw new (lock_on-other i i k l false s (h l (ground arith)))
      ]
    ]
  ]

  release-own :
      (i : ℕ) (k l : ℤ) (e : Elector) (s : S)
      → ((m : ℤ) → is_leader m e ≡ true → server.holder m s ≡ some i)
      → is_leader l (release {E = Unit {0}} k (ok (server.unlock i k s).0) e).1 ≡ true
      → server.holder l (unlock_on server i k (e.locks k) s) ≡ some i
  unfolding is_leader release
  release-own i k l e s h leads = elim (Bool-cases (e.locks k)) [
    | inr not_held ↦ rw not_held (h l (ground arith))
    | inl held ↦ elim (Bool-cases (eqb_ℤ k l)) [
      | inl same ↦ absurd (ground arith)
      | inr apart ↦ rw held (ground (arith, laws.unlock_same i k l s, h l))
    ]
  ]

  -- A step of node i keeps what holds for the others and for itself.
  node_step :
      (i : ℕ) (e : Elector) (after : S) (s : System S)
      → ((k : ℤ) → is_leader k e ≡ true → server.holder k after ≡ some i)
      → ((j : ℕ) (k : ℤ)
          → j ≢ i
          → server.holder k s.server ≡ some j
          → server.holder k after ≡ some j)
      → HoldsWhatItSays s
      → HoldsWhatItSays (record { server = after; electors = set_elector i e s.electors })
  node_step i e after s own other h j k leads = elim (Bool-cases (eqb i j)) [
    | inl same ↦ let here : i ≡ j = ground arith in rw (← here) (own k (ground arith))
    | inr apart ↦ other j k (ground arith) (h j k (ground arith))
  ]

  Step-HoldsWhatItSays :
      {s t : System S} → Step server OneSession s t → HoldsWhatItSays s → HoldsWhatItSays t
  Step-HoldsWhatItSays {s} (acquires i n k one) h = rw one (
      node_step i _ _ s (λ l. try_acquire-own i k l (s.electors i) s.server (h i))
        (λ j l _ held. lock_on-other i j k l ((s.electors i).locks k) s.server held) h)
  Step-HoldsWhatItSays {s} (releases i n k one) h = rw one (
      node_step i _ _ s (λ l. release-own i k l (s.electors i) s.server (h i))
        (λ j l apart held. unlock_on-other i j k l ((s.electors i).locks k) s.server apart held) h)
  Step-HoldsWhatItSays {s} (releases_all i n ks one) h = rw one (
      node_step i _ _ s (λ l leads. absurd (release_all-none l (s.electors i) leads))
        (λ j l apart held. unlock_all-other i j ks l s.server apart held) h)

  Reach-HoldsWhatItSays :
      (names : ℕ → String) {t : System S}
      → Reach (Step server OneSession) (start server names) t
      → HoldsWhatItSays t
  Reach-HoldsWhatItSays names here i k leads = absurd (new_elector-none k (names i) leads)
  Reach-HoldsWhatItSays names (next r step) i k leads =
      Step-HoldsWhatItSays step (Reach-HoldsWhatItSays names r) i k leads

  -- Where each node makes its queries on one session of its own, and no session ends, there is at
  -- most one leader for a key: in every state that any nodes reach by TryAcquire, Release and
  -- ReleaseAll, in any order and on any keys, two nodes that lead for one key are one.
  pub Reach-one_leader :
      (names : ℕ → String) {t : System S}
      → Reach (Step server OneSession) (start server names) t
      → (i j : ℕ) (k : ℤ) → is_leader k (t.electors i) ≡ true
      → is_leader k (t.electors j) ≡ true
      → i ≡ j
  Reach-one_leader names {t} r i j k leads leads' =
      let h = Reach-HoldsWhatItSays names r i k leads in
      let h' = Reach-HoldsWhatItSays names r j k leads' in ground (arith, h, h')
