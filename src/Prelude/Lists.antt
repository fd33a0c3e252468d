-- ===== src/Prelude/Lists.antt =====
-- Lists measured by native numbers, and a predicate on every element.
use Prim.Native.Nat.{ℕ, suc}
use mathlib.Core.List.{List, [], ◌∷◌, ◌++◌, Memᴰ}
use mathlib.Core.Path.{◌≡◌, refl, sym, subst}
use mathlib.Core.Logic.{inl, inr}
use mathlib.Core.Bool.{Bool, true, false, not, ◌||◌}
use mathlib.Core.Option.{Option, none, some}
use native.Mathlib.Omega.{arith}
use bingsan.Prelude.Tests.{Bool-cases}

module _ {ℓ} {A : Type ℓ} where
  abbrev pub length : List A → ℕ
  length [] = 0
  length (x ∷ xs) = suc (length xs)

abbrev pub All {ℓ κ} : {A : Type ℓ} → (A → Type κ) → List A → Type κ
All P [] = Unit
All P (x ∷ xs) = P x × All P xs

-- The first element that passes a test: a query for one row.
module _ {ℓ} {A : Type ℓ} where
  abbrev pub find : (A → Bool) → List A → Option A
  find p [] = none
  find p (x ∷ xs) = let rest = find p xs in elim (p x) [ true ↦ some x | false ↦ rest ]

  -- Whether an element passes a test.
  abbrev pub some_of : (A → Bool) → List A → Bool
  some_of p [] = false
  some_of p (x ∷ xs) = p x || some_of p xs

  pub find-some :
      (p : A → Bool) (xs : List A) {x : A} → find p xs ≡ some x → (p x ≡ true) × Memᴰ x xs
  find-some p [] h = absurd (ground arith)
  find-some p (y ∷ xs) {x} h = elim (Bool-cases (p y)) [
    | inl hit ↦
        let same : y ≡ x = ground arith in (subst (λ z. p z ≡ true) same hit, Memᴰ.head (sym same))
    | inr miss ↦ let (q, m) = find-some p xs (ground arith) in (q, Memᴰ.tail m)
  ]

  -- Where no element passes a test, each has what failing it means.
  pub some_of-All {κ} :
      (P : A → Type κ) (p : A → Bool) (xs : List A)
      → ((x : A) → p x ≡ false → P x)
      → some_of p xs ≡ false
      → All P xs
  some_of-All P p [] h n = tt
  some_of-All P p (x ∷ xs) h n = (h x (ground arith), some_of-All P p xs h (ground arith))

  pub find-none : (p : A → Bool) (xs : List A) → find p xs ≡ none → some_of p xs ≡ false
  find-none p [] h = refl
  find-none p (x ∷ xs) h = elim (Bool-cases (p x)) [
    | inl hit ↦ absurd (ground arith)
    | inr miss ↦ let rest = find-none p xs (ground arith) in ground arith
  ]

  -- A search for an element that is there finds one.
  pub find-hit :
      (p : A → Bool) (xs : List A) {x : A} → Memᴰ x xs → p x ≡ true → (y : A) × (find p xs ≡ some y)
  find-hit p [] m h = elim m [ ]
  find-hit p (y ∷ xs) {x} (Memᴰ.head e) h =
      let hit : p y ≡ true = subst (λ z. p z ≡ true) e h in (y, ground arith)
  find-hit p (y ∷ xs) (Memᴰ.tail m) h = elim (Bool-cases (p y)) [
    | inl hit ↦ (y, ground arith)
    | inr miss ↦ let (z, e) = find-hit p xs m h in (z, ground arith)
  ]

  -- A search among elements that all fail finds none.
  pub find-miss :
      (p : A → Bool) (xs : List A) → ((x : A) → Memᴰ x xs → p x ≡ false) → find p xs ≡ none
  find-miss p [] h = refl
  find-miss p (y ∷ xs) h =
      let here = h y (Memᴰ.head refl) in
      let rest = find-miss p xs (λ x m. h x (Memᴰ.tail m)) in ground arith

  pub some_of-true :
      (p : A → Bool) (xs : List A) → some_of p xs ≡ true → (x : A) × Memᴰ x xs × (p x ≡ true)
  some_of-true p [] h = absurd (ground arith)
  some_of-true p (y ∷ xs) h = elim (Bool-cases (p y)) [
    | inl hit ↦ (y, Memᴰ.head refl, hit)
    | inr miss ↦ let (x, m, e) = some_of-true p xs (ground arith) in (x, Memᴰ.tail m, e)
  ]

  pub some_of-false :
      (p : A → Bool) (xs : List A) {x : A} → some_of p xs ≡ false → Memᴰ x xs → p x ≡ false
  some_of-false p [] h m = elim m [ ]
  some_of-false p (y ∷ xs) h (Memᴰ.head e) = subst (λ z. p z ≡ false) (sym e) (ground arith)
  some_of-false p (y ∷ xs) h (Memᴰ.tail m) = some_of-false p xs (ground arith) m

  pub find-last :
      (p : A → Bool) (xs : List A) {x : A}
      → some_of p xs ≡ false
      → p x ≡ true
      → find p (xs ++ x ∷ []) ≡ some x
  find-last p [] h k = ground arith
  find-last p (y ∷ xs) {x} h k = let rest = find-last p xs {x = x} (ground arith) k in ground arith

  pub some_of-less :
      (p q : A → Bool) (xs : List A)
      → ((x : A) → p x ≡ true → q x ≡ true)
      → some_of q xs ≡ false
      → some_of p xs ≡ false
  some_of-less p q [] h n = refl
  some_of-less p q (x ∷ xs) h n =
      let here = h x in let rest = some_of-less p q xs h (ground arith) in ground arith

  -- The elements that pass a test.
  unfoldable pub keep : (A → Bool) → List A → List A
  keep k [] = []
  keep k (x ∷ xs) = let rest = keep k xs in elim (k x) [ true ↦ x ∷ rest | false ↦ rest ]

  pub find_kept :
      (k p : A → Bool) (xs : List A) {x : A}
      → find p xs ≡ some x
      → k x ≡ true
      → find p (keep k xs) ≡ some x
  unfolding keep
  find_kept k p [] h e = absurd (ground arith)
  find_kept k p (y ∷ xs) {x} h e = elim (Bool-cases (p y)) [
    | inl hit ↦
        let same : y ≡ x = ground arith in
        let kept : k y ≡ true = subst (λ z. k z ≡ true) (sym same) e in ground arith
    | inr miss ↦ let rest = find_kept k p xs {x = x} (ground arith) e in ground arith
  ]

  pub find_kept_none : (k p : A → Bool) (xs : List A) → find p xs ≡ none → find p (keep k xs) ≡ none
  unfolding keep
  find_kept_none k p [] h = refl
  find_kept_none k p (y ∷ xs) h = elim (Bool-cases (p y)) [
    | inl hit ↦ absurd (ground arith)
    | inr miss ↦ let rest = find_kept_none k p xs (ground arith) in ground arith
  ]

  -- What passes is still there, and it was there.
  pub keep-Memᴰ :
      (k : A → Bool) (xs : List A) {x : A} → Memᴰ x (keep k xs) → Memᴰ x xs × (k x ≡ true)
  unfolding keep
  keep-Memᴰ k [] m = elim m [ ]
  keep-Memᴰ k (y ∷ xs) m = go (k y) refl m (λ n. keep-Memᴰ k xs n)
    where
      go :
          (b : Bool) {x : A}
          → k y ≡ b
          → Memᴰ x (elim b [ true ↦ y ∷ keep k xs | false ↦ keep k xs ])
          → (Memᴰ x (keep k xs) → Memᴰ x xs × (k x ≡ true))
          → Memᴰ x (y ∷ xs) × (k x ≡ true)
      go true e (Memᴰ.head same) more = (Memᴰ.head same, subst (λ z. k z ≡ true) (sym same) e)
      go true e (Memᴰ.tail n) more = let (m, h) = more n in (Memᴰ.tail m, h)
      go false e n more = let (m, h) = more n in (Memᴰ.tail m, h)

  pub keep-all : (p : A → Bool) (xs : List A) → some_of p xs ≡ false → keep (λ x. not (p x)) xs ≡ xs
  unfolding keep
  keep-all p [] h = refl
  keep-all p (x ∷ xs) h = let rest = keep-all p xs (ground arith) in ground arith

  pub some_of-keep : (p : A → Bool) (xs : List A) → some_of p (keep (λ x. not (p x)) xs) ≡ false
  unfolding keep
  some_of-keep p [] = refl
  some_of-keep p (x ∷ xs) = let rest = some_of-keep p xs in ground arith

  pub some_of-last :
      (p : A → Bool) (xs : List A) {x : A} → p x ≡ true → some_of p (xs ++ x ∷ []) ≡ true
  some_of-last p [] h = ground arith
  some_of-last p (y ∷ xs) {x} h = let rest = some_of-last p xs {x = x} h in ground arith

-- Two lists of one length, whose elements are related one by one.
pub data Pointwise {A B : Type 0} (R : A → B → Type 0) : List A → List B → Type 0 where
  empty : Pointwise R [] []
  more :
      {x : A} {y : B} {xs : List A} {ys : List B}
      → R x y
      → Pointwise R xs ys
      → Pointwise R (x ∷ xs) (y ∷ ys)
