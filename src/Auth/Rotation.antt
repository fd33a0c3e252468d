-- ===== src/Auth/Rotation.antt =====
-- internal/api/handlers/apikeys.go with internal/api/middleware/auth.go: which keys open a row that
-- has been rotated.
pub mod Handler
use bingsan.Prelude.{
  String, ◌≡◌, ◌≢◌, refl, sym, subst, ap, ◌∙◌, Bool, true, false, Option, none, some, List, [], ◌∷◌,
  Memᴰ, ◌⊎◌, inl, inr, ◌==◌, eq_iff, eq_refl, arith, Bool-cases, find, find-some, find-hit,
  find-miss, some_of-false,
}
use bingsan.Prelude.Int.{ℤ, ◌<ℤ◌, shift}
use bingsan.Updates.Exec.{ok}
use bingsan.Auth.{Principal, KeyRow, AuthStore}
use bingsan.Auth.Credentials.{
  Faults, rotation_grace_period, key_principal, validate_api_key, is_expired, is_text,
  is_current_key, is_previous_key,
}
use bingsan.Auth.Keys.{ApiKeyResponse, rotate_rows, is_taken, rotate_to, rotate_api_key}

abbrev pub all_up : Faults
all_up = record {
  token_query = false;
  key_query = false;
  previous_query = false;
  last_used = false;
}

module _ (id new_hash old_hash : String) (now : ℤ) where
  abbrev pub rotated : KeyRow → KeyRow
  rotated r = record r {
    key_hash = new_hash;
    previous_key_hash = some old_hash;
    rotated_at = some now;
  }

  -- A row after the rotation is the one that was rotated, or another as it was.
  pub rotate_rows-origin :
      (rows : List KeyRow) {y : KeyRow}
      → Memᴰ y (rotate_rows id new_hash old_hash now rows)
      → (x : KeyRow) × Memᴰ x rows × (((x.id ≡ id) × (y ≡ rotated x)) ⊎ ((x.id ≢ id) × (y ≡ x)))
  unfolding rotate_rows
  rotate_rows-origin [] m = elim m [ ]
  rotate_rows-origin (r ∷ rows) (Memᴰ.head e) = elim (Bool-cases (r.id == id)) [
    | inl same ↦ (r, Memᴰ.head refl, inl ((eq_iff r.id id).0 same, ground arith))
    | inr other ↦ (
      r,
      Memᴰ.head refl,
      inr ((λ h. let t = (eq_iff r.id id).1 h in absurd (ground arith)), ground arith),
    )
  ]
  rotate_rows-origin (r ∷ rows) (Memᴰ.tail m) =
      let (x, n, h) = rotate_rows-origin rows m in (x, Memᴰ.tail n, h)

  pub rotate_rows-Memᴰ :
      (rows : List KeyRow) {x : KeyRow}
      → Memᴰ x rows
      → x.id ≡ id
      → Memᴰ (rotated x) (rotate_rows id new_hash old_hash now rows)
  unfolding rotate_rows
  rotate_rows-Memᴰ [] m h = elim m [ ]
  rotate_rows-Memᴰ (r ∷ rows) {x} (Memᴰ.head e) h =
      let same : (r.id == id) ≡ true = (eq_iff r.id id).1 (ap (λ z. z.id) (sym e) ∙ h) in
      Memᴰ.head (rw same (ap rotated e))
  rotate_rows-Memᴰ (r ∷ rows) (Memᴰ.tail m) h = Memᴰ.tail (rotate_rows-Memᴰ rows m h)

  module _ (rows : List KeyRow) (r : KeyRow) (m : Memᴰ r rows) (named : r.id ≡ id)
      (only : (x : KeyRow) → Memᴰ x rows → x.id ≡ id → x ≡ r) where
    -- A search among the rows finds the rotated one, if that passes and no other does.
    find-rotated :
        (p : KeyRow → Bool)
        → p (rotated r) ≡ true
        → ((x : KeyRow) → Memᴰ x rows → x.id ≢ id → p x ≡ false)
        → find p (rotate_rows id new_hash old_hash now rows) ≡ some (rotated r)
    find-rotated p h others =
        let (y, e) = find-hit p _ (rotate_rows-Memᴰ rows m named) h in
        let (hit, n) = find-some p _ e in
        let (x, k, from) = rotate_rows-origin rows n in
        elim from [
          | inl (same, is) ↦ e ∙ ap some (is ∙ ap rotated (only x k same))
          | inr (other, is) ↦
              let no = others x k other in
              let yes : p x ≡ true = subst (λ z. p z ≡ true) is hit in absurd (ground arith)
        ]

    find-none :
        (p : KeyRow → Bool)
        → p (rotated r) ≡ false
        → ((x : KeyRow) → Memᴰ x rows → x.id ≢ id → p x ≡ false)
        → find p (rotate_rows id new_hash old_hash now rows) ≡ none
    find-none p h others = find-miss p _ (λ y n.
        let (x, k, from) = rotate_rows-origin rows n in
        elim from [
          | inl (same, is) ↦ subst (λ z. p z ≡ false) (sym (is ∙ ap rotated (only x k same))) h
          | inr (other, is) ↦ subst (λ z. p z ≡ false) (sym is) (others x k other)
        ])

-- What the keys and the unique columns of `api_keys` give.
abbrev pub IsKeyTable : List KeyRow → Type 0
IsKeyTable rows =
    (x y : KeyRow)
    → Memᴰ x rows
    → Memᴰ y rows
    → ((x.id ≡ y.id → x ≡ y) × (x.key_hash ≡ y.key_hash → x ≡ y))

-- The key opens the row at the time `t`, for a principal of this type.
abbrev pub Opens : (String → String) → ℤ → String → String → KeyRow → AuthStore → Type 0
Opens hash t key type r store =
    (validate_api_key hash all_up t key store).0 ≡ ok (key_principal type r)

is_text_none : (s : String) (o : Option String) → o ≢ some s → is_text s o ≡ false
is_text_none s none h = refl
is_text_none s (some t) h = elim (Bool-cases (t == s)) [
  | inl e ↦ absurd (h (ap some ((eq_iff t s).0 e)))
  | inr e ↦ e
]

pub differs : (s t : String) → s ≢ t → (s == t) ≡ false
differs s t h = elim (Bool-cases (s == t)) [ inl e ↦ absurd (h ((eq_iff s t).0 e)) | inr e ↦ e ]

module _ (hash : String → String) (store : AuthStore) (r : KeyRow) (m : Memᴰ r store.keys)
    (table : IsKeyTable store.keys) (new_key : String) (now : ℤ) (apart : hash new_key ≢ r.key_hash)
    (fresh : (x : KeyRow) → Memᴰ x store.keys → x.id ≢ r.id → x.key_hash ≢ hash new_key)
    (after : AuthStore)
    (rotates : after.keys ≡ rotate_rows r.id (hash new_key) r.key_hash now store.keys) (t : ℤ)
    (valid : is_expired t r.expires_at ≡ false) where
  only : (x : KeyRow) → Memᴰ x store.keys → x.id ≡ r.id → x ≡ r
  only x k h = (table x r k m).0 h

  pub new_key-Opens : Opens hash t new_key "api_key" r after
  unfolding validate_api_key
  new_key-Opens =
      let current =
        find-rotated r.id (hash new_key) r.key_hash now store.keys r m refl only
          (is_current_key (hash new_key)) (eq_refl (hash new_key))
          (λ x k h. differs x.key_hash (hash new_key) (fresh x k h)) in
      rw (rotates, current, valid) refl

  pub old_key-Opens :
      (old_key : String)
      → hash old_key ≡ r.key_hash
      → ((x : KeyRow) → Memᴰ x store.keys → x.id ≢ r.id → x.previous_key_hash ≢ some r.key_hash)
      → t <ℤ shift now rotation_grace_period
      → Opens hash t old_key "api_key_rotated" r after
  unfolding validate_api_key
  old_key-Opens old_key old unused soon =
      let current =
        find-none r.id (hash new_key) r.key_hash now store.keys r m refl only
          (is_current_key r.key_hash) (differs _ _ apart)
          (λ x k h.
            differs x.key_hash r.key_hash (λ e. h (ap (λ z. z.id) ((table x r k m).1 e)))) in
      let same = eq_refl r.key_hash in
      let previous =
        find-rotated r.id (hash new_key) r.key_hash now store.keys r m refl only
          (is_previous_key r.key_hash t) (ground arith)
          (λ x k h.
            let no = is_text_none r.key_hash x.previous_key_hash (unused x k h) in ground arith) in
      rw (rotates, old, current, previous, valid) refl
