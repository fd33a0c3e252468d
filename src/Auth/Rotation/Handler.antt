-- ===== src/Auth/Rotation/Handler.antt =====
-- internal/api/handlers/apikeys.go: what RotateAPIKey leaves for the middleware.
use bingsan.Prelude.{
  String, ◌≡◌, ◌≢◌, ap, ◌∙◌, Bool, true, false, Option, none, some, Memᴰ, inl, inr, ◌==◌, eq_iff,
  eq_refl, arith, Bool-cases, find-some, find-hit, some_of-false,
}
use bingsan.Prelude.Int.{ℤ, ◌<ℤ◌, shift}
use bingsan.Updates.Exec.{ok}
use bingsan.Auth.{Principal, KeyRow, AuthStore}
use bingsan.Auth.Credentials.{rotation_grace_period, is_expired}
use bingsan.Auth.Keys.{ApiKeyResponse, rotate_rows, is_taken, rotate_to, rotate_api_key}
use bingsan.Auth.Rotation.{IsKeyTable, Opens, differs, new_key-Opens, old_key-Opens}

module _ (hash : String → String) (store : AuthStore) (r : KeyRow) (m : Memᴰ r store.keys)
    (table : IsKeyTable store.keys) (now : ℤ) (answer : ApiKeyResponse) (after : AuthStore) where
  -- What a rotation that succeeds has done.
  abbrev HasRotated : Type 0
  HasRotated =
      (is_taken r.id (hash answer.key) store.keys ≡ false)
      × (after
          ≡ record store { keys = rotate_rows r.id (hash answer.key) r.key_hash now store.keys })

  rotate_to-HasRotated :
      (down : Bool) (random : Option String)
      → rotate_to hash r down random now store ≡ (ok answer, after)
      → HasRotated
  rotate_to-HasRotated down none h = absurd (ground arith)
  rotate_to-HasRotated true (some raw_key) h = absurd (ground arith)
  rotate_to-HasRotated false (some raw_key) h =
      elim (Bool-cases (is_taken r.id (hash raw_key) store.keys)) [
        | inl taken ↦ absurd (ground arith)
        | inr free ↦ let e : raw_key ≡ answer.key = ground arith in rw (← e) (free, ground arith)
      ]

  rotate_api_key-HasRotated :
      (caller : Principal) (down : Bool × Bool) (random : Option String)
      → rotate_api_key hash (some caller) r.id down random now store ≡ (ok answer, after)
      → HasRotated
  unfolding rotate_api_key
  rotate_api_key-HasRotated caller (true, down) random h = absurd (ground arith)
  rotate_api_key-HasRotated caller (false, down) random h =
      let (y, e) = find-hit (λ x. x.id == r.id) store.keys m (eq_refl r.id) in
      let (hit, k) = find-some (λ x. x.id == r.id) store.keys e in
      let same : y ≡ r = (table y r k m).0 ((eq_iff y.id r.id).0 hit) in
      let found = e ∙ ap some same in rotate_to-HasRotated down random (ground arith)

  -- What a rotation needs of the rows beside its own.
  fresh_hash :
      is_taken r.id (hash answer.key) store.keys ≡ false
      → (x : KeyRow) → Memᴰ x store.keys
      → x.id ≢ r.id
      → x.key_hash ≢ hash answer.key
  fresh_hash free x k other same =
      let e = some_of-false _ store.keys free k in
      let d = differs x.id r.id other in
      let f = (eq_iff x.key_hash (hash answer.key)).1 same in absurd (ground arith)

  module _ (caller : Principal) (down : Bool × Bool) (random : Option String)
      (h : rotate_api_key hash (some caller) r.id down random now store ≡ (ok answer, after))
      (apart : hash answer.key ≢ r.key_hash) (t : ℤ)
      (valid : is_expired t r.expires_at ≡ false) where
    -- After a rotation that succeeds, the key of its answer opens the row, for a principal of type
    -- "api_key", at each time at which the row has not expired; for a table whose ids and key hashes
    -- are unique, where the new hash is not the row's.
    pub rotate_api_key-Renews : Opens hash t answer.key "api_key" r after
    rotate_api_key-Renews =
        let (free, is) = rotate_api_key-HasRotated caller down random h in
        new_key-Opens hash store r m table answer.key now apart (fresh_hash free) after
          (ap (λ s. s.keys) is) t valid

    -- During the 24 hours after a rotation that succeeds, the old key still opens the row, for a
    -- principal of type "api_key_rotated", at each time at which the row has not expired; for a table
    -- whose ids and key hashes are unique, where the new hash is not the row's and no other row has
    -- had the same key before.
    pub rotate_api_key-Opens :
        (old_key : String)
        → hash old_key ≡ r.key_hash
        → ((x : KeyRow) → Memᴰ x store.keys → x.id ≢ r.id → x.previous_key_hash ≢ some r.key_hash)
        → t <ℤ shift now rotation_grace_period
        → Opens hash t old_key "api_key_rotated" r after
    rotate_api_key-Opens old_key old unused soon =
        let (free, is) = rotate_api_key-HasRotated caller down random h in
        old_key-Opens hash store r m table answer.key now apart (fresh_hash free) after
          (ap (λ s. s.keys) is) t valid old_key old unused soon
