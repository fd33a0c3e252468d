-- ===== src/Tasks/Cleanup.antt =====
-- internal/background/tasks.go with internal/api/middleware/auth.go: what a cleanup leaves of the
-- tokens and the keys that open something.
use bingsan.Prelude.{
  String, ◌≡◌, refl, sym, ap, ◌∙◌, Bool, true, false, not, Option, none, some, List, inl, inr,
  arith, Bool-cases, Option-cases, keep, find, find-some, find_kept, find_kept_none,
}
use bingsan.Prelude.Int.{ℤ, ◌≤ℤ◌, ltb_ℤ}
use bingsan.Updates.Exec.{ok}
use bingsan.Auth.{Principal, TokenRow, KeyRow, AuthStore}
use bingsan.Auth.Credentials.{
  is_valid_token, validate_bearer_token, validate_api_key, use_key, find_key, or_previous,
  is_expired, is_current_key, is_previous_key,
}
use bingsan.Auth.Rotation.{all_up}
use bingsan.Tasks.{Cleaned, is_past, delete_tokens, delete_keys, cleanup_expired_tokens}

module _ (hash : String → String) (now t : ℤ) (later : now ≤ℤ t) where
  -- What has not expired at the later time had not expired at the cleanup.
  unexpired : (o : Option ℤ) → is_expired t o ≡ false → not (is_past now o) ≡ true
  unexpired none h = refl
  unexpired (some e) h = ground arith

  tokens-keep :
      (token : String) (rows : List TokenRow)
      → find (is_valid_token (hash token) t) (keep (λ r. not (ltb_ℤ r.expires_at now)) rows)
        ≡ find (is_valid_token (hash token) t) rows
  tokens-keep token rows = elim (Option-cases (find (is_valid_token (hash token) t) rows)) [
    | inl missed ↦ find_kept_none _ _ rows missed ∙ sym missed
    | inr (r, found) ↦
        let (valid, m) = find-some _ rows found in
        find_kept _ _ rows found (ground arith) ∙ sym found
  ]

  -- What a key opens is read off the row that is found.
  use_key-eq :
      (o : Option (KeyRow × String)) (store other : AuthStore)
      → (use_key hash all_up t o store).0 ≡ (use_key hash all_up t o other).0
  use_key-eq none store other = refl
  use_key-eq (some (r, type)) store other = elim (Bool-cases (is_expired t r.expires_at)) [
    | inl old ↦ ground arith
    | inr fresh ↦ ground arith
  ]

  find_key-keep :
      (p : Principal) (key : String) (store : AuthStore) (current previous : Option KeyRow)
      → find (is_current_key (hash key)) store.keys ≡ current
      → find (is_previous_key (hash key) t) store.keys ≡ previous
      → (use_key hash all_up t (or_previous hash all_up t current previous) store).0 ≡ ok p
      → find_key hash all_up t (hash key) (delete_keys now store).keys
        ≡ or_previous hash all_up t current previous
  find_key-keep p key store none none c q h = absurd (ground arith)
  find_key-keep p key store (some r) previous c q h =
      elim (Bool-cases (is_expired t r.expires_at)) [
        | inl old ↦ absurd (ground arith)
        | inr fresh ↦
            rw
              (find_kept (λ r. not (is_past now r.expires_at)) _ store.keys c
                (unexpired r.expires_at fresh))
              refl
      ]
  find_key-keep p key store none (some r) c q h = elim (Bool-cases (is_expired t r.expires_at)) [
    | inl old ↦ absurd (ground arith)
    | inr fresh ↦
        rw
          (
            find_kept_none (λ r. not (is_past now r.expires_at)) _ store.keys c,
            find_kept (λ r. not (is_past now r.expires_at)) _ store.keys q
                (unexpired r.expires_at fresh),
          )
          refl
  ]

  key-keep :
      (key : String) (p : Principal) (store other : AuthStore)
      → other.keys ≡ (delete_keys now store).keys
      → (validate_api_key hash all_up t key store).0 ≡ ok p
      → (validate_api_key hash all_up t key other).0 ≡ ok p
  unfolding validate_api_key
  key-keep key p store other e h =
      let o = find_key-keep p key store _ _ refl refl h in
      let found = ap (find_key hash all_up t (hash key)) e ∙ o in
      ap (λ q. (use_key hash all_up t q other).0) found ∙ use_key-eq _ other store ∙ h

  -- A cleanup, at whatever query it stops, changes for no token what the middleware says of it at a
  -- later time.
  pub cleanup_expired_tokens-eq :
      (down : Bool × Bool) (d : Cleaned) (token : String)
      → validate_bearer_token hash all_up t token (cleanup_expired_tokens down now d).1.auth
        ≡ validate_bearer_token hash all_up t token d.auth
  unfolding validate_bearer_token cleanup_expired_tokens
  cleanup_expired_tokens-eq (true, down) d token = refl
  cleanup_expired_tokens-eq (false, true) d token = rw (tokens-keep token d.auth.tokens) refl
  cleanup_expired_tokens-eq (false, false) d token = rw (tokens-keep token d.auth.tokens) refl

  -- An API key that, without a cleanup, opens something at a later time opens the same after the
  -- cleanup, at whatever query that stops.
  pub cleanup_expired_tokens-keep :
      (down : Bool × Bool) (d : Cleaned) (key : String) (p : Principal)
      → (validate_api_key hash all_up t key d.auth).0 ≡ ok p
      → (validate_api_key hash all_up t key (cleanup_expired_tokens down now d).1.auth).0 ≡ ok p
  unfolding cleanup_expired_tokens validate_api_key
  cleanup_expired_tokens-keep (true, down) d key p h = h
  cleanup_expired_tokens-keep (false, true) d key p h =
      use_key-eq _ (delete_tokens now d.auth) d.auth ∙ h
  cleanup_expired_tokens-keep (false, false) d key p h = key-keep key p d.auth _ refl h
