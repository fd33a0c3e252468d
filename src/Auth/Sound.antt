-- ===== src/Auth/Sound.antt =====
-- internal/api/middleware/auth.go: whom the middleware lets in, and what it changes.
use bingsan.Prelude.{
  Pointwise, empty, more, subst, [], ◌∷◌, String, ◌≡◌, refl, Bool, true, false, Option, none, some,
  List, Memᴰ, ◌⊎◌, ◌==◌, eq_iff, ap, sym, ◌∙◌, inl, inr, arith, if_cases, Bool-cases, find-some,
}
use bingsan.Prelude.Int.{ℤ, ◌<ℤ◌, shift}
use bingsan.Updates.Exec.{Result, ok, err}
use bingsan.Auth.{Principal, TokenRow, KeyRow, AuthStore, query}
use bingsan.Auth.Credentials.{
  Faults, AuthError, rotation_grace_period, token_principal, key_principal, is_valid_token,
  is_current_key, is_previous_key, touch, find_key, use_key, validate_bearer_token,
  validate_api_key, found_token, or_previous, is_expired, is_recent, is_text, build_skip_paths,
  should_skip_auth,
}
use bingsan.Auth.Middleware.{
  AuthConfig, Answer, next, unauthorized, split_space, is_lower_of, check_scheme, check_parts,
  let_in, auth,
}

pub query-some :
    {A : Type 0} (down : Bool) (p : A → Bool) (rows : List A) {r : A}
    → query down p rows ≡ some r
    → (p r ≡ true) × Memᴰ r rows
query-some true p rows h = absurd (ground arith)
query-some false p rows h = find-some p rows h

text_of : (s : String) (o : Option String) → is_text s o ≡ true → o ≡ some s
text_of s none h = absurd (ground arith)
text_of s (some t) h = ground (arith, eq_iff t s)

recent :
    (now : ℤ) (o : Option ℤ)
    → is_recent now o ≡ true
    → (t : ℤ) × (o ≡ some t) × (now <ℤ shift t rotation_grace_period)
recent now none h = absurd (ground arith)
recent now (some t) h = (t, refl, ground arith)

module _ (hash : String → String) (faults : Faults) (now : ℤ) (cfg : AuthConfig) where
  -- A row of the store that the token opens: of a token that has not expired, or of an API key that
  -- has not expired, by its key or, within 24 hours of a rotation, by its previous key.
  abbrev OpensToken : String → Principal → AuthStore → Type 0
  OpensToken token p store =
      (r : TokenRow) × Memᴰ r store.tokens
      × (r.access_token_hash ≡ hash token)
      × (now <ℤ r.expires_at)
      × (p ≡ token_principal r)

  abbrev ByKey : String → KeyRow → String → Type 0
  ByKey key r type =
      ((type ≡ "api_key") × (r.key_hash ≡ hash key))
      ⊎ ((type ≡ "api_key_rotated")
          × (r.previous_key_hash ≡ some (hash key))
          × ((t : ℤ) × (r.rotated_at ≡ some t) × (now <ℤ shift t rotation_grace_period)))

  abbrev OpensKey : String → Principal → AuthStore → Type 0
  OpensKey key p store =
      (r : KeyRow) × (type : String) × Memᴰ r store.keys
      × ByKey key r type
      × (is_expired now r.expires_at ≡ false)
      × (p ≡ key_principal type r)

  -- At most the rows of this key have changed, and of these the time of the last use.
  abbrev IsTouched : String → KeyRow → KeyRow → Type 0
  IsTouched id r s =
      ((r.id ≡ id) × (s ≡ record r { last_used_at = some now }))
      ⊎ (((r.id == id) ≡ false) × (s ≡ r))

  abbrev IsUsed : String → AuthStore → AuthStore → Type 0
  IsUsed id store after =
      (after ≡ store)
      ⊎ (Pointwise (IsTouched id) store.keys after.keys
          × (after ≡ record store { keys = after.keys }))

  touch-IsTouched :
      (id : String) (keys : List KeyRow) → Pointwise (IsTouched id) keys (touch now id keys)
  unfolding touch
  touch-IsTouched id [] = empty
  touch-IsTouched id (r ∷ keys) = elim (Bool-cases (r.id == id)) [
    | inl hit ↦ rw hit (more (inl ((eq_iff r.id id).0 hit, refl)) (touch-IsTouched id keys))
    | inr miss ↦ rw miss (more (inr (miss, refl)) (touch-IsTouched id keys))
  ]

  written-IsUsed :
      (id : String) (store after : AuthStore)
      → (after ≡ store) ⊎ (after ≡ record store { keys = touch now id store.keys })
      → IsUsed id store after
  written-IsUsed id store after (inl same) = inl same
  written-IsUsed id store after (inr e) =
      subst (IsUsed id store) (sym e) (inr (touch-IsTouched id store.keys, refl))

  -- What the middleware may answer, and what it then leaves in the store.
  abbrev pub IsSound : String → String → AuthStore → Answer × AuthStore → Type 0
  IsSound path header store (next none, after) =
      (should_skip_auth path (build_skip_paths cfg.polaris_enabled) ≡ true) × (after ≡ store)
  IsSound path header store (unauthorized e, after) = after ≡ store
  IsSound path header store (next (some p), after) =
      (scheme : String) × (token : String) × (split_space header ≡ some (scheme, token))
      × (((cfg.oauth2_enabled ≡ true) × OpensToken token p store × (after ≡ store))
          ⊎ ((cfg.api_key_enabled ≡ true) × OpensKey token p store × IsUsed p.id store after))

  found_token-OpensToken :
      (token : String) (store : AuthStore) (p : Principal) (o : Option TokenRow)
      → query faults.token_query (is_valid_token (hash token) now) store.tokens ≡ o
      → found_token hash faults now o ≡ ok p
      → OpensToken token p store
  found_token-OpensToken token store p none e h = absurd (ground arith)
  found_token-OpensToken token store p (some r) e h =
      let (valid, m) = query-some faults.token_query _ store.tokens e in
      (r, m, ground (arith, eq_iff r.access_token_hash (hash token)), ground arith, ground arith)

  validate_bearer_token-OpensToken :
      (token : String) (store : AuthStore) (p : Principal)
      → validate_bearer_token hash faults now token store ≡ ok p
      → OpensToken token p store
  unfolding validate_bearer_token
  validate_bearer_token-OpensToken token store p h = found_token-OpensToken token store p _ refl h

  or_previous-ByKey :
      (key : String) (keys : List KeyRow) (current previous : Option KeyRow) (r : KeyRow)
      (type : String)
      → query faults.key_query (is_current_key (hash key)) keys ≡ current
      → query faults.previous_query (is_previous_key (hash key) now) keys ≡ previous
      → or_previous hash faults now current previous ≡ some (r, type)
      → Memᴰ r keys × ByKey key r type
  or_previous-ByKey key keys none none r type c p h = absurd (ground arith)
  or_previous-ByKey key keys (some s) previous r type c p h =
      let same : s ≡ r = ground arith in
      let (hit, m) = query-some faults.key_query _ keys c in
      rw (← same) (m, inl (ground arith, ground (arith, eq_iff s.key_hash (hash key))))
  or_previous-ByKey key keys none (some s) r type c p h =
      let same : s ≡ r = ground arith in
      let (hit, m) = query-some faults.previous_query _ keys p in
      rw (← same) (
        m,
        inr (
          ground arith,
          text_of (hash key) s.previous_key_hash (ground arith),
          recent now s.rotated_at (ground arith),
        ),
      )

  use_key-Opens :
      (key : String) (store : AuthStore) (p : Principal) (after : AuthStore)
      (o : Option (KeyRow × String))
      → find_key hash faults now (hash key) store.keys ≡ o
      → use_key hash faults now o store ≡ (ok p, after)
      → OpensKey key p store × IsUsed p.id store after
  use_key-Opens key store p after none e h = absurd (ground arith)
  use_key-Opens key store p after (some (r, type)) e h =
      let (m, by) = or_previous-ByKey key store.keys _ _ r type refl refl e in
      elim (Bool-cases (is_expired now r.expires_at)) [
        | inl old ↦ absurd (ground arith)
        | inr fresh ↦
            ((r, type, m, by, fresh, ground arith), written-IsUsed p.id store after (ground arith))
      ]

  validate_api_key-Opens :
      (key : String) (store : AuthStore) (p : Principal) (after : AuthStore)
      → validate_api_key hash faults now key store ≡ (ok p, after)
      → OpensKey key p store × IsUsed p.id store after
  unfolding validate_api_key
  validate_api_key-Opens key store p after h = use_key-Opens key store p after _ refl h

  use_key-Unchanged :
      (store : AuthStore) (e : AuthError) (o : Option (KeyRow × String))
      → (use_key hash faults now o store).0 ≡ err e
      → (use_key hash faults now o store).1 ≡ store
  use_key-Unchanged store e none h = refl
  use_key-Unchanged store e (some (r, type)) h = elim (Bool-cases (is_expired now r.expires_at)) [
    | inl old ↦ ground arith
    | inr fresh ↦ absurd (ground arith)
  ]

  validate_api_key-Unchanged :
      (key : String) (store after : AuthStore) (e : AuthError)
      → validate_api_key hash faults now key store ≡ (err e, after)
      → after ≡ store
  unfolding validate_api_key
  validate_api_key-Unchanged key store after e h =
      let kept =
        use_key-Unchanged store e (find_key hash faults now (hash key) store.keys)
          (ap (λ o. o.0) h) in
      sym (ap (λ o. o.1) h) ∙ kept

  module _ (path header scheme token : String) (store : AuthStore)
      (parts : split_space header ≡ some (scheme, token)) where
    by_token-IsSound :
        (o : Result AuthError Principal)
        → validate_bearer_token hash faults now token store ≡ o
        → cfg.oauth2_enabled ≡ true
        → IsSound path header store (let_in hash faults now cfg (o, store))
    by_token-IsSound (err e) h on = refl
    by_token-IsSound (ok p) h on =
        (scheme, token, parts, inl (on, validate_bearer_token-OpensToken token store p h, refl))

    by_key-IsSound :
        (o : Result AuthError Principal × AuthStore)
        → validate_api_key hash faults now token store ≡ o
        → cfg.api_key_enabled ≡ true
        → IsSound path header store (let_in hash faults now cfg o)
    by_key-IsSound (err e, after) h on = validate_api_key-Unchanged token store after e h
    by_key-IsSound (ok p, after) h on =
        let opens = validate_api_key-Opens token store p after h in
        (scheme, token, parts, inr (on, opens.0, opens.1))

    check_scheme-IsSound :
        IsSound path header store (check_scheme hash faults now cfg scheme token store)
    check_scheme-IsSound =
        let Sound : Answer × AuthStore → Type 0 = IsSound path header store in
        if_cases Sound (is_lower_of scheme "bearer")
          (λ bearer.
            if_cases Sound cfg.oauth2_enabled (λ on. by_token-IsSound _ refl on)
              (λ off.
                if_cases Sound cfg.api_key_enabled (λ on. by_key-IsSound _ refl on) (λ none. refl)))
          (λ other.
            if_cases Sound (is_lower_of scheme "x-api-key")
              (λ x.
                if_cases Sound cfg.api_key_enabled (λ on. by_key-IsSound _ refl on) (λ none. refl))
              (λ y. refl))

  check_parts-IsSound :
      (path header : String) (store : AuthStore) (o : Option (String × String))
      → split_space header ≡ o
      → IsSound path header store (check_parts hash faults now cfg o store)
  check_parts-IsSound path header store none h = refl
  check_parts-IsSound path header store (some (scheme, token)) h =
      check_scheme-IsSound path header scheme token store h

  -- The middleware passes a request on without a principal only where its path is one of those that
  -- need none, and with a principal only where the Authorization header has two parts and the second
  -- is a token, or a key, that a row of the store opens: a token that has not expired, where OAuth2 is
  -- enabled; an API key that has not expired, as the current key of its row or as the previous one
  -- within 24 hours of the rotation, where API keys are enabled. A refused request changes nothing in
  -- the store, and one let in at most the time at which its key was last used.
  pub auth-IsSound :
      (path header : String) (store : AuthStore)
      → IsSound path header store (auth hash faults now cfg path header store)
  unfolding auth
  auth-IsSound path header store =
      let Sound : Answer × AuthStore → Type 0 = IsSound path header store in
      if_cases Sound (should_skip_auth path (build_skip_paths cfg.polaris_enabled))
        (λ skip. (skip, refl))
        (λ check.
          if_cases Sound (header == "") (λ empty. refl)
            (λ full. check_parts-IsSound path header store (split_space header) refl))
