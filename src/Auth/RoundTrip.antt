-- ===== src/Auth/RoundTrip.antt =====
-- internal/api/handlers/oauth.go and apikeys.go with internal/api/middleware/auth.go: what a token or
-- a key that a handler has given out opens.
use bingsan.Prelude.{
  String, ◌≡◌, refl, Bool, true, false, Option, none, some, [], ◌∷◌, ◌++◌, inl, inr, ◌==◌, ◌||◌,
  eq_iff, eq_refl, arith, Bool-cases, find-last, some_of, some_of-less,
}
use bingsan.Prelude.Int.{ℤ, ◌<ℤ◌, shift}
use bingsan.Updates.Exec.{ok}
use bingsan.Auth.{Principal, TokenRow, KeyRow, AuthStore}
use bingsan.Auth.Credentials.{
  is_valid_token, validate_bearer_token, validate_api_key, is_expired, is_current_key,
}
use bingsan.Auth.Keys.{
  CreateApiKeyRequest, ApiKeyResponse, insert_key, create_api_key, create_with_key, stored_key,
  new_key, expiry,
}
use bingsan.Auth.Oauth.{TokenRequest, TokenResponse, OauthConfig, exchange_token, issue}
use bingsan.Auth.Rotation.{all_up}

module _ (hash : String → String) (cfg : OauthConfig) (req : TokenRequest) (now : ℤ)
    (store : AuthStore) (answer : TokenResponse) (after : AuthStore) where
  abbrev client : Principal
  client = record {
    id = cfg.client_id;
    type = "oauth2";
    scopes = req.scope ∷ [];
    client_id = cfg.client_id;
  }

  abbrev row : TokenRow
  row = record {
    access_token_hash = hash answer.access_token;
    client_id = req.client_id;
    scopes = req.scope ∷ [];
    expires_at = shift now cfg.token_expiry;
  }

  issue-Stored :
      (down : Bool) (random : Option String)
      → issue hash cfg req down random now store ≡ (ok answer, after)
      → (some_of (λ r. r.access_token_hash == hash answer.access_token) store.tokens ≡ false)
        × (after.tokens ≡ store.tokens ++ row ∷ [])
  issue-Stored down none h = absurd (ground arith)
  issue-Stored true (some token) h = absurd (ground arith)
  issue-Stored false (some token) h =
      elim (Bool-cases (some_of (λ r. r.access_token_hash == hash token) store.tokens)) [
        | inl taken ↦ absurd (ground arith)
        | inr free ↦
            let e : token ≡ answer.access_token = ground arith in rw (← e) (free, ground arith)
      ]

  exchange_token-issue :
      (down : Bool) (random : Option String)
      → exchange_token hash cfg (some req) down random now store ≡ (ok answer, after)
      → ((req.grant_type == "client_credentials") ≡ true)
        × (cfg.enabled ≡ true)
        × ((req.client_id == cfg.client_id) ≡ true)
        × ((req.client_secret == cfg.client_secret) ≡ true)
        × (issue hash cfg req down random now store ≡ (ok answer, after))
  unfolding exchange_token
  exchange_token-issue down random h =
      (ground arith, ground arith, ground arith, ground arith, ground arith)

  -- A token is given out only to the client of the configuration, where OAuth2 is enabled and for the
  -- grant "client_credentials"; and from then on, until the token's expiry, it is that of the client,
  -- with the scope that was asked for.
  pub exchange_token-validate :
      (down : Bool) (random : Option String)
      → exchange_token hash cfg (some req) down random now store ≡ (ok answer, after)
      → (t : ℤ) → t <ℤ shift now cfg.token_expiry
      → (req.grant_type ≡ "client_credentials")
        × (cfg.enabled ≡ true)
        × (req.client_id ≡ cfg.client_id)
        × (req.client_secret ≡ cfg.client_secret)
        × (validate_bearer_token hash all_up t answer.access_token after ≡ ok client)
  unfolding validate_bearer_token
  exchange_token-validate down random h t soon =
      let (grant, on, id, secret, given) = exchange_token-issue down random h in
      let (free, kept) = issue-Stored down random given in
      let same = (eq_iff req.client_id cfg.client_id).0 id in
      let p : TokenRow → Bool = is_valid_token (hash answer.access_token) t in
      let misses = some_of-less p _ store.tokens (λ x g. ground arith) free in
      let hit : p row ≡ true = let e = eq_refl (hash answer.access_token) in ground arith in
      (
        (eq_iff _ _).0 grant,
        on,
        same,
        (eq_iff _ _).0 secret,
        rw (kept, find-last p store.tokens {x = row} misses hit, same) refl,
      )

module _ (hash : String → String) (req : CreateApiKeyRequest) (down : Bool) (id : String)
    (now later : ℤ) (store : AuthStore) (answer : ApiKeyResponse) (after : AuthStore) where
  -- The row that the handler inserts, from its answer.
  abbrev made : KeyRow
  made = new_key hash req answer.id answer.expires_at answer.key later

  -- What has happened where a key is made.
  abbrev HasMade : Type 0
  HasMade =
      (answer.scopes ≡ made.scopes)
      × (some_of (λ r. r.id == answer.id || r.key_hash == hash answer.key) store.keys ≡ false)
      × (after.keys ≡ store.keys ++ made ∷ [])

  stored_key-HasMade :
      (raw_key : String) (expires_at : Option ℤ)
      → stored_key hash
          (new_key hash req id expires_at raw_key later)
          raw_key
          store
          (insert_key down (new_key hash req id expires_at raw_key later) store)
        ≡ (ok answer, after)
      → HasMade
  stored_key-HasMade raw_key expires_at h =
      elim (Bool-cases
        (down || some_of (λ r. r.id == id || r.key_hash == hash raw_key) store.keys)) [
          | inl taken ↦ absurd (ground arith)
          | inr free ↦
              let e : raw_key ≡ answer.key = ground arith in
              let f : id ≡ answer.id = ground arith in
              let g : expires_at ≡ answer.expires_at = ground arith in
              rw (← e, ← f, ← g) (ground arith, ground arith, ground arith)
        ]

  create_with_key-HasMade :
      (random : Option String)
      → create_with_key hash req down id now later store random ≡ (ok answer, after)
      → HasMade
  create_with_key-HasMade none h = absurd (ground arith)
  create_with_key-HasMade (some raw_key) h = go (expiry now req.expires_in) refl
    where
      go : (o : Option (Option ℤ)) → expiry now req.expires_in ≡ o → HasMade
      go none e = absurd (ground arith)
      go (some expires_at) e = stored_key-HasMade raw_key expires_at (ground arith)

  create_api_key-HasMade :
      (caller : Principal) (random : Option String)
      → create_api_key hash (some caller) (some req) down random id now later store
        ≡ (ok answer, after)
      → HasMade
  unfolding create_api_key
  create_api_key-HasMade caller random h = elim (Bool-cases (req.name == "")) [
    | inl empty ↦ absurd (ground arith)
    | inr named ↦ create_with_key-HasMade random (ground arith)
  ]

  -- A key that the handler has made opens, until the time at which the answer says that it expires, its
  -- row: for a principal of type "api_key" with the id, the name and the scopes of the answer.
  pub create_api_key-validate :
      (caller : Principal) (random : Option String)
      → create_api_key hash (some caller) (some req) down random id now later store
        ≡ (ok answer, after)
      → (t : ℤ) → is_expired t answer.expires_at ≡ false
      → (validate_api_key hash all_up t answer.key after).0
        ≡ ok (record {
          id = answer.id;
          type = "api_key";
          scopes = answer.scopes;
          client_id = req.name;
        })
  unfolding validate_api_key
  create_api_key-validate caller random h t valid =
      let (scopes, free, kept) = create_api_key-HasMade caller random h in
      let p : KeyRow → Bool = is_current_key (hash answer.key) in
      let misses = some_of-less p _ store.keys (λ x g. ground arith) free in
      rw (kept, find-last p store.keys {x = made} misses (eq_refl (hash answer.key)), valid, scopes)
        refl
