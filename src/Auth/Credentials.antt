-- ===== src/Auth/Credentials.antt =====
-- internal/api/middleware/auth.go: the checks of tokens and API keys, and the middleware. `hash` is
-- the SHA-256 of a text as a hexadecimal text.

use bingsan.Prelude.{
  ℕ, String, Bool, false, Option, none, some, List, [], ◌∷◌, ◌++◌, ◌&&◌, ◌==◌, if◌then◌else◌,
  some_of,
}
use bingsan.Prelude.Int.{ℤ, ltb_ℤ, shift}
use bingsan.Updates.Exec.{Result, ok, err}
use bingsan.Auth.{Principal, TokenRow, KeyRow, AuthStore, query}

-- Which queries of a request fail.
pub record Faults : Type 0 where
  pub token_query : Bool
  pub key_query : Bool
  pub previous_query : Bool
  pub last_used : Bool

-- Why a request is refused, with what the code says.
pub data AuthError : Type 0 where
  missing_header bad_header_format bearer_disabled api_key_disabled bad_scheme : AuthError
  bad_token bad_key key_expired : AuthError

-- 24 hours
abbrev pub rotation_grace_period : ℕ
rotation_grace_period = 86400000000000

abbrev pub is_expired : ℤ → Option ℤ → Bool
is_expired now none = false
is_expired now (some t) = ltb_ℤ t now

abbrev pub is_text : String → Option String → Bool
is_text s none = false
is_text s (some t) = t == s

-- `rotated_at > now - 24h`
abbrev pub is_recent : ℤ → Option ℤ → Bool
is_recent now none = false
is_recent now (some t) = ltb_ℤ now (shift t rotation_grace_period)

-- The `WHERE` of each query.
abbrev pub is_valid_token : String → ℤ → TokenRow → Bool
is_valid_token token_hash now r = r.access_token_hash == token_hash && ltb_ℤ now r.expires_at

abbrev pub is_current_key : String → KeyRow → Bool
is_current_key key_hash r = r.key_hash == key_hash

abbrev pub is_previous_key : String → ℤ → KeyRow → Bool
is_previous_key key_hash now r = is_text key_hash r.previous_key_hash && is_recent now r.rotated_at

abbrev pub token_principal : TokenRow → Principal
token_principal r = record {
  id = r.client_id;
  type = "oauth2";
  scopes = r.scopes;
  client_id = r.client_id;
}

abbrev pub key_principal : String → KeyRow → Principal
key_principal type r = record { id = r.id; type = type; scopes = r.scopes; client_id = r.name }

-- `UPDATE api_keys SET last_used_at = $1 WHERE id = $2`
unfoldable pub touch : ℤ → String → List KeyRow → List KeyRow
touch now id [] = []
touch now id (r ∷ rs) =
    let rest = touch now id rs in
    (if r.id == id then record r { last_used_at = some now } else r) ∷ rest

module _ (hash : String → String) (faults : Faults) (now : ℤ) where
  abbrev pub found_token : Option TokenRow → Result AuthError Principal
  found_token none = err bad_token
  found_token (some r) = ok (token_principal r)

  unfoldable pub validate_bearer_token : String → AuthStore → Result AuthError Principal
  validate_bearer_token token store =
      found_token (query faults.token_query (is_valid_token (hash token) now) store.tokens)

  -- The row of a key, with the type that its principal gets.
  abbrev pub or_previous : Option KeyRow → Option KeyRow → Option (KeyRow × String)
  or_previous (some r) previous = some (r, "api_key")
  or_previous none none = none
  or_previous none (some r) = some (r, "api_key_rotated")

  abbrev pub find_key : String → List KeyRow → Option (KeyRow × String)
  find_key key_hash keys =
      or_previous (query faults.key_query (is_current_key key_hash) keys)
        (query faults.previous_query (is_previous_key key_hash now) keys)

  abbrev pub touched : String → AuthStore → AuthStore
  touched id store =
      if faults.last_used then store else record store { keys = touch now id store.keys }

  abbrev pub use_key : Option (KeyRow × String) → AuthStore → Result AuthError Principal × AuthStore
  use_key none store = (err bad_key, store)
  use_key (some (r, type)) store =
      if is_expired now r.expires_at
      then (err key_expired, store)
      else (ok (key_principal type r), touched r.id store)

  unfoldable pub validate_api_key : String → AuthStore → Result AuthError Principal × AuthStore
  validate_api_key key store = use_key (find_key (hash key) store.keys) store

-- `buildSkipPaths` and `shouldSkipAuth`
abbrev pub build_skip_paths : Bool → List String
build_skip_paths polaris_enabled =
    let paths : List String = "/health" ∷ "/ready" ∷ "/v1/config" ∷ "/v1/oauth/tokens" ∷ [] in
    if polaris_enabled then paths ++ "/api/catalog/v1/oauth/tokens" ∷ [] else paths

abbrev pub should_skip_auth : String → List String → Bool
should_skip_auth path paths = some_of (λ p. path == p) paths
