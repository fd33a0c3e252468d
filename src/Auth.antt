-- ===== src/Auth.antt =====
-- internal/api/middleware: who a request comes from, and what that one may do; and the handlers of
-- API keys and OAuth2 tokens in internal/api/handlers. Times are in nanoseconds.
pub mod Duration
pub mod Credentials
pub mod Middleware
pub mod Sound
pub mod Permissions
pub mod Named
pub mod Permitted
pub mod Keys
pub mod Listed
pub mod Oauth
pub mod Rotation
pub mod RoundTrip
mod Tests
use bingsan.Prelude.{String, Bool, true, false, Option, none, some, List, find}
use bingsan.Prelude.Int.{ℤ}

pub record Principal : Type 0 where
  pub id : String
  pub type : String
  pub scopes : List String
  pub client_id : String

-- A row of `oauth_tokens`.
pub record TokenRow : Type 0 where
  pub access_token_hash : String
  pub client_id : String
  pub scopes : List String
  pub expires_at : ℤ

-- A row of `api_keys`.
pub record KeyRow : Type 0 where
  pub id : String
  pub name : String
  pub key_hash : String
  pub scopes : List String
  pub expires_at : Option ℤ
  pub created_at : ℤ
  pub last_used_at : Option ℤ
  pub previous_key_hash : Option String
  pub rotated_at : Option ℤ

pub record AuthStore : Type 0 where
  pub tokens : List TokenRow
  pub keys : List KeyRow

-- The answer of a query for one row, which fails where `down` says so.
abbrev pub query {ℓ} : {A : Type ℓ} → (down : Bool) → (A → Bool) → List A → Option A
query true p rows = none
query false p rows = find p rows
