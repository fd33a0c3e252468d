-- ===== src/Auth/Oauth.antt =====
-- internal/api/handlers/oauth.go: the exchange of a client's secret for a token. A request's body as
-- the parser reads it, the new random text and the clock are arguments; `hash` is the SHA-256 of a
-- text as a hexadecimal text.
use bingsan.Prelude.{
  ℕ, ◌/◌, String, Bool, not, Option, none, some, [], ◌∷◌, ◌++◌, ◌||◌, ◌==◌, if◌then◌else◌, some_of,
}
use bingsan.Prelude.Int.{ℤ, shift}
use bingsan.Updates.Exec.{ok, err}
use bingsan.Auth.{TokenRow, AuthStore}
use bingsan.Auth.Keys.{
  KeyStep, invalid_body, generate_failed, store_failed, unsupported_grant, credentials_required,
  oauth2_disabled, invalid_client,
}

pub record TokenRequest : Type 0 where
  pub grant_type : String
  pub scope : String
  pub client_id : String
  pub client_secret : String

pub record TokenResponse : Type 0 where
  pub access_token : String
  pub token_type : String
  pub expires_in : ℕ
  pub scope : String

-- `token_expiry` in nanoseconds
pub record OauthConfig : Type 0 where
  pub enabled : Bool
  pub client_id : String
  pub client_secret : String
  pub token_expiry : ℕ

abbrev pub insert_token : Bool → TokenRow → AuthStore → Option AuthStore
insert_token down row store =
    if down || some_of (λ r. r.access_token_hash == row.access_token_hash) store.tokens
    then none
    else some (record store { tokens = store.tokens ++ row ∷ [] })

module _ (hash : String → String) where
  abbrev pub stored_token : TokenResponse → AuthStore → Option AuthStore → KeyStep TokenResponse
  stored_token answer store none = (err store_failed, store)
  stored_token answer store (some after) = (ok answer, after)

  abbrev pub issue :
      OauthConfig → TokenRequest → Bool → Option String → ℤ → AuthStore → KeyStep TokenResponse
  issue cfg req down none now store = (err generate_failed, store)
  issue cfg req down (some access_token) now store =
      stored_token
        (record {
          access_token = access_token;
          token_type = "bearer";
          expires_in = cfg.token_expiry / 1000000000;
          scope = req.scope;
        })
        store
        (insert_token down
          (record {
            access_token_hash = hash access_token;
            client_id = req.client_id;
            scopes = req.scope ∷ [];
            expires_at = shift now cfg.token_expiry;
          })
          store)

  unfoldable pub exchange_token :
      OauthConfig
      → Option TokenRequest
      → Bool
      → Option String
      → ℤ
      → AuthStore
      → KeyStep TokenResponse
  exchange_token cfg none down random now store = (err invalid_body, store)
  exchange_token cfg (some req) down random now store =
      if not (req.grant_type == "client_credentials")
      then (err unsupported_grant, store)
      else if req.client_id == "" || req.client_secret == ""
      then (err credentials_required, store)
      else if not cfg.enabled
      then (err oauth2_disabled, store)
      else if not (req.client_id == cfg.client_id) || not (req.client_secret == cfg.client_secret)
      then (err invalid_client, store)
      else issue cfg req down random now store
