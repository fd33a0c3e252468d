-- ===== src/Auth/Tests/Keys.antt =====
-- The handlers of keys and tokens on a small store, where a text is its own hash.
use bingsan.Prelude.{
  ◌≡◌, ◌≢◌, refl, sym, ap, ◌∙◌, String, true, false, none, some, [], ◌∷◌, Memᴰ, eq_iff, arith,
}
use bingsan.Prelude.Int.{◌<ℤ◌, pos, shift}
use bingsan.Updates.Exec.{ok}
use bingsan.Auth.{KeyRow, AuthStore}
use bingsan.Auth.Credentials.{rotation_grace_period, validate_bearer_token, validate_api_key}
use bingsan.Auth.Keys.{
  ApiKeyResponse, CreateApiKeyRequest, rotate_api_key, rotate_rows, create_api_key,
}
use bingsan.Auth.Oauth.{TokenRequest, TokenResponse, OauthConfig, exchange_token}
use bingsan.Auth.Rotation.{all_up, IsKeyTable, Opens}
use bingsan.Auth.Rotation.Handler.{rotate_api_key-Renews, rotate_api_key-Opens}
use bingsan.Auth.RoundTrip.{exchange_token-validate, create_api_key-validate}
use bingsan.Auth.Tests.{plain, key_row, keys_before, caller}

abbrev new_text : String
new_text = "new"

new_is_new : new_text ≢ "old"
new_is_new e = let h = (eq_iff "new" "old").1 e in absurd (ground arith)

abbrev rotated_answer : ApiKeyResponse
rotated_answer = record {
  id = "k1";
  name = "ci";
  key = "new";
  scopes = "catalog" ∷ [];
  expires_at = none;
  created_at = pos 0;
  rotated_at = some (pos 10);
}

abbrev keys_after : AuthStore
keys_after = record {
  tokens = [];
  keys =
      record key_row {
        key_hash = "new";
        previous_key_hash = some "old";
        rotated_at = some (pos 10);
      }
      ∷ [];
}

rotates :
    rotate_api_key plain (some caller) "k1" (false, false) (some "new") (pos 10) keys_before
    ≡ (ok rotated_answer, keys_after)
unfolding rotate_api_key rotate_rows
rotates = refl

alone : {A : Type 0} {x y a : A} → Memᴰ x (a ∷ []) → Memᴰ y (a ∷ []) → x ≡ y
alone (Memᴰ.head e) (Memᴰ.head f) = e ∙ sym f
alone (Memᴰ.head e) (Memᴰ.tail m) = elim m [ ]
alone (Memᴰ.tail m) n = elim m [ ]

one_key : IsKeyTable keys_before.keys
one_key x y m n = (λ e. alone m n, λ e. alone m n)

rotate_api_key-Renews_example : Opens plain (pos 20) "new" "api_key" key_row keys_after
rotate_api_key-Renews_example =
    rotate_api_key-Renews plain keys_before key_row (Memᴰ.head refl) one_key (pos 10) rotated_answer
      keys_after caller (false, false) (some "new") rotates new_is_new (pos 20) refl

soon : pos 20 <ℤ shift (pos 10) rotation_grace_period
unfolding shift
soon = omega arith

rotate_api_key-Opens_example : Opens plain (pos 20) "old" "api_key_rotated" key_row keys_after
rotate_api_key-Opens_example =
    rotate_api_key-Opens plain keys_before key_row (Memᴰ.head refl) one_key (pos 10) rotated_answer
      keys_after caller (false, false) (some "new") rotates new_is_new (pos 20) refl "old" refl
      (λ x m other. absurd (other (ap (λ k. k.id) (alone m (Memᴰ.head refl))))) soon

abbrev token_request : TokenRequest
token_request = record {
  grant_type = "client_credentials";
  scope = "catalog";
  client_id = "root";
  client_secret = "s";
}

abbrev oauth_config : OauthConfig
oauth_config = record {
  enabled = true;
  client_id = "root";
  client_secret = "s";
  token_expiry = 3600000000000;
}

abbrev token_answer : TokenResponse
token_answer = record {
  access_token = "t";
  token_type = "bearer";
  expires_in = 3600;
  scope = "catalog";
}

abbrev tokens_after : AuthStore
tokens_after = record {
  tokens =
      record {
        access_token_hash = "t";
        client_id = "root";
        scopes = "catalog" ∷ [];
        expires_at = pos 3600000000010;
      }
      ∷ [];
  keys = key_row ∷ [];
}

exchanges :
    exchange_token plain oauth_config (some token_request) false (some "t") (pos 10) keys_before
    ≡ (ok token_answer, tokens_after)
unfolding exchange_token shift
exchanges = refl

in_time : pos 20 <ℤ shift (pos 10) 3600000000000
unfolding shift
in_time = omega arith

exchange_token-validate_example :
    (token_request.grant_type ≡ "client_credentials")
    × (oauth_config.enabled ≡ true)
    × (token_request.client_id ≡ oauth_config.client_id)
    × (token_request.client_secret ≡ oauth_config.client_secret)
    × (validate_bearer_token plain all_up (pos 20) "t" tokens_after
        ≡ ok (record { id = "root"; type = "oauth2"; scopes = "catalog" ∷ []; client_id = "root" }))
exchange_token-validate_example =
    exchange_token-validate plain oauth_config token_request (pos 10) keys_before token_answer
      tokens_after false (some "t") exchanges (pos 20) in_time

abbrev key_request : CreateApiKeyRequest
key_request = record { name = "etl"; scopes = []; expires_in = none }

abbrev created_answer : ApiKeyResponse
created_answer = record {
  id = "k2";
  name = "etl";
  key = "fresh";
  scopes = "catalog" ∷ [];
  expires_at = none;
  created_at = pos 11;
  rotated_at = none;
}

abbrev created_row : KeyRow
created_row = record {
  id = "k2";
  name = "etl";
  key_hash = "fresh";
  scopes = "catalog" ∷ [];
  expires_at = none;
  created_at = pos 11;
  last_used_at = none;
  previous_key_hash = none;
  rotated_at = none;
}

abbrev created_after : AuthStore
created_after = record { tokens = []; keys = key_row ∷ created_row ∷ [] }

creates :
    create_api_key plain
      (some caller)
      (some key_request)
      false
      (some "fresh")
      "k2"
      (pos 10)
      (pos 11)
      keys_before
    ≡ (ok created_answer, created_after)
unfolding create_api_key
creates = refl

create_api_key-validate_example :
    (validate_api_key plain all_up (pos 20) "fresh" created_after).0
    ≡ ok (record { id = "k2"; type = "api_key"; scopes = "catalog" ∷ []; client_id = "etl" })
create_api_key-validate_example =
    create_api_key-validate plain key_request false "k2" (pos 10) (pos 11) keys_before
      created_answer created_after caller (some "fresh") creates (pos 20) refl
