-- ===== src/Auth/Tests.antt =====
-- The middleware and the handlers of keys and tokens on small stores, where a text is its own hash.
mod Keys
use bingsan.Prelude.{
  ℕ, ◌≡◌, ◌≢◌, refl, sym, ap, ◌∙◌, String, true, false, none, some, [], ◌∷◌, Memᴰ, inl, inr, eq_iff,
  arith,
}
use bingsan.Prelude.Int.{◌<ℤ◌, pos, negsuc, shift}
use bingsan.Updates.Exec.{ok}
use bingsan.Auth.{Principal, KeyRow, AuthStore}
use bingsan.Auth.Duration.{
  multiplier, decimal, parse_duration, parse_duration-eq, parse_duration-wraps,
}
use bingsan.Auth.Middleware.{AuthConfig, auth}
use bingsan.Auth.Sound.{IsSound, auth-IsSound}
use bingsan.Auth.Permissions.{
  read, AclStore, AclConfig, check_permission, authz, split_path, find_namespace,
}
use bingsan.Auth.Permitted.{granted, no_faults, IsAllowed, check_permission-eq, authz-IsAllowed}
use bingsan.Auth.Credentials.{rotation_grace_period, validate_bearer_token, validate_api_key}
use bingsan.Auth.Keys.{
  ApiKeyResponse, CreateApiKeyRequest, rotate_api_key, rotate_rows, create_api_key,
}
use bingsan.Auth.Oauth.{TokenRequest, TokenResponse, OauthConfig, exchange_token}
use bingsan.Auth.Rotation.{all_up, IsKeyTable, Opens}
use bingsan.Auth.Rotation.Handler.{rotate_api_key-Renews, rotate_api_key-Opens}
use bingsan.Auth.RoundTrip.{exchange_token-validate, create_api_key-validate}

-- "300y"
parse_duration-wraps_example :
    (k : ℕ) × (parse_duration (b'3' ∷ b'0' ∷ b'0' ∷ b'y' ∷ []) ≡ some (negsuc k))
unfolding decimal multiplier
parse_duration-wraps_example =
    parse_duration-wraps b'3' b'y' 31536000000000000 (b'0' ∷ b'0' ∷ [])
      ((omega arith, omega arith), ((omega arith, omega arith), ((omega arith, omega arith), tt)))
      refl (omega arith) (omega arith) (omega arith)

abbrev pub plain : String → String
plain s = s

abbrev pub key_row : KeyRow
key_row = record {
  id = "k1";
  name = "ci";
  key_hash = "old";
  scopes = "catalog" ∷ [];
  expires_at = none;
  created_at = pos 0;
  last_used_at = none;
  previous_key_hash = none;
  rotated_at = none;
}

abbrev pub keys_before : AuthStore
keys_before = record { tokens = []; keys = key_row ∷ [] }

abbrev pub caller : Principal
caller = record { id = "root"; type = "oauth2"; scopes = []; client_id = "root" }

abbrev auth_config : AuthConfig
auth_config = record { oauth2_enabled = false; api_key_enabled = true; polaris_enabled = false }

auth-IsSound_example :
    IsSound plain all_up
      (pos 5)
      auth_config
      "/v1/namespaces"
      "X-API-Key old"
      keys_before
      (auth plain all_up (pos 5) auth_config "/v1/namespaces" "X-API-Key old" keys_before)
auth-IsSound_example =
    auth-IsSound plain all_up (pos 5) auth_config "/v1/namespaces" "X-API-Key old" keys_before

abbrev acl_rows : AclStore
acl_rows = record {
  namespaces = record { id = "n1"; name = "db" ∷ [] } ∷ [];
  permissions =
      record {
        namespace_id = "n1";
        principal_id = "root";
        principal_type = "oauth2";
        permissions = "write" ∷ [];
      }
      ∷ [];
}

abbrev acl_config : AclConfig
acl_config = record { acl_enabled = true; default_permission = "" }

check_permission-eq_example :
    check_permission no_faults acl_rows caller "db" read ≡ ok (granted acl_rows caller "db" read)
check_permission-eq_example = check_permission-eq acl_rows caller "db" read

lets_pass : authz no_faults acl_config acl_rows read (some caller) "/v1/namespaces/db/tables" ≡ none
unfolding authz check_permission split_path find_namespace
lets_pass = refl

authz-IsAllowed_example :
    IsAllowed acl_config acl_rows read "/v1/namespaces/db/tables" (some caller)
authz-IsAllowed_example =
    authz-IsAllowed acl_config acl_rows read "/v1/namespaces/db/tables" no_faults (some caller)
      lets_pass
