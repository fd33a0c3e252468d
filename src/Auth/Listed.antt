-- ===== src/Auth/Listed.antt =====
-- internal/api/handlers/apikeys.go: ListAPIKeys. The order by `created_at`, which rows are not read, and
-- whether the query fails are arguments.
use bingsan.Prelude.{String, Bool, true, not, Option, none, some, List, map, keep, if◌then◌else◌}
use bingsan.Prelude.Int.{ℤ, ltb_ℤ}
use bingsan.Updates.Exec.{Result, ok, err}
use bingsan.Auth.{Principal, KeyRow, AuthStore}
use bingsan.Auth.Keys.{KeyError, unauthorized, store_failed}

-- The members of APIKeyResponse that the query reads; the key itself is not among them.
pub record ListedKey : Type 0 where
  pub id : String
  pub name : String
  pub scopes : List String
  pub expires_at : Option ℤ
  pub created_at : ℤ
  pub last_used_at : Option ℤ
  pub rotated_at : Option ℤ

abbrev pub listed : KeyRow → ListedKey
listed r = record {
  id = r.id;
  name = r.name;
  scopes = r.scopes;
  expires_at = r.expires_at;
  created_at = r.created_at;
  last_used_at = r.last_used_at;
  rotated_at = r.rotated_at;
}

-- `expires_at IS NULL OR expires_at > NOW()`
abbrev pub is_unexpired : ℤ → Option ℤ → Bool
is_unexpired now none = true
is_unexpired now (some t) = ltb_ℤ now t

-- The principal is not used but for that there is one.
unfoldable pub list_api_keys :
    (List KeyRow → List KeyRow)
    → (KeyRow → Bool)
    → Option Principal
    → Bool
    → ℤ
    → AuthStore
    → Result KeyError (List ListedKey)
list_api_keys order unread none down now store = err unauthorized
list_api_keys order unread (some p) down now store =
    if down
    then err store_failed
    else ok (
        map listed (
          keep (λ r. not (unread r))
            (order (keep (λ r. is_unexpired now r.expires_at) store.keys))))
