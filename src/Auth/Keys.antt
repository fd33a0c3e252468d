-- ===== src/Auth/Keys.antt =====
-- internal/api/handlers/apikeys.go: the handlers that make, rotate and delete API keys. A request's
-- body as the parser reads it, the new random text, the new id and the two readings of the clock are
-- arguments; `hash` is the SHA-256 of a text as a hexadecimal text. Times are kept to the nanosecond,
-- where a TIMESTAMPTZ keeps microseconds.
use bingsan.Prelude.{
  ℕ, String, Bool, not, Option, none, some, List, [], ◌∷◌, ◌++◌, ◌&&◌, ◌||◌, ◌==◌, if◌then◌else◌,
  some_of,
}
use bingsan.Prelude.Int.{ℤ, ◌+ℤ◌}
use bingsan.Updates.Exec.{Result, ok, err}
use bingsan.Auth.{Principal, KeyRow, AuthStore, query}
use bingsan.Auth.Duration.{parse_duration}

-- The answers that are errors, each with its status; the last four are those of oauth.go.
pub data KeyError : Type 0 where
  unauthorized invalid_body name_required invalid_expires_in id_required key_not_found : KeyError
  generate_failed store_failed : KeyError
  unsupported_grant credentials_required oauth2_disabled invalid_client : KeyError

abbrev pub status : KeyError → ℕ
status unauthorized = 401
status invalid_body = 400
status name_required = 400
status invalid_expires_in = 400
status id_required = 400
status key_not_found = 404
status generate_failed = 500
status store_failed = 500
status unsupported_grant = 400
status credentials_required = 401
status oauth2_disabled = 401
status invalid_client = 401

-- `expires_in` as its bytes.
pub record CreateApiKeyRequest : Type 0 where
  pub name : String
  pub scopes : List String
  pub expires_in : Option (List ℕ)

pub record ApiKeyResponse : Type 0 where
  pub id : String
  pub name : String
  pub key : String
  pub scopes : List String
  pub expires_at : Option ℤ
  pub created_at : ℤ
  pub rotated_at : Option ℤ

abbrev pub KeyStep : Type 0 → Type 0
KeyStep A = Result KeyError A × AuthStore

-- `INSERT`, which the unique columns refuse.
abbrev pub insert_key : Bool → KeyRow → AuthStore → Option AuthStore
insert_key down row store =
    if down || some_of (λ r. r.id == row.id || r.key_hash == row.key_hash) store.keys
    then none
    else some (record store { keys = store.keys ++ row ∷ [] })

-- `UPDATE api_keys SET key_hash, previous_key_hash, rotated_at WHERE id`
unfoldable pub rotate_rows : String → String → String → ℤ → List KeyRow → List KeyRow
rotate_rows id new_hash current_hash now [] = []
rotate_rows id new_hash current_hash now (r ∷ rs) =
    let rest = rotate_rows id new_hash current_hash now rs in
    (if r.id == id
      then record r {
        key_hash = new_hash;
        previous_key_hash = some current_hash;
        rotated_at = some now;
      }
      else r)
    ∷ rest

-- `DELETE FROM api_keys WHERE id`
unfoldable pub delete_rows : String → List KeyRow → List KeyRow
delete_rows id [] = []
delete_rows id (r ∷ rs) = let rest = delete_rows id rs in if r.id == id then rest else r ∷ rest

-- Where the `UPDATE` is refused: another row has the hash.
abbrev pub is_taken : String → String → List KeyRow → Bool
is_taken id new_hash rows = some_of (λ r. not (r.id == id) && r.key_hash == new_hash) rows

-- When a key that is made at `now` expires: never, or after its `expires_in`; `none` where that is no
-- duration.
abbrev pub expiry : ℤ → Option (List ℕ) → Option (Option ℤ)
expiry now none = some none
expiry now (some s) = elim (parse_duration s) [ none ↦ none | some d ↦ some (some (now +ℤ d)) ]

abbrev pub default_scopes : List String → List String
default_scopes [] = "catalog" ∷ []
default_scopes (s ∷ ss) = s ∷ ss

module _ (hash : String → String) where
  abbrev pub new_key : CreateApiKeyRequest → String → Option ℤ → String → ℤ → KeyRow
  new_key req id expires_at raw_key now = record {
    id = id;
    name = req.name;
    key_hash = hash raw_key;
    scopes = default_scopes req.scopes;
    expires_at = expires_at;
    created_at = now;
    last_used_at = none;
    previous_key_hash = none;
    rotated_at = none;
  }

  abbrev pub stored_key : KeyRow → String → AuthStore → Option AuthStore → KeyStep ApiKeyResponse
  stored_key row raw_key store none = (err store_failed, store)
  stored_key row raw_key store (some after) = (
    ok (record {
      id = row.id;
      name = row.name;
      key = raw_key;
      scopes = row.scopes;
      expires_at = row.expires_at;
      created_at = row.created_at;
      rotated_at = none;
    }),
    after,
  )

  abbrev pub create_with_key :
      CreateApiKeyRequest
      → Bool
      → String
      → ℤ
      → ℤ
      → AuthStore
      → Option String
      → KeyStep ApiKeyResponse
  create_with_key req down id now later store none = (err generate_failed, store)
  create_with_key req down id now later store (some raw_key) = elim (expiry now req.expires_in) [
    | none ↦ (err invalid_expires_in, store)
    | some expires_at ↦
        let row = new_key req id expires_at raw_key later in
        stored_key row raw_key store (insert_key down row store)
  ]

  abbrev pub create_with_body :
      Option CreateApiKeyRequest
      → Bool
      → Option String
      → String
      → ℤ
      → ℤ
      → AuthStore
      → KeyStep ApiKeyResponse
  create_with_body none down random id now later store = (err invalid_body, store)
  create_with_body (some req) down random id now later store =
      if req.name == ""
      then (err name_required, store)
      else create_with_key req down id now later store random

  unfoldable pub create_api_key :
      Option Principal
      → Option CreateApiKeyRequest
      → Bool
      → Option String
      → String
      → ℤ
      → ℤ
      → AuthStore
      → KeyStep ApiKeyResponse
  create_api_key none body down random id now later store = (err unauthorized, store)
  create_api_key (some p) body down random id now later store =
      create_with_body body down random id now later store

  abbrev pub rotate_to : KeyRow → Bool → Option String → ℤ → AuthStore → KeyStep ApiKeyResponse
  rotate_to row down none now store = (err generate_failed, store)
  rotate_to row down (some raw_key) now store =
      if down || is_taken row.id (hash raw_key) store.keys then (err store_failed, store) else (
        ok (record {
          id = row.id;
          name = row.name;
          key = raw_key;
          scopes = row.scopes;
          expires_at = row.expires_at;
          created_at = row.created_at;
          rotated_at = some now;
        }),
        record store { keys = rotate_rows row.id (hash raw_key) row.key_hash now store.keys },
      )

  abbrev pub rotate_found :
      Option KeyRow → Bool → Option String → ℤ → AuthStore → KeyStep ApiKeyResponse
  rotate_found none down random now store = (err key_not_found, store)
  rotate_found (some row) down random now store = rotate_to row down random now store

  -- `down` says which of the `SELECT` and the `UPDATE` fail.
  unfoldable pub rotate_api_key :
      Option Principal
      → String
      → Bool × Bool
      → Option String
      → ℤ
      → AuthStore
      → KeyStep ApiKeyResponse
  rotate_api_key none key_id down random now store = (err unauthorized, store)
  rotate_api_key (some p) key_id down random now store =
      if key_id == ""
      then (err id_required, store)
      else rotate_found (query down.0 (λ r. r.id == key_id) store.keys) down.1 random now store

abbrev deleted : String → AuthStore → KeyStep (Unit {0})
deleted key_id store =
    if some_of (λ r. r.id == key_id) store.keys
    then (ok tt, record store { keys = delete_rows key_id store.keys })
    else (err key_not_found, store)

unfoldable pub delete_api_key : Option Principal → String → Bool → AuthStore → KeyStep (Unit {0})
delete_api_key none key_id down store = (err unauthorized, store)
delete_api_key (some p) key_id down store =
    if key_id == ""
    then (err id_required, store)
    else if down
    then (err store_failed, store)
    else deleted key_id store
