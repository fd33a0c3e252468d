-- ===== src/Auth/Middleware.antt =====
-- internal/api/middleware/auth.go: the middleware `Auth`, on the path and the Authorization header of
-- a request.
use Prim.Native.Char.{Char, code}
use bingsan.Prelude.{
  ℕ, ◌+◌, String, Bool, true, false, Option, none, some, ◌&&◌, ◌==◌, leb, eqb, if◌then◌else◌,
}
use bingsan.Prelude.Int.{ℤ}
use bingsan.Updates.Exec.{Result, ok, err}
use bingsan.Auth.{Principal, AuthStore}
use bingsan.Auth.Credentials.{
  Faults, AuthError, missing_header, bad_header_format, bearer_disabled, api_key_disabled,
  bad_scheme, validate_bearer_token, validate_api_key, build_skip_paths, should_skip_auth,
}

pub record AuthConfig : Type 0 where
  pub oauth2_enabled : Bool
  pub api_key_enabled : Bool
  pub polaris_enabled : Bool

pub data Answer : Type 0 where
  next : Option Principal → Answer
  unauthorized : AuthError → Answer

abbrev with_first : Char → Option (String × String) → Option (String × String)
with_first c none = none
with_first c (some (s, t)) = some (String.◌∷◌ c s, t)

-- `strings.SplitN(header, " ", 2)`; `none` where there are not two parts.
unfoldable pub split_space : String → Option (String × String)
split_space String.[] = none
split_space (String.◌∷◌ c s) =
    let rest = split_space s in if eqb (code c) b' ' then some ("", s) else with_first c rest

-- The code of a rune's lower case, as far as that may be a letter of ASCII: besides A to Z these are
-- İ and the Kelvin sign.
abbrev to_lower : ℕ → ℕ
to_lower n =
    if leb b'A' n && leb n b'Z'
    then n + 32
    else if eqb n 0x130
    then b'i'
    else if eqb n 0x212A
    then b'k'
    else n

-- `strings.ToLower(s) == t` for a text `t` of ASCII
unfoldable pub is_lower_of : String → String → Bool
is_lower_of String.[] String.[] = true
is_lower_of String.[] (String.◌∷◌ d t) = false
is_lower_of (String.◌∷◌ c s) String.[] = false
is_lower_of (String.◌∷◌ c s) (String.◌∷◌ d t) = eqb (to_lower (code c)) (code d) && is_lower_of s t

module _ (hash : String → String) (faults : Faults) (now : ℤ) (cfg : AuthConfig) where
  abbrev pub let_in : Result AuthError Principal × AuthStore → Answer × AuthStore
  let_in (ok p, store) = (next (some p), store)
  let_in (err e, store) = (unauthorized e, store)

  abbrev pub by_token : String → AuthStore → Answer × AuthStore
  by_token token store = let_in (validate_bearer_token hash faults now token store, store)

  abbrev pub by_key : String → AuthStore → Answer × AuthStore
  by_key key store = let_in (validate_api_key hash faults now key store)

  abbrev pub check_scheme : String → String → AuthStore → Answer × AuthStore
  check_scheme scheme token store =
      if is_lower_of scheme "bearer"
      then if cfg.oauth2_enabled
        then by_token token store
        else if cfg.api_key_enabled
        then by_key token store
        else (unauthorized bearer_disabled, store)
      else if is_lower_of scheme "x-api-key"
      then if cfg.api_key_enabled
        then by_key token store
        else (unauthorized api_key_disabled, store)
      else (unauthorized bad_scheme, store)

  abbrev pub check_parts : Option (String × String) → AuthStore → Answer × AuthStore
  check_parts none store = (unauthorized bad_header_format, store)
  check_parts (some (scheme, token)) store = check_scheme scheme token store

  unfoldable pub auth : String → String → AuthStore → Answer × AuthStore
  auth path header store =
      if should_skip_auth path (build_skip_paths cfg.polaris_enabled)
      then (next none, store)
      else if header == ""
      then (unauthorized missing_header, store)
      else check_parts (split_space header) store
