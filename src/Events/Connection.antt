-- ===== src/Events/Connection.antt =====
-- internal/api/handlers/events.go: who may open a stream of events, and what is subscribed for it.
-- `hash` stands for `encode(sha256($1::bytea), 'hex')` of the query, with the reading of a text as bytea
-- that PostgreSQL has.
use Prim.Native.Char.{code}
use bingsan.Prelude.{
  ℕ, ◌≡◌, refl, String, Bool, true, Option, none, some, Memᴰ, inl, inr, ◌&&◌, ◌⊎◌, ◌==◌, eq_iff,
  arith, eqb, Bool-cases, if◌then◌else◌,
}
use bingsan.Prelude.Int.{ℤ, ltb_ℤ, ◌<ℤ◌}
use bingsan.Auth.{TokenRow, KeyRow, AuthStore, query}
use bingsan.Auth.Credentials.{Faults, is_valid_token, is_current_key}
use bingsan.Auth.Sound.{query-some}
use bingsan.Events.{determine_topic}
use bingsan.Events.Broker.{Broker, subscribe}

-- The text after a prefix, if that begins it.
abbrev pub after_prefix : String → String → Option String
after_prefix String.[] s = some s
after_prefix (String.◌∷◌ c p) String.[] = none
after_prefix (String.◌∷◌ c p) (String.◌∷◌ d s) =
    let rest = after_prefix p s in if eqb (code c) (code d) then rest else none

-- `strings.TrimPrefix`
abbrev pub trim_prefix : String → String → String
trim_prefix s prefix = elim (after_prefix prefix s) [ none ↦ s | some rest ↦ rest ]

abbrev pub bare : String → String
bare token = trim_prefix (trim_prefix token "Bearer_") "Bearer "

-- What the client is told before its connection is closed.
pub data Refusal : Type 0 where
  token_required invalid_token : Refusal

abbrev pub code_of : Refusal → ℕ
code_of token_required = 401
code_of invalid_token = 403

-- `expires_at IS NULL OR expires_at > NOW()`
abbrev pub not_expired : ℤ → Option ℤ → Bool
not_expired now none = true
not_expired now (some t) = ltb_ℤ now t

abbrev pub is_live_key : String → ℤ → KeyRow → Bool
is_live_key key_hash now r = is_current_key key_hash r && not_expired now r.expires_at

module _ (hash : String → String) (faults : Faults) (now : ℤ) where
  abbrev pub or_token : Option KeyRow → Option TokenRow → Option Refusal
  or_token (some r) t = none
  or_token none (some t) = none
  or_token none none = some invalid_token

  unfoldable pub check_token : String → AuthStore → Option Refusal
  check_token token store =
      or_token (query faults.key_query (is_live_key (hash token) now) store.keys)
        (query faults.token_query (is_valid_token (hash token) now) store.tokens)

  -- `none` lets the client in.
  unfoldable pub authenticate_web_socket : String → AuthStore → Option Refusal
  authenticate_web_socket token store =
      if token == "" then some token_required else check_token (bare token) store

  -- The subscription that a stream gets, and the broker then; the topic is told to the client.
  pub data Opening : Type 0 where
    refused : Refusal → Opening
    broker_closed : Opening
    opened : String → ℕ → Opening

  abbrev pub on_topic : String → Option ℕ × Broker → Opening × Broker
  on_topic topic (none, b) = (broker_closed, b)
  on_topic topic (some d, b) = (opened topic d, b)

  abbrev pub open_topic : String → Option Refusal → Broker → Opening × Broker
  open_topic topic (some r) b = (refused r, b)
  open_topic topic none b = on_topic topic (subscribe topic b)

  unfoldable pub event_stream :
      Bool → String → String → String → AuthStore → Broker → Opening × Broker
  event_stream auth_enabled token namespace table store b =
      open_topic (determine_topic namespace table)
        (if auth_enabled then authenticate_web_socket token store else none) b

  -- A credential of the store that has not expired: the key or the token of a row.
  abbrev pub IsLive : String → AuthStore → Type 0
  IsLive token store =
      ((r : KeyRow) × Memᴰ r store.keys
        × (r.key_hash ≡ hash token)
        × (not_expired now r.expires_at ≡ true))
      ⊎ ((r : TokenRow) × Memᴰ r store.tokens
          × (r.access_token_hash ≡ hash token)
          × (now <ℤ r.expires_at))

  or_token-IsLive :
      (token : String) (store : AuthStore) (k : Option KeyRow) (t : Option TokenRow)
      → query faults.key_query (is_live_key (hash token) now) store.keys ≡ k
      → query faults.token_query (is_valid_token (hash token) now) store.tokens ≡ t
      → or_token k t ≡ none
      → IsLive token store
  or_token-IsLive token store (some r) t e f h =
      let (live, m) = query-some faults.key_query (is_live_key (hash token) now) store.keys e in
      inl (r, m, (eq_iff r.key_hash (hash token)).0 (ground arith), ground arith)
  or_token-IsLive token store none (some r) e f h =
      let (live, m) =
        query-some faults.token_query (is_valid_token (hash token) now) store.tokens f in
      inr (r, m, (eq_iff r.access_token_hash (hash token)).0 (ground arith), ground arith)
  or_token-IsLive token store none none e f h = absurd (ground arith)

  authenticate_web_socket-IsLive :
      (token : String) (store : AuthStore)
      → authenticate_web_socket token store ≡ none
      → IsLive (bare token) store
  unfolding authenticate_web_socket check_token
  authenticate_web_socket-IsLive token store h = elim (Bool-cases (token == "")) [
    | inl missing ↦ absurd (ground arith)
    | inr given ↦
        or_token-IsLive (bare token) store
          (query faults.key_query (is_live_key (hash (bare token)) now) store.keys)
          (query faults.token_query (is_valid_token (hash (bare token)) now) store.tokens) refl refl
          (ground arith)
  ]

  on_topic-same :
      (topic : String) (p : Option ℕ × Broker) {t : String} {d : ℕ}
      → (on_topic topic p).0 ≡ opened t d
      → t ≡ topic
  on_topic-same topic (none, b) h = absurd (ground arith)
  on_topic-same topic (some x, b) h = ground arith

  open_topic-let_in :
      (topic : String) (o : Option Refusal) (b : Broker) {t : String} {d : ℕ}
      → (open_topic topic o b).0 ≡ opened t d
      → (o ≡ none) × (t ≡ topic)
  open_topic-let_in topic (some r) b h = absurd (ground arith)
  open_topic-let_in topic none b h = (refl, on_topic-same topic (subscribe topic b) h)

  -- Where authentication is on, a stream opens only for a token that, without its Bearer prefix, is
  -- an API key or an access token of the store that has not expired, and it opens on the topic that
  -- the namespace and the table of the query name.
  pub event_stream-IsLive :
      (token namespace table : String) (store : AuthStore) (b : Broker) {t : String} {d : ℕ}
      → (event_stream true token namespace table store b).0 ≡ opened t d
      → IsLive (bare token) store × (t ≡ determine_topic namespace table)
  unfolding event_stream
  event_stream-IsLive token namespace table store b h =
      let (e, f) =
        open_topic-let_in (determine_topic namespace table) (authenticate_web_socket token store) b
          h in
      (authenticate_web_socket-IsLive token store e, f)
