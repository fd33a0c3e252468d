-- ===== src/Events/Stream.antt =====
-- internal/api/handlers/events.go: the loop that streams the events of a subscription to a client.
use bingsan.Prelude.{
  ℕ, zero, suc, ◌<◌, ◌≡◌, refl, ap, ◌∙◌, Bool, true, false, some, List, [], ◌∷◌, arith, length,
  if_cases, if◌then◌else◌,
}
use bingsan.Events.{CatalogEvent}
use bingsan.Events.Broker.{
  Received, event, ended, blocked, Channel, Broker, new_broker, put, received, receive,
}
use bingsan.Events.Runs.{Call, Reply, run}
use bingsan.Events.Bounds.{run-buffer_bound, run-channel_closed}

-- How a loop ends: by the channel that is closed, by the client, by a write that fails. Else it is
-- waiting, or its rounds are used up.
pub data StreamEnd : Type 0 where
  channel_closed disconnected write_failed waiting out_of_rounds : StreamEnd

abbrev pub is_over : StreamEnd → Bool
is_over channel_closed = true
is_over disconnected = true
is_over write_failed = true
is_over waiting = false
is_over out_of_rounds = false

-- What the client gets, and the broker after it.
abbrev pub Streamed : Type 0
Streamed = List CatalogEvent × StreamEnd × Broker

abbrev wrote : CatalogEvent → Streamed → Streamed
wrote e (es, end, b) = (e ∷ es, end, b)

-- `can_write` says which writes succeed, and `gone n` whether the select with n rounds left finds
-- the client disconnected and takes that.
module _ (can_write : CatalogEvent → Bool) (gone : ℕ → Bool) where
  abbrev stream_on : (Broker → Streamed) → Received × Broker → Streamed
  stream_on more (event e, b) =
      let rest = more b in if can_write e then wrote e rest else ([], write_failed, b)
  stream_on more (ended, b) = ([], channel_closed, b)
  stream_on more (blocked, b) = ([], waiting, b)

  unfoldable pub stream : ℕ → ℕ → Broker → Streamed
  stream zero d b = ([], out_of_rounds, b)
  stream (suc n) d b =
      if gone n then ([], disconnected, b) else stream_on (stream n d) (receive d b)

  -- A round on a closed channel.
  stream_closed-suc :
      (n d : ℕ) (q : List CatalogEvent) (b : Broker)
      → b.channels d ≡ some (record { buffer = q; closed = true })
      → stream (suc n) d b ≡ (
          if gone n
          then ([], disconnected, b)
          else stream_on (stream n d) (received d (some (record { buffer = q; closed = true })) b))
  unfolding stream receive
  stream_closed-suc n d q b there =
      ap (λ c. if gone n then ([], disconnected, b) else stream_on (stream n d) (received d c b))
        there

  stream_closed-over :
      (n d : ℕ) (q : List CatalogEvent) (b : Broker)
      → b.channels d ≡ some (record { buffer = q; closed = true })
      → length q < n
      → is_over (stream n d b).1 ≡ true
  stream_closed-over zero d q b there less = absurd (ground arith)
  stream_closed-over (suc n) d [] b there less =
      ap (λ s. is_over s.1) (stream_closed-suc n d [] b there)
      ∙ if_cases {A = Streamed} (λ s. is_over s.1 ≡ true) (gone n) (λ _. refl) (λ _. refl)
  stream_closed-over (suc n) d (e ∷ q) b there less =
      let after : Broker = record b {
        channels = put d (record { buffer = q; closed = true }) b.channels;
      } in
      let rest = stream_closed-over n d q after (ground arith) (ground arith) in
      ap (λ s. is_over s.1) (stream_closed-suc n d (e ∷ q) b there)
      ∙ if_cases {A = Streamed} (λ s. is_over s.1 ≡ true) (gone n) (λ _. refl)
          (λ _.
            if_cases {A = Streamed} (λ s. is_over s.1 ≡ true) (can_write e) (λ _. rest) (λ _. refl))

  -- A stream ends. Once the broker is closed, whatever calls came before and after the Close, the
  -- loop on a subscription's channel is over within 17 rounds: it returns by the channel that is
  -- closed, by the client that is gone or by a write that fails, and never waits again.
  pub stream-over :
      (cs : List Call) {rs : List Reply} {b : Broker} (d : ℕ) {c : Channel}
      → run cs new_broker ≡ some (rs, b)
      → b.channels d ≡ some c
      → b.closed ≡ true
      → is_over (stream 17 d b).1 ≡ true
  stream-over cs {b = b} d {c} ran there z =
      let bound = run-buffer_bound cs ran d there in
      let end = run-channel_closed cs ran d there z in
      stream_closed-over 17 d c.buffer b (ground arith) (ground arith)

-- A client that stays gets what is left in the buffer of a closed channel, in order, and then the
-- loop ends.
stream_closed-all :
    (n d : ℕ) (q : List CatalogEvent) (b : Broker)
    → b.channels d ≡ some (record { buffer = q; closed = true })
    → length q < n
    → ((stream (λ e. true) (λ k. false) n d b).0 ≡ q)
      × ((stream (λ e. true) (λ k. false) n d b).1 ≡ channel_closed)
stream_closed-all zero d q b there less = absurd (ground arith)
stream_closed-all (suc n) d [] b there less =
    let e = stream_closed-suc (λ e. true) (λ k. false) n d [] b there in
    (ap (λ s. s.0) e, ap (λ s. s.1) e)
stream_closed-all (suc n) d (x ∷ q) b there less =
    let after : Broker = record b {
      channels = put d (record { buffer = q; closed = true }) b.channels;
    } in
    let (f, g) = stream_closed-all n d q after (ground arith) (ground arith) in
    let e = stream_closed-suc (λ e. true) (λ k. false) n d (x ∷ q) b there in
    (ap (λ s. s.0) e ∙ ap (λ es. x ∷ es) f, ap (λ s. s.1) e ∙ g)

-- Once the broker is closed, a stream whose client stays and whose writes succeed writes the events
-- that its channel still holds, all of them and in order, within 17 rounds, and ends by the closed
-- channel.
pub stream-delivers :
    (cs : List Call) {rs : List Reply} {b : Broker} (d : ℕ) {c : Channel}
    → run cs new_broker ≡ some (rs, b)
    → b.channels d ≡ some c
    → b.closed ≡ true
    → ((stream (λ e. true) (λ k. false) 17 d b).0 ≡ c.buffer)
      × ((stream (λ e. true) (λ k. false) 17 d b).1 ≡ channel_closed)
stream-delivers cs {b = b} d {c} ran there z =
    let bound = run-buffer_bound cs ran d there in
    let end = run-channel_closed cs ran d there z in
    stream_closed-all 17 d c.buffer b (ground arith) (ground arith)
