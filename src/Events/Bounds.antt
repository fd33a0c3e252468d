-- ===== src/Events/Bounds.antt =====
-- The queues of internal/events/broker.go stay within their buffer, and a closed broker has no
-- subscription that is live.
use bingsan.Prelude.{
  ℕ, zero, suc, ◌≤◌, ◌≡◌, refl, sym, ap, ◌∙◌, true, not, Option, none, some, List, [], ◌∷◌, ◌++◌,
  inl, inr, arith, length, Option-cases, if_cases, subst,
}
use bingsan.Events.{CatalogEvent}
use bingsan.Events.Broker.{Channel, Broker, new_broker}
use bingsan.Events.Spec
use bingsan.Events.Spec.{
  Subscription, Feed, no_subscriptions, one_if, change, stop, stops, takes, offer, offers, offered,
  copies,
}
use bingsan.Events.Refinement.{is_live, channel_of, Implements}
use bingsan.Events.Runs.{
  Call, subscribes, unsubscribes, publishes, closes, receives, Reply, run, feed_call, feed_run,
  run-refines,
}

abbrev queue_length : Option Subscription → ℕ
queue_length none = 0
queue_length (some s) = length s.queue

record IsBounded (v : Feed) : Type 0 where
  size : v.size ≡ 16
  queues : (d : ℕ) → queue_length (v.subscriptions d) ≤ 16
  lives : (d : ℕ) → is_live (v.subscriptions d) ≤ one_if (not v.closed)

length-last : (es : List CatalogEvent) (e : CatalogEvent) → length (es ++ e ∷ []) ≡ suc (length es)
length-last [] e = refl
length-last (x ∷ es) e = let rest = length-last es e in ground arith

offers-bound :
    (e : CatalogEvent) (n : ℕ) (q : List CatalogEvent)
    → length q ≤ 16
    → length (offers 16 e n q) ≤ 16
offers-bound e zero q h = h
offers-bound e (suc n) q h =
    offers-bound e n (offer 16 e q) (let l = length-last q e in ground arith)

module _ (f : ℕ → Subscription → Subscription) (g : ℕ → Option Subscription) (d : ℕ) where
  queue-change :
      ((s : Subscription) → length s.queue ≤ 16 → length (f d s).queue ≤ 16)
      → queue_length (g d) ≤ 16
      → queue_length (change f g d) ≤ 16
  queue-change keeps h = elim (Option-cases (g d)) [
    | inl nothing ↦ ground arith
    | inr (s, there) ↦ let k = keeps s in ground arith
  ]

  live-change :
      (n : ℕ)
      → ((s : Subscription) → one_if s.live ≤ n → one_if (f d s).live ≤ n)
      → is_live (g d) ≤ n
      → is_live (change f g d) ≤ n
  live-change n keeps h = elim (Option-cases (g d)) [
    | inl nothing ↦ ground arith
    | inr (s, there) ↦ let k = keeps s in ground arith
  ]

stop-live : (g : ℕ → Option Subscription) (d : ℕ) → is_live (change (λ k s. stop s) g d) ≤ 0
stop-live g d = elim (Option-cases (g d)) [
  | inl nothing ↦ ground arith
  | inr (s, there) ↦ ground arith
]

offered-queue :
    (n : ℕ) (e : CatalogEvent) (s : Subscription)
    → n ≡ 16
    → length s.queue ≤ 16
    → length (offered n e s).queue ≤ 16
offered-queue n e s h l = rw h (
    if_cases {A = Subscription} (λ x. length x.queue ≤ 16) s.live
      (λ _. offers-bound e (copies s.topic e) s.queue l) (λ _. l))

left-bound : (q : List CatalogEvent) → length (Spec.left q) ≤ length q
left-bound [] = ground arith
left-bound (e ∷ es) = ground arith

takes-queue : (d k : ℕ) (s : Subscription) → length s.queue ≤ 16 → length (takes d k s).queue ≤ 16
takes-queue d k s h = let l = left-bound s.queue in ground arith

call-IsBounded : (c : Call) (v : Feed) → IsBounded v → IsBounded (feed_call c v).1
call-IsBounded (subscribes t) v h =
    if_cases IsBounded v.closed (λ _. h)
      (λ is_open. record {
        size = h.size;
        queues = λ d. let n = h.queues d in ground arith;
        lives = λ d. let n = h.lives d in ground arith;
      })
call-IsBounded (unsubscribes t d) v h = record {
  size = h.size;
  queues = λ k. queue-change (stops t d) v.subscriptions k (λ s l. ground arith) (h.queues k);
  lives = λ k.
      live-change (stops t d) v.subscriptions k (one_if (not v.closed)) (λ s l. ground arith)
        (h.lives k);
}
call-IsBounded (publishes e) v h =
    if_cases IsBounded v.closed (λ _. h)
      (λ is_open. record {
        size = h.size;
        queues = λ d.
            queue-change (λ k s. offered v.size e s) v.subscriptions d
              (λ s l. offered-queue v.size e s h.size l) (h.queues d);
        lives = λ d.
            live-change (λ k s. offered v.size e s) v.subscriptions d (one_if (not v.closed))
              (λ s l. ground arith) (h.lives d);
      })
call-IsBounded closes v h = record {
  size = h.size;
  queues = λ d. queue-change (λ k s. stop s) v.subscriptions d (λ s l. l) (h.queues d);
  lives = λ d. stop-live v.subscriptions d;
}
call-IsBounded (receives d) v h = record {
  size = h.size;
  queues = λ k. queue-change (takes d) v.subscriptions k (λ s l. takes-queue d k s l) (h.queues k);
  lives = λ k.
      live-change (takes d) v.subscriptions k (one_if (not v.closed)) (λ s l. ground arith)
        (h.lives k);
}

feed_run-IsBounded : (cs : List Call) (v : Feed) → IsBounded v → IsBounded (feed_run cs v).1
unfolding feed_run
feed_run-IsBounded [] v h = h
feed_run-IsBounded (c ∷ cs) v h = feed_run-IsBounded cs (feed_call c v).1 (call-IsBounded c v h)

start-IsBounded : IsBounded no_subscriptions
start-IsBounded = record { size = refl; queues = λ d. ground arith; lives = λ d. ground arith }

run-Implements :
    (cs : List Call) {rs : List Reply} {b : Broker}
    → run cs new_broker ≡ some (rs, b)
    → Implements b (feed_run cs no_subscriptions).1
run-Implements cs {rs} {b} ran =
    let (after, e, h) = run-refines cs in
    let same : after ≡ b = some_second (sym e ∙ ran) in
    subst (λ x. Implements x (feed_run cs no_subscriptions).1) same h
  where
    some_second : {p q : List Reply × Broker} → some p ≡ some q → p.1 ≡ q.1
    some_second {p} e = ap (λ o. elim o [ none ↦ p.1 | some x ↦ x.1 ]) e

channel_bound :
    (v : Feed) (d : ℕ) (c : Channel)
    → IsBounded v
    → some c ≡ channel_of (v.subscriptions d)
    → length c.buffer ≤ 16
channel_bound v d c h e =
    let l = h.queues d in
    elim (Option-cases (v.subscriptions d)) [
      | inl nothing ↦ absurd (ground arith)
      | inr (s, there) ↦ ground arith
    ]

channel_closed :
    (v : Feed) (d : ℕ) (c : Channel)
    → IsBounded v
    → some c ≡ channel_of (v.subscriptions d)
    → v.closed ≡ true
    → c.closed ≡ true
channel_closed v d c h e z =
    let l = h.lives d in
    elim (Option-cases (v.subscriptions d)) [
      | inl nothing ↦ absurd (ground arith)
      | inr (s, there) ↦ ground arith
    ]

module _ (cs : List Call) {rs : List Reply} {b : Broker} (ran : run cs new_broker ≡ some (rs, b))
    (d : ℕ) {c : Channel} (there : b.channels d ≡ some c) where
  -- The channels of a broker never hold more than their buffer of 16 events, whatever calls of
  -- Subscribe, unsubscribe, Publish and Close and whatever receives came before.
  pub run-buffer_bound : length c.buffer ≤ 16
  run-buffer_bound =
      let h = run-Implements cs ran in
      channel_bound (feed_run cs no_subscriptions).1 d c
        (feed_run-IsBounded cs no_subscriptions start-IsBounded) (sym there ∙ h.channels d)

  -- Once the broker is closed, so is every channel it has made.
  pub run-channel_closed : b.closed ≡ true → c.closed ≡ true
  run-channel_closed z =
      let h = run-Implements cs ran in
      channel_closed (feed_run cs no_subscriptions).1 d c
        (feed_run-IsBounded cs no_subscriptions start-IsBounded) (sym there ∙ h.channels d)
        (sym h.closed ∙ z)
