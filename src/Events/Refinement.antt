-- ===== src/Events/Refinement.antt =====
-- internal/events/broker.go against its specification: when the broker stands for a feed, and that
-- each call keeps it so.
pub mod Publish
pub mod Close
pub mod Unsubscribe
pub mod Receive
use bingsan.Prelude.{
  ℕ, zero, suc, ◌+◌, ◌≤◌, ◌≡◌, refl, sym, ap, ◌∙◌, String, Bool, true, false, not, Option, none,
  some, List, [], ◌∷◌, ◌++◌, inl, inr, ◌&&◌, ◌||◌, ◌==◌, eq_iff, arith, ltb, eqb, length, some_of,
  Bool-cases, Option-cases, if_cases, if◌then◌else◌,
}
use bingsan.Events.{CatalogEvent, topic, is_set}
use bingsan.Events.Broker.{
  Channel, Heap, Subscribers, Broker, put, lookup, channels_of, matching, or_empty, subscribe,
  unsubscribe, unsubscribe_from, publish, close, receive, closed_one, closed_in, add, remove,
  clean_up, send_all, close_channel, close_channels, is_empty,
}
use bingsan.Events.Spec
use bingsan.Events.Spec.{Subscription, Feed, one_if, copies, offers, change, stop, offered}
use bingsan.Events.Registry.{
  count, under, count_++, under-channels_of, under-add, channels_of-add, under-remove,
  channels_of-remove, under-clean_up, channels_of-clean_up, some_of-count,
}
use bingsan.Events.Channels.{
  open_count, shut, sent, close_channel-open, close_channels-open, Closes, send_all-open, Sends,
}

-- The channel of a subscription, and how often it stands under a topic.
abbrev pub channel_of : Option Subscription → Option Channel
channel_of none = none
channel_of (some s) = some (record { buffer = s.queue; closed = not s.live })

abbrev pub live_on : String → Option Subscription → ℕ
live_on t none = 0
live_on t (some s) = one_if (s.live && s.topic == t)

abbrev pub is_live : Option Subscription → ℕ
is_live none = 0
is_live (some s) = one_if s.live

abbrev pub is_made : Option Subscription → ℕ
is_made none = 0
is_made (some s) = 1

-- The broker stands for a feed: each subscription has its channel, and the channels that are
-- subscribed are those of the live subscriptions, once each and under their topics.
pub record Implements (b : Broker) (v : Feed) : Type 0 where
  pub channels : (d : ℕ) → b.channels d ≡ channel_of (v.subscriptions d)
  pub topics : (t : String) (d : ℕ) → under t d b.subscribers ≡ live_on t (v.subscriptions d)
  pub once : (d : ℕ) → count d (channels_of b.subscribers) ≤ is_live (v.subscriptions d)
  pub fresh : (d : ℕ) → is_made (v.subscriptions d) ≤ one_if (ltb d v.made)
  pub next : b.next ≡ v.made
  pub size : b.buffer_size ≡ v.size
  pub closed : b.closed ≡ v.closed

-- A call that does not panic, and the feed that the broker then stands for.
abbrev pub Gives : Option Broker → Feed → Type 0
Gives o v = (b : Broker) × (o ≡ some b) × Implements b v

pub both_if {ℓ} :
    {A B : Type 0} (P : A → B → Type ℓ) (c d : Bool) {x x' : A} {y y' : B}
    → c ≡ d
    → (c ≡ true → P x y)
    → (c ≡ false → P x' y')
    → P (if c then x else x') (if d then y else y')
both_if P true true e h k = h refl
both_if P true false e h k = absurd (ground arith)
both_if P false true e h k = absurd (ground arith)
both_if P false false e h k = k refl

not_made :
    (n d : ℕ) (o : Option Subscription) → is_made o ≤ one_if (ltb d n) → eqb n d ≡ true → o ≡ none
not_made n d none h e = refl
not_made n d (some s) h e = absurd (ground arith)

subscribe_open-Implements :
    (t : String) (b : Broker) (v : Feed)
    → Implements b v
    → Implements
        (record b {
          subscribers = add t b.next b.subscribers;
          channels = put b.next (record { buffer = []; closed = false }) b.channels;
          next = suc b.next;
        })
        (record v {
          subscriptions = Spec.add_subscription v.made t v.subscriptions;
          made = suc v.made;
        })
subscribe_open-Implements t b v h = record {
  channels = λ d.
      let e = h.channels d in
      let n = h.next in
      elim (Bool-cases (eqb v.made d)) [ inl same ↦ ground arith | inr other ↦ ground arith ];
  topics = λ u d.
      let e = h.topics u d in
      let n = h.next in
      let f = under-add t u b.next d b.subscribers in
      elim (Bool-cases (eqb v.made d)) [
        | inl same ↦ let g = not_made v.made d (v.subscriptions d) (h.fresh d) same in ground arith
        | inr other ↦ ground arith
      ];
  once = λ d.
      let e = h.once d in
      let n = h.next in
      let f = channels_of-add t b.next d b.subscribers in
      elim (Bool-cases (eqb v.made d)) [
        | inl same ↦ let g = not_made v.made d (v.subscriptions d) (h.fresh d) same in ground arith
        | inr other ↦ ground arith
      ];
  fresh = λ d. let e = h.fresh d in ground arith;
  next = ap suc h.next;
  size = h.size;
  closed = h.closed;
}

pub subscribe-Implements :
    (t : String) (b : Broker) (v : Feed)
    → Implements b v
    → Implements (subscribe t b).1 (Spec.subscribe t v)
unfolding subscribe
subscribe-Implements t b v h =
    both_if {A = Option ℕ × Broker} (λ p w. Implements p.1 w) b.closed v.closed h.closed (λ _. h)
      (λ _. subscribe_open-Implements t b v h)

-- A change that keeps the topic and the life of each subscription.
pub live_on-change :
    (t : String) (f : ℕ → Subscription → Subscription) (g : ℕ → Option Subscription) (d : ℕ)
    → ((s : Subscription) → ((f d s).topic ≡ s.topic) × ((f d s).live ≡ s.live))
    → (live_on t (change f g d) ≡ live_on t (g d)) × (is_live (change f g d) ≡ is_live (g d))
live_on-change t f g d same = elim (Option-cases (g d)) [
  | inl nothing ↦ (ground arith, ground arith)
  | inr (s, there) ↦ let (e, e') = same s in (ground arith, ground arith)
]

pub change-fresh :
    (f : ℕ → Subscription → Subscription) (g : ℕ → Option Subscription) (d : ℕ) {n : ℕ}
    → is_made (g d) ≤ n
    → is_made (change f g d) ≤ n
change-fresh f g d h = elim (Option-cases (g d)) [
  | inl nothing ↦ ground arith
  | inr (s, there) ↦ ground arith
]

-- Subscriptions that are the same stand for the same.
pub Implements-same :
    (b : Broker) (v : Feed) (g : ℕ → Option Subscription)
    → ((d : ℕ) → g d ≡ v.subscriptions d)
    → Implements b v
    → Implements b (record v { subscriptions = g })
Implements-same b v g same h = record {
  channels = λ d. h.channels d ∙ ap channel_of (sym (same d));
  topics = λ t d. h.topics t d ∙ ap (live_on t) (sym (same d));
  once = λ d. let e = ap is_live (same d) in let n = h.once d in ground arith;
  fresh = λ d. let e = h.fresh d in let e' = ap is_made (same d) in ground arith;
  next = h.next;
  size = h.size;
  closed = h.closed;
}
