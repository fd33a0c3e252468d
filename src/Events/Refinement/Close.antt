-- ===== src/Events/Refinement/Close.antt =====
-- `Close` of internal/events/broker.go against its specification.
use bingsan.Prelude.{
  ℕ, ◌≤◌, ◌≡◌, refl, sym, ap, ◌∙◌, String, true, Option, [], inl, inr, eq_iff, arith, ltb,
  Option-cases,
}
use bingsan.Events.Broker.{Broker, lookup, channels_of, close, closed_one}
use bingsan.Events.Spec
use bingsan.Events.Spec.{Subscription, Feed, one_if, copies, offers, change, stop, offered}
use bingsan.Events.Registry.{count, under-channels_of}
use bingsan.Events.Channels.{shut, close_channels-open, Closes}
use bingsan.Events.Refinement.{channel_of, live_on, Implements, Gives, change-fresh}

shut-stop :
    (n : ℕ) (f : ℕ → Option Subscription) (d : ℕ)
    → ((t : String) → live_on t (f d) ≤ n)
    → shut (ltb 0 n) (channel_of (f d)) ≡ channel_of (change (λ k s. stop s) f d)
shut-stop n f d h = elim (Option-cases (f d)) [
  | inl nothing ↦ ground arith
  | inr (s, there) ↦ let some_live = h s.topic in ground (arith, eq_iff s.topic s.topic)
]

stop-none :
    (t : String) (f : ℕ → Option Subscription) (d : ℕ) → live_on t (change (λ k s. stop s) f d) ≡ 0
stop-none t f d = elim (Option-cases (f d)) [
  | inl nothing ↦ ground arith
  | inr (s, there) ↦ ground arith
]

Closes-Gives :
    (b : Broker) (v : Feed)
    → Implements b v
    → Closes (channels_of b.subscribers) b.channels
    → Gives (close b) (Spec.close v)
unfolding close count lookup channels_of
Closes-Gives b v h (after, m, f) = (
  record b { subscribers = []; channels = after; closed = true },
  ap (closed_one [] (record b { closed = true })) m,
  record {
    channels = λ d.
        let n = count d (channels_of b.subscribers) in
        f d
        ∙ ap (shut (ltb 0 n)) (h.channels d)
        ∙ shut-stop n v.subscriptions d (λ t.
          let e = h.topics t d in let less = under-channels_of t d b.subscribers in ground arith);
    topics = λ t d. sym (stop-none t v.subscriptions d);
    once = λ d. ground arith;
    fresh = λ d. change-fresh (λ k s. stop s) v.subscriptions d (h.fresh d);
    next = h.next;
    size = h.size;
    closed = refl;
  },
)

pub close-Gives : (b : Broker) (v : Feed) → Implements b v → Gives (close b) (Spec.close v)
close-Gives b v h = Closes-Gives b v h (
    close_channels-open (channels_of b.subscribers) b.channels
      (λ k. let n = h.once k in let c = h.channels k in ground arith))
