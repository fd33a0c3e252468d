-- ===== src/Events/Refinement/Publish.antt =====
-- `Publish` of internal/events/broker.go against its specification.
use bingsan.Prelude.{
  ℕ, ◌+◌, ◌≤◌, ◌≡◌, refl, sym, ap, ◌∙◌, String, Bool, not, Option, none, some, List, [], ◌++◌, inl,
  inr, ◌&&◌, ◌==◌, eq_iff, arith, Option-cases, if◌then◌else◌,
}
use bingsan.Events.{CatalogEvent, topic, is_set}
use bingsan.Events.Broker.{
  Subscribers, Broker, lookup, matching, or_empty, publish, closed_one, send_all,
}
use bingsan.Events.Spec
use bingsan.Events.Spec.{Subscription, Feed, one_if, copies, offers, change, stop, offered}
use bingsan.Events.Registry.{count, under, count_++}
use bingsan.Events.Channels.{open_count, sent, send_all-open, Sends}
use bingsan.Events.Refinement.{
  channel_of, live_on, Implements, Gives, both_if, live_on-change, change-fresh,
}

-- How often a subscription is to get an event.
abbrev wanted : CatalogEvent → Option Subscription → ℕ
wanted e none = 0
wanted e (some s) = if s.live then copies s.topic e else 0

count-parts :
    (d : ℕ) (xs ys zs : List ℕ) (b : Bool)
    → count d (xs ++ (if b then ys else []) ++ zs)
      ≡ count d xs + (if b then count d ys else 0) + count d zs
unfolding count
count-parts d xs ys zs b =
    let some_ys = if b then ys else [] in
    let e = count_++ d (xs ++ some_ys) zs in let f = count_++ d xs some_ys in ground arith

count-matching :
    (e : CatalogEvent) (d : ℕ) (subs : Subscribers)
    → count d (matching e subs)
      ≡ under (topic e) d subs
        + (if is_set e.namespace && not (topic e == e.namespace)
            then under e.namespace d subs
            else 0)
        + under "*" d subs
unfolding matching
count-matching e d subs =
    count-parts d (or_empty (lookup (topic e) subs)) (or_empty (lookup e.namespace subs))
      (or_empty (lookup "*" subs)) (is_set e.namespace && not (topic e == e.namespace))

matching-wanted :
    (e : CatalogEvent) (d : ℕ) (subs : Subscribers) (o : Option Subscription)
    → ((t : String) → under t d subs ≡ live_on t o)
    → count d (matching e subs) ≡ wanted e o
matching-wanted e d subs none h =
    ground (arith, count-matching e d subs, h (topic e), h e.namespace, h "*")
matching-wanted e d subs (some s) h = ground (
  arith,
  count-matching e d subs,
  h (topic e),
  h e.namespace,
  h "*",
  eq_iff s.topic (topic e),
  eq_iff (topic e) s.topic,
  eq_iff s.topic e.namespace,
  eq_iff e.namespace s.topic,
  eq_iff s.topic "*",
  eq_iff "*" s.topic,
)

wanted-open :
    (e : CatalogEvent) (o : Option Subscription) → 1 ≤ wanted e o → 1 ≤ open_count (channel_of o)
wanted-open e none h = h
wanted-open e (some s) h = ground arith

sent-wanted :
    (size : ℕ) (e : CatalogEvent) (f : ℕ → Option Subscription) (d : ℕ)
    → sent size e (wanted e (f d)) (channel_of (f d))
      ≡ channel_of (change (λ k s. offered size e s) f d)
sent-wanted size e f d = elim (Option-cases (f d)) [
  | inl nothing ↦ ground arith
  | inr (s, there) ↦ ground arith
]

offered-same :
    (size : ℕ) (e : CatalogEvent) (s : Subscription)
    → ((offered size e s).topic ≡ s.topic) × ((offered size e s).live ≡ s.live)
offered-same size e s = (ground arith, ground arith)

Sends-Gives :
    (e : CatalogEvent) (b : Broker) (v : Feed)
    → Implements b v
    → ((d : ℕ) → count d (matching e b.subscribers) ≡ wanted e (v.subscriptions d))
    → Sends b.buffer_size e (matching e b.subscribers) b.channels
    → Gives
        (closed_one b.subscribers b
          (send_all b.buffer_size e (matching e b.subscribers) b.channels))
        (record v { subscriptions = change (λ k s. offered v.size e s) v.subscriptions })
Sends-Gives e b v h total (after, m, f) =
    let same = λ (d : ℕ) (t : String).
      live_on-change t (λ k s. offered v.size e s) v.subscriptions d (offered-same v.size e) in
    (
      record b { channels = after },
      ap (closed_one b.subscribers b) m,
      record {
        channels = λ d.
            f d
            ∙ ap (λ n. sent b.buffer_size e n (b.channels d)) (total d)
            ∙ ap (sent b.buffer_size e (wanted e (v.subscriptions d))) (h.channels d)
            ∙ ap (λ z. sent z e (wanted e (v.subscriptions d)) (channel_of (v.subscriptions d)))
                h.size
            ∙ sent-wanted v.size e v.subscriptions d;
        topics = λ t d. h.topics t d ∙ sym (same d t).0;
        once = λ d. let e' = (same d "").1 in let n = h.once d in ground arith;
        fresh = λ d. change-fresh (λ k s. offered v.size e s) v.subscriptions d (h.fresh d);
        next = h.next;
        size = h.size;
        closed = h.closed;
      },
    )

publish_open-Gives :
    (e : CatalogEvent) (b : Broker) (v : Feed)
    → Implements b v
    → Gives
        (closed_one b.subscribers b
          (send_all b.buffer_size e (matching e b.subscribers) b.channels))
        (record v { subscriptions = change (λ k s. offered v.size e s) v.subscriptions })
publish_open-Gives e b v h =
    let total =
      λ (d : ℕ). matching-wanted e d b.subscribers (v.subscriptions d) (λ t. h.topics t d) in
    Sends-Gives e b v h total (
      send_all-open b.buffer_size e (matching e b.subscribers) b.channels (λ k some_sent.
        let n = total k in
        let c = h.channels k in
        let w = wanted-open e (v.subscriptions k) (ground arith) in ground arith))

pub publish-Gives :
    (e : CatalogEvent) (b : Broker) (v : Feed)
    → Implements b v
    → Gives (publish e b) (Spec.publish e v)
unfolding publish
publish-Gives e b v h =
    both_if Gives b.closed v.closed h.closed (λ _. (b, refl, h)) (λ _. publish_open-Gives e b v h)
