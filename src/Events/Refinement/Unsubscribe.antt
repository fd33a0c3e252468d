-- ===== src/Events/Refinement/Unsubscribe.antt =====
-- `unsubscribe` of internal/events/broker.go against its specification.
use bingsan.Prelude.{
  ℕ, ◌+◌, ◌≤◌, ◌≡◌, refl, ap, ◌∙◌, String, Option, none, some, List, inl, inr, ◌&&◌, ◌==◌, eq_iff,
  arith, eqb, some_of, Bool-cases, Option-cases, if_cases, if◌then◌else◌,
}
use bingsan.Events.Broker.{
  Heap, Broker, lookup, channels_of, or_empty, unsubscribe, unsubscribe_from, closed_one, remove,
  clean_up, close_channel,
}
use bingsan.Events.Spec
use bingsan.Events.Spec.{Subscription, Feed, one_if, copies, offers, change, stop, stops}
use bingsan.Events.Registry.{
  count, under-channels_of, under-remove, channels_of-remove, under-clean_up, channels_of-clean_up,
  some_of-count,
}
use bingsan.Events.Channels.{shut, close_channel-open}
use bingsan.Events.Refinement.{
  channel_of, live_on, is_live, Implements, Gives, change-fresh, Implements-same,
}

-- Nothing stops where no live subscription of that number has the topic.
stops-idle :
    (t : String) (d : ℕ) (g : ℕ → Option Subscription)
    → live_on t (g d) ≡ 0
    → (k : ℕ) → change (stops t d) g k ≡ g k
stops-idle t d g h k = elim (Option-cases (g k)) [
  | inl nothing ↦ ground arith
  | inr (s, there) ↦ elim (Bool-cases (eqb d k && s.topic == t)) [
    | inr other ↦ ground arith
    | inl same ↦ let e : g d ≡ g k = ap g (ground arith) in ground arith
  ]
]

clean_up-Implements :
    (t : String) (b : Broker) (v : Feed)
    → Implements b v
    → Implements (record b { subscribers = clean_up t b.subscribers }) v
clean_up-Implements t b v h = record {
  channels = h.channels;
  topics = λ u d. under-clean_up t u d b.subscribers ∙ h.topics u d;
  once = λ d. let n = h.once d in let less = channels_of-clean_up t d b.subscribers in ground arith;
  fresh = h.fresh;
  next = h.next;
  size = h.size;
  closed = h.closed;
}

module _ (t : String) (d : ℕ) (g : ℕ → Option Subscription) (one : live_on t (g d) ≡ 1)
    (k : ℕ) where
  stops-shut : shut (eqb d k) (channel_of (g k)) ≡ channel_of (change (stops t d) g k)
  stops-shut = elim (Option-cases (g k)) [
    | inl nothing ↦ ground arith
    | inr (s, there) ↦ elim (Bool-cases (eqb d k)) [
      | inr other ↦ ground arith
      | inl same ↦ let e : g d ≡ g k = ap g (ground arith) in ground arith
    ]
  ]

  stops-under :
      (u : String)
      → (if t == u && eqb k d then 0 else live_on u (g k)) ≡ live_on u (change (stops t d) g k)
  stops-under u = elim (Option-cases (g k)) [
    | inl nothing ↦ ground arith
    | inr (s, there) ↦ elim (Bool-cases (eqb d k)) [
      | inr other ↦ ground arith
      | inl same ↦
          let e : g d ≡ g k = ap g (ground arith) in
          ground (arith, eq_iff s.topic t, eq_iff s.topic u, eq_iff t u)
    ]
  ]

  stops-count :
      (before after : ℕ)
      → after + (if eqb k d then live_on t (g k) else 0) ≡ before
      → before ≤ is_live (g k)
      → after ≤ is_live (change (stops t d) g k)
  stops-count before after e h = elim (Option-cases (g k)) [
    | inl nothing ↦ ground arith
    | inr (s, there) ↦ elim (Bool-cases (eqb d k)) [
      | inr other ↦ ground arith
      | inl same ↦ let e' : g d ≡ g k = ap g (ground arith) in ground arith
    ]
  ]

-- The subscription is taken off its topic, and its channel is closed.
remove-Implements :
    (t : String) (d : ℕ) (b : Broker) (v : Feed) (after : Heap)
    → ((k : ℕ) → after k ≡ shut (eqb d k) (b.channels k))
    → live_on t (v.subscriptions d) ≡ 1
    → Implements b v
    → Implements
        (record b { subscribers = remove t d b.subscribers; channels = after })
        (Spec.unsubscribe t d v)
remove-Implements t d b v after f one h = record {
  channels = λ k. f k ∙ ap (shut (eqb d k)) (h.channels k) ∙ stops-shut t d v.subscriptions one k;
  topics = λ u k.
      under-remove t u d k b.subscribers
      ∙ ap (λ n. if t == u && eqb k d then 0 else n) (h.topics u k)
      ∙ stops-under t d v.subscriptions one k u;
  once = λ k.
      let e = channels_of-remove t d k b.subscribers in
      let e' = h.topics t k in
      stops-count t d v.subscriptions one k (count k (channels_of b.subscribers))
        (count k (channels_of (remove t d b.subscribers))) (ground arith) (h.once k);
  fresh = λ k. change-fresh (stops t d) v.subscriptions k (h.fresh k);
  next = h.next;
  size = h.size;
  closed = h.closed;
}

-- No subscription is live under the topic, so the feed stays as it is.
idle-Implements :
    (t : String) (d : ℕ) (b : Broker) (v : Feed)
    → live_on t (v.subscriptions d) ≡ 0
    → Implements b v
    → Implements b (Spec.unsubscribe t d v)
idle-Implements t d b v idle h =
    Implements-same b v (change (stops t d) v.subscriptions) (stops-idle t d v.subscriptions idle) h

live_on-one : (t : String) (o : Option Subscription) → 1 ≤ live_on t o → live_on t o ≡ 1
live_on-one t none h = absurd (ground arith)
live_on-one t (some s) h = ground arith

removed-Gives :
    (t : String) (d : ℕ) (b : Broker) (v : Feed)
    → 1 ≤ live_on t (v.subscriptions d)
    → Implements b v
    → Gives
        (closed_one (clean_up t (remove t d b.subscribers)) b (close_channel d b.channels))
        (Spec.unsubscribe t d v)
removed-Gives t d b v live h =
    let c = h.channels d in
    let n = h.once d in
    let e = h.topics t d in
    let less = under-channels_of t d b.subscribers in
    let (after, m, f) = close_channel-open d b.channels (ground arith) in
    let removed : Broker = record b { subscribers = remove t d b.subscribers; channels = after } in
    (
      record removed { subscribers = clean_up t removed.subscribers },
      ap (closed_one (clean_up t (remove t d b.subscribers)) b) m,
      clean_up-Implements t removed (Spec.unsubscribe t d v)
          (remove-Implements t d b v after f (live_on-one t (v.subscriptions d) live) h),
    )

unsubscribe_from-Gives :
    (t : String) (d : ℕ) (o : Option (List ℕ)) (b : Broker) (v : Feed)
    → count d (or_empty o) ≡ live_on t (v.subscriptions d)
    → Implements b v
    → Gives (unsubscribe_from t d o b) (Spec.unsubscribe t d v)
unfolding count
unsubscribe_from-Gives t d none b v e h = (b, refl, idle-Implements t d b v (ground arith) h)
unsubscribe_from-Gives t d (some cs) b v e h =
    let hit = some_of-count d cs in
    if_cases (λ o. Gives o (Spec.unsubscribe t d v)) (some_of (eqb d) cs)
      (λ found. removed-Gives t d b v (ground arith) h)
      (λ missed. (
        record b { subscribers = clean_up t b.subscribers },
        refl,
        idle-Implements t d (record b { subscribers = clean_up t b.subscribers }) v (ground arith)
            (clean_up-Implements t b v h),
      ))

pub unsubscribe-Gives :
    (t : String) (d : ℕ) (b : Broker) (v : Feed)
    → Implements b v
    → Gives (unsubscribe t d b) (Spec.unsubscribe t d v)
unfolding unsubscribe
unsubscribe-Gives t d b v h =
    unsubscribe_from-Gives t d (lookup t b.subscribers) b v (h.topics t d) h
