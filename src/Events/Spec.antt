-- ===== src/Events/Spec.antt =====
-- What internal/events/broker.go promises: each subscription has a topic and a queue of its own, and
-- a published event is offered to the queues of the live subscriptions whose topic it matches.
use bingsan.Prelude.{
  ℕ, zero, suc, ◌+◌, String, Bool, true, false, not, Option, none, some, List, [], ◌∷◌, ◌++◌, ◌&&◌,
  ◌==◌, ltb, eqb, length, if◌then◌else◌,
}
use bingsan.Events.{CatalogEvent, topic, is_set}
use bingsan.Events.Broker.{Received, event, ended, blocked}

pub record Subscription : Type 0 where
  pub topic : String
  pub queue : List CatalogEvent
  pub live : Bool

-- Subscription number d, if it is made; they are made in order.
pub record Feed : Type 0 where
  pub subscriptions : ℕ → Option Subscription
  pub made : ℕ
  pub size : ℕ
  pub closed : Bool

abbrev pub no_subscriptions : Feed
no_subscriptions = record { subscriptions = λ d. none; made = 0; size = 16; closed = false }

abbrev pub one_if : Bool → ℕ
one_if true = 1
one_if false = 0

-- How often an event is offered to a subscription on a topic.
abbrev pub copies : String → CatalogEvent → ℕ
copies t e =
    one_if (topic e == t)
    + one_if (is_set e.namespace && not (topic e == e.namespace) && e.namespace == t)
    + one_if ("*" == t)

-- What is offered to a full queue is lost.
abbrev pub offer : ℕ → CatalogEvent → List CatalogEvent → List CatalogEvent
offer size e q = if ltb (length q) size then q ++ e ∷ [] else q

abbrev pub offers : ℕ → CatalogEvent → ℕ → List CatalogEvent → List CatalogEvent
offers size e zero q = q
offers size e (suc n) q = offers size e n (offer size e q)

abbrev pub change :
    (ℕ → Subscription → Subscription) → (ℕ → Option Subscription) → ℕ → Option Subscription
change f subscriptions d = elim (subscriptions d) [ none ↦ none | some s ↦ some (f d s) ]

abbrev pub stop : Subscription → Subscription
stop s = record s { live = false }

abbrev pub stops : String → ℕ → ℕ → Subscription → Subscription
stops t d k s = if eqb d k && s.topic == t then stop s else s

abbrev pub offered : ℕ → CatalogEvent → Subscription → Subscription
offered size e s =
    if s.live then record s { queue = offers size e (copies s.topic e) s.queue } else s

abbrev pub add_subscription : ℕ → String → (ℕ → Option Subscription) → ℕ → Option Subscription
add_subscription made t subscriptions d =
    if eqb made d then some (record { topic = t; queue = []; live = true }) else subscriptions d

abbrev pub subscribe : String → Feed → Feed
subscribe t v =
    if v.closed
    then v
    else record v { subscriptions = add_subscription v.made t v.subscriptions; made = suc v.made }

abbrev pub unsubscribe : String → ℕ → Feed → Feed
unsubscribe t d v = record v { subscriptions = change (stops t d) v.subscriptions }

abbrev pub publish : CatalogEvent → Feed → Feed
publish e v =
    if v.closed
    then v
    else record v { subscriptions = change (λ k s. offered v.size e s) v.subscriptions }

abbrev pub close : Feed → Feed
close v = record v { subscriptions = change (λ k s. stop s) v.subscriptions; closed = true }

-- What a receive gets from a queue, and what is left of it.
abbrev pub got : Bool → List CatalogEvent → Received
got live [] = if live then blocked else ended
got live (e ∷ es) = event e

abbrev pub left : List CatalogEvent → List CatalogEvent
left [] = []
left (e ∷ es) = es

abbrev pub takes : ℕ → ℕ → Subscription → Subscription
takes d k s = if eqb d k then record s { queue = left s.queue } else s

abbrev pub answer : Option Subscription → Received
answer none = blocked
answer (some s) = got s.live s.queue

abbrev pub receive : ℕ → Feed → Received × Feed
receive d v =
    (answer (v.subscriptions d), record v { subscriptions = change (takes d) v.subscriptions })
