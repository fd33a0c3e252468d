-- ===== src/Events/Runs.antt =====
-- Calls of the broker of internal/events/broker.go, one after the other, from a new broker on.
use bingsan.Prelude.{
  ℕ, ◌≡◌, refl, ap, ◌∙◌, String, Option, none, some, List, [], ◌∷◌, arith, if◌then◌else◌,
}
use bingsan.Events.{CatalogEvent}
use bingsan.Events.Broker.{
  Received, Broker, new_broker, subscribe, unsubscribe, publish, close, receive, lookup,
  channels_of,
}
use bingsan.Events.Spec
use bingsan.Events.Spec.{Subscription, Feed, no_subscriptions, change, offer, offers, copies}
use bingsan.Events.Registry.{count}
use bingsan.Events.Refinement.{Implements, Gives, both_if}
use bingsan.Events.Refinement.{subscribe-Implements}
use bingsan.Events.Refinement.Publish.{publish-Gives}
use bingsan.Events.Refinement.Close.{close-Gives}
use bingsan.Events.Refinement.Unsubscribe.{unsubscribe-Gives}
use bingsan.Events.Refinement.Receive.{receive-Implements}

-- A receive is the subscriber's own, on the channel of its subscription.
pub data Call : Type 0 where
  subscribes : String → Call
  unsubscribes : String → ℕ → Call
  publishes : CatalogEvent → Call
  closes : Call
  receives : ℕ → Call

pub data Reply : Type 0 where
  subscribed : Option ℕ → Reply
  done : Reply
  received : Received → Reply

abbrev and_done : Option Broker → Option (Reply × Broker)
and_done none = none
and_done (some b) = some (done, b)

abbrev pub call : Call → Broker → Option (Reply × Broker)
call (subscribes t) b = let (d, after) = subscribe t b in some (subscribed d, after)
call (unsubscribes t d) b = and_done (unsubscribe t d b)
call (publishes e) b = and_done (publish e b)
call closes b = and_done (close b)
call (receives d) b = let (got, after) = receive d b in some (received got, after)

abbrev then_reply : Reply → Option (List Reply × Broker) → Option (List Reply × Broker)
then_reply r none = none
then_reply r (some (rs, b)) = some (r ∷ rs, b)

abbrev continue :
    (Broker → Option (List Reply × Broker)) → Option (Reply × Broker) → Option (List Reply × Broker)
continue more none = none
continue more (some (r, b)) = then_reply r (more b)

-- `none` where a call panics.
unfoldable pub run : List Call → Broker → Option (List Reply × Broker)
run [] b = some ([], b)
run (c ∷ cs) b = continue (run cs) (call c b)

abbrev number : Feed → Option ℕ
number v = if v.closed then none else some v.made

abbrev pub feed_call : Call → Feed → Reply × Feed
feed_call (subscribes t) v = (subscribed (number v), Spec.subscribe t v)
feed_call (unsubscribes t d) v = (done, Spec.unsubscribe t d v)
feed_call (publishes e) v = (done, Spec.publish e v)
feed_call closes v = (done, Spec.close v)
feed_call (receives d) v = let (got, after) = Spec.receive d v in (received got, after)

unfoldable pub feed_run : List Call → Feed → List Reply × Feed
feed_run [] v = ([], v)
feed_run (c ∷ cs) v =
    let (r, after) = feed_call c v in let (rs, last) = feed_run cs after in (r ∷ rs, last)

-- The call does not panic, it replies what the feed replies, and the broker stands for the feed.
abbrev Replies : Option (Reply × Broker) → Reply × Feed → Type 0
Replies o (r, v) = (b : Broker) × (o ≡ some (r, b)) × Implements b v

Gives-Replies : (o : Option Broker) (v : Feed) → Gives o v → Replies (and_done o) (done, v)
Gives-Replies o v (b, e, h) = (b, ap and_done e, h)

subscribe-number :
    (t : String) (b : Broker) (v : Feed) → Implements b v → (subscribe t b).0 ≡ number v
unfolding subscribe
subscribe-number t b v h =
    both_if {A = Option ℕ × Broker} (λ p w. p.0 ≡ w) b.closed v.closed h.closed (λ _. refl)
      (λ _. ap some h.next)

call-Replies :
    (c : Call) (b : Broker) (v : Feed) → Implements b v → Replies (call c b) (feed_call c v)
call-Replies (subscribes t) b v h = (
  (subscribe t b).1,
  ap (λ d. some (subscribed d, (subscribe t b).1)) (subscribe-number t b v h),
  subscribe-Implements t b v h,
)
call-Replies (unsubscribes t d) b v h =
    Gives-Replies (unsubscribe t d b) (Spec.unsubscribe t d v) (unsubscribe-Gives t d b v h)
call-Replies (publishes e) b v h =
    Gives-Replies (publish e b) (Spec.publish e v) (publish-Gives e b v h)
call-Replies closes b v h = Gives-Replies (close b) (Spec.close v) (close-Gives b v h)
call-Replies (receives d) b v h =
    let (e, f) = receive-Implements d b v h in
    ((receive d b).1, ap (λ r. some (received r, (receive d b).1)) e, f)

new_broker-Implements : Implements new_broker no_subscriptions
unfolding count lookup channels_of
new_broker-Implements = record {
  channels = λ d. refl;
  topics = λ t d. refl;
  once = λ d. ground arith;
  fresh = λ d. ground arith;
  next = refl;
  size = refl;
  closed = refl;
}

run_from-refines :
    (cs : List Call) (b : Broker) (v : Feed)
    → Implements b v
    → (after : Broker) × (run cs b ≡ some ((feed_run cs v).0, after))
      × Implements after (feed_run cs v).1
unfolding run feed_run
run_from-refines [] b v h = (b, refl, h)
run_from-refines (c ∷ cs) b v h =
    let (middle, e, f) = call-Replies c b v h in
    let (after, e', f') = run_from-refines cs middle (feed_call c v).1 f in
    (after, ap (continue (run cs)) e ∙ ap (then_reply (feed_call c v).0) e', f')

-- The broker refines its specification: from a new broker on, any calls of Subscribe, unsubscribe,
-- Publish and Close and any receives, in any order, run without a send on a closed channel and
-- without closing one twice, they reply what the feed of subscriptions replies, and the broker they
-- end in stands for that feed: the channels are the queues, and those in the map of subscribers are
-- the live ones, once each and under their topics.
pub run-refines :
    (cs : List Call)
    → (after : Broker) × (run cs new_broker ≡ some ((feed_run cs no_subscriptions).0, after))
      × Implements after (feed_run cs no_subscriptions).1
run-refines cs = run_from-refines cs new_broker no_subscriptions new_broker-Implements
