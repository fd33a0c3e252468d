-- ===== src/Events/Tests.antt =====
-- A broker with three subscriptions, and one stream, on concrete events.
use bingsan.Prelude.{◌≡◌, refl, String, true, false, Option, none, some, List, [], ◌∷◌, keep}
use bingsan.Prelude.Int.{pos}
use bingsan.Auth.{AuthStore}
use bingsan.Auth.Credentials.{Faults}
use bingsan.Events.Connection.{
  IsLive, bare, check_token, authenticate_web_socket, event_stream, event_stream-IsLive,
}
use bingsan.Events.{
  CatalogEvent, table_created, transaction_committed, new_event, with_namespace, with_table, topic,
  determine_topic,
}
use bingsan.Events.Broker.{
  Channel, Broker, new_broker, subscribe, unsubscribe, publish, close, receive, lookup, add, remove,
  delete, matching, send, send_all, close_channel, close_channels, channels_of,
}
use bingsan.Events.Spec.{no_subscriptions}
use bingsan.Events.Refinement.{Implements}
use bingsan.Events.Runs.{
  Call, subscribes, unsubscribes, publishes, closes, Reply, run, feed_run, run-refines,
}
use bingsan.Events.Stream.{stream, is_over, channel_closed, stream-over, stream-delivers}

abbrev orders_created : CatalogEvent
orders_created = with_table "orders" (with_namespace "sales" (new_event "1" (pos 5) table_created))

abbrev committed : CatalogEvent
committed = new_event "2" (pos 6) transaction_committed

abbrev calls : List Call
calls =
    subscribes "*"
    ∷ subscribes "sales"
    ∷ subscribes "sales/orders"
    ∷ publishes orders_created
    ∷ unsubscribes "sales" 1
    ∷ publishes committed
    ∷ closes
    ∷ []

abbrev last : Option (List Reply × Broker) → List Reply × Broker
last none = ([], new_broker)
last (some p) = p

abbrev end : List Reply × Broker
end = last (run calls new_broker)

-- The event without a namespace is in the queue of "*" twice.
abbrev held : Channel
held = record { buffer = orders_created ∷ committed ∷ committed ∷ []; closed = true }

runs :
    (run calls new_broker ≡ some (end.0, end.1))
    × (end.1.channels 0 ≡ some held)
    × (end.1.closed ≡ true)
unfolding run subscribe unsubscribe publish close receive lookup add remove delete matching send
    send_all close_channel close_channels channels_of topic keep
runs = (refl, refl, refl)

run-refines_example :
    (after : Broker) × (run calls new_broker ≡ some ((feed_run calls no_subscriptions).0, after))
    × Implements after (feed_run calls no_subscriptions).1
run-refines_example = run-refines calls

stream-over_example : is_over (stream (λ e. true) (λ n. false) 17 0 end.1).1 ≡ true
stream-over_example = stream-over (λ e. true) (λ n. false) calls 0 runs.0 runs.1 runs.2

stream-delivers_example :
    ((stream (λ e. true) (λ n. false) 17 0 end.1).0 ≡ orders_created ∷ committed ∷ committed ∷ [])
    × ((stream (λ e. true) (λ n. false) 17 0 end.1).1 ≡ channel_closed)
stream-delivers_example = stream-delivers calls 0 runs.0 runs.1 runs.2

abbrev all_up : Faults
all_up = record {
  token_query = false;
  key_query = false;
  previous_query = false;
  last_used = false;
}

abbrev plain : String → String
plain s = s

abbrev tokens : AuthStore
tokens = record {
  tokens =
      record { access_token_hash = "abc"; client_id = "ci"; scopes = []; expires_at = pos 100 }
      ∷ [];
  keys = [];
}

event_stream-IsLive_example :
    IsLive plain all_up (pos 5) (bare "Bearer_abc") tokens
    × ("sales/orders" ≡ determine_topic "sales" "orders")
unfolding event_stream authenticate_web_socket check_token subscribe determine_topic
event_stream-IsLive_example =
    event_stream-IsLive plain all_up (pos 5) "Bearer_abc" "sales" "orders" tokens new_broker refl
