-- ===== src/Events/Broker.antt =====
-- internal/events/broker.go: the broker, over channels that are numbered as they are made. A map is
-- the list of its entries, and ranging over it goes through that list. A call is one step:
-- Publish takes the mutex for reading only, so calls of it may overlap in the code, and then send in any
-- order to each channel; that is not modelled.
use bingsan.Prelude.{
  ℕ, suc, String, Bool, true, false, not, Option, none, some, List, [], ◌∷◌, ◌++◌, map, ◌&&◌, ◌==◌,
  ltb, eqb, length, some_of, keep, if◌then◌else◌,
}
use bingsan.Events.{CatalogEvent, topic, is_set}

pub record Channel : Type 0 where
  pub buffer : List CatalogEvent
  pub closed : Bool

-- `none` is a channel that is not made yet; those from `next` on are such.
abbrev pub Heap : Type 0
Heap = ℕ → Option Channel

abbrev pub Subscribers : Type 0
Subscribers = List (String × List ℕ)

-- `next` is where the next channel is made.
pub record Broker : Type 0 where
  pub subscribers : Subscribers
  pub buffer_size : ℕ
  pub closed : Bool
  pub channels : Heap
  pub next : ℕ

abbrev pub new_broker : Broker
new_broker = record {
  subscribers = [];
  buffer_size = 16;
  closed = false;
  channels = λ d. none;
  next = 0;
}

abbrev pub put : ℕ → Channel → Heap → Heap
put d c heap k = if eqb d k then some c else heap k

-- The entry of a topic.
unfoldable pub lookup : String → Subscribers → Option (List ℕ)
lookup t [] = none
lookup t ((u, cs) ∷ subs) = let rest = lookup t subs in if u == t then some cs else rest

-- `b.subscribers[topic][ch] = struct{}{}`, with the entry made if it is missing.
unfoldable pub add : String → ℕ → Subscribers → Subscribers
add t d [] = (t, d ∷ []) ∷ []
add t d ((u, cs) ∷ subs) =
    let rest = add t d subs in if u == t then (u, d ∷ cs) ∷ subs else (u, cs) ∷ rest

-- `delete(subs, ch)` in the entry of a topic.
unfoldable pub remove : String → ℕ → Subscribers → Subscribers
remove t d [] = []
remove t d ((u, cs) ∷ subs) =
    let rest = remove t d subs in
    if u == t then (u, keep (λ c. not (eqb d c)) cs) ∷ subs else (u, cs) ∷ rest

-- `delete(b.subscribers, topic)`
unfoldable pub delete : String → Subscribers → Subscribers
delete t subs = keep (λ entry. not (entry.0 == t)) subs

-- The new channel, or nil where the broker is closed.
unfoldable pub subscribe : String → Broker → Option ℕ × Broker
subscribe t b = if b.closed then (none, b) else (
  some b.next,
  record b {
    subscribers = add t b.next b.subscribers;
    channels = put b.next (record { buffer = []; closed = false }) b.channels;
    next = suc b.next;
  },
)

-- `close`, which panics on a channel that is closed, and on nil.
unfoldable pub close_channel : ℕ → Heap → Option Heap
close_channel d heap = elim (heap d) [
  | none ↦ none
  | some c ↦ if c.closed then none else some (put d (record c { closed = true }) heap)
]

abbrev pub is_empty : Option (List ℕ) → Bool
is_empty (some []) = true
is_empty (some (d ∷ ds)) = false
is_empty none = false

abbrev pub clean_up : String → Subscribers → Subscribers
clean_up t subs = if is_empty (lookup t subs) then delete t subs else subs

abbrev pub closed_in : Subscribers → Broker → Heap → Option Broker
closed_in subs b heap = some (record b { subscribers = subs; channels = heap })

abbrev pub closed_one : Subscribers → Broker → Option Heap → Option Broker
closed_one subs b none = none
closed_one subs b (some heap) = closed_in subs b heap

-- `none` is a panic, here and below.
abbrev pub unsubscribe_from : String → ℕ → Option (List ℕ) → Broker → Option Broker
unsubscribe_from t d none b = some b
unsubscribe_from t d (some cs) b =
    if some_of (eqb d) cs
    then closed_one (clean_up t (remove t d b.subscribers)) b (close_channel d b.channels)
    else closed_in (clean_up t b.subscribers) b b.channels

unfoldable pub unsubscribe : String → ℕ → Broker → Option Broker
unsubscribe t d b = unsubscribe_from t d (lookup t b.subscribers) b

abbrev pub or_empty : Option (List ℕ) → List ℕ
or_empty none = []
or_empty (some cs) = cs

-- The channels that `Publish` collects.
unfoldable pub matching : CatalogEvent → Subscribers → List ℕ
matching e subs =
    or_empty (lookup (topic e) subs)
    ++ (if is_set e.namespace && not (topic e == e.namespace)
        then or_empty (lookup e.namespace subs)
        else [])
    ++ or_empty (lookup "*" subs)

-- The select with a default: a send where there is room. A send panics on a closed channel.
unfoldable pub send : ℕ → CatalogEvent → ℕ → Heap → Option Heap
send size e d heap = elim (heap d) [
  | none ↦ some heap
  | some c ↦
      if c.closed
      then none
      else if ltb (length c.buffer) size
      then some (put d (record c { buffer = c.buffer ++ e ∷ [] }) heap)
      else some heap
]

abbrev pub and_then : (Heap → Option Heap) → Option Heap → Option Heap
and_then f none = none
and_then f (some heap) = f heap

unfoldable pub send_all : ℕ → CatalogEvent → List ℕ → Heap → Option Heap
send_all size e [] heap = some heap
send_all size e (d ∷ ds) heap = and_then (send_all size e ds) (send size e d heap)

unfoldable pub publish : CatalogEvent → Broker → Option Broker
publish e b =
    if b.closed
    then some b
    else closed_one b.subscribers b (send_all b.buffer_size e (matching e b.subscribers) b.channels)

unfoldable pub channels_of : Subscribers → List ℕ
channels_of [] = []
channels_of ((t, cs) ∷ subs) = cs ++ channels_of subs

unfoldable pub close_channels : List ℕ → Heap → Option Heap
close_channels [] heap = some heap
close_channels (d ∷ ds) heap = and_then (close_channels ds) (close_channel d heap)

unfoldable pub close : Broker → Option Broker
close b =
    closed_one [] (record b { closed = true })
      (close_channels (channels_of b.subscribers) b.channels)

abbrev pub stats : Broker → List (String × ℕ)
stats b = map (λ entry. (entry.0, length entry.1)) b.subscribers

-- What a receive on a channel meets.
pub data Received : Type 0 where
  event : CatalogEvent → Received
  ended blocked : Received

abbrev pub taken : ℕ → Channel → List CatalogEvent → Heap → Received × Heap
taken d c [] heap = (if c.closed then ended else blocked, heap)
taken d c (e ∷ es) heap = (event e, put d (record c { buffer = es }) heap)

abbrev pub received : ℕ → Option Channel → Broker → Received × Broker
received d none b = (blocked, b)
received d (some c) b =
    let (got, heap) = taken d c c.buffer b.channels in (got, record b { channels = heap })

unfoldable pub receive : ℕ → Broker → Received × Broker
receive d b = received d (b.channels d) b
