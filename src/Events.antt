-- ===== src/Events.antt =====
-- internal/events/broker.go: the broker of events. Every method holds the lock, so it is one step;
-- the payload is its JSON, and a payload that has none is the error of `json.Marshal`. A
-- subscriber's channel is what waits in its buffer; Go goes over the subscribers in any order, and
-- each is sent to by itself.
pub mod Window
pub mod Waiting
pub mod Refines
pub mod Examples
use sing_box_webui.Prelude.{
  ℕ, ◌+◌, ◌%◌, ◌^◌, String, Bool, true, false, List, [], ◌∷◌, ◌++◌, map, Option, none, some, ltb,
  ◌==◌, length, if◌then◌else◌, Result, ok, err,
}
use sing_box_webui.Prelude.Int.{ℤ, pos, negsuc}

pub record Event : Type 0 where
  pub id : ℕ
  pub type : String
  pub timestamp : ℤ
  pub payload : String

-- A subscriber: its key, and the events that wait in its channel, the oldest first.
pub record Subscriber : Type 0 where
  pub key : ℕ
  pub pending : List Event

pub record Broker : Type 0 where
  pub next_id : ℕ
  pub history : List Event
  pub history_capacity : ℕ
  pub subscriber_buffer : ℕ
  pub subscribers : List Subscriber
  pub next_subscriber_id : ℕ

-- A capacity below one is one.
pub at_least_one : ℤ → ℕ
at_least_one (pos n) = if ltb n 1 then 1 else n
at_least_one (negsuc n) = 1

-- NewBroker
pub new_broker : ℤ → ℤ → Broker
unfolding at_least_one
new_broker history_capacity subscriber_buffer = record {
  next_id = 0;
  history = [];
  history_capacity = at_least_one history_capacity;
  subscriber_buffer = at_least_one subscriber_buffer;
  subscribers = [];
  next_subscriber_id = 0;
}

-- What a receive without waiting leaves in a channel.
pub receive : List Event → List Event
receive [] = []
receive (e ∷ es) = es

-- A send without waiting, to a channel with room for `buffer` events.
pub try_send : ℕ → Event → List Event → Option (List Event)
try_send buffer e pending = if ltb (length pending) buffer then some (pending ++ e ∷ []) else none

or_kept : List Event → Option (List Event) → List Event
or_kept pending none = pending
or_kept pending (some sent) = sent

sent_or_dropped : ℕ → Event → List Event → Option (List Event) → List Event
unfolding try_send receive or_kept
sent_or_dropped buffer e pending (some sent) = sent
sent_or_dropped buffer e pending none =
    let room = receive pending in or_kept room (try_send buffer e room)

-- The `select` of `Publish` for one subscriber
pub deliver : ℕ → Event → List Event → List Event
unfolding sent_or_dropped try_send
deliver buffer e pending = sent_or_dropped buffer e pending (try_send buffer e pending)

-- What `Publish` does to the history: `copy(b.history, b.history[1:])` and the last place overwritten,
-- where it is full.
pub shift_in : Event → List Event → List Event
shift_in e [] = []
shift_in e (x ∷ []) = e ∷ []
shift_in e (x ∷ y ∷ rest) = y ∷ shift_in e (y ∷ rest)

pub record_event : ℕ → Event → List Event → List Event
unfolding shift_in
record_event capacity e history =
    if length history == capacity then shift_in e history else history ++ e ∷ []

pub deliver_to : ℕ → Event → Subscriber → Subscriber
unfolding deliver
deliver_to buffer e s = record s { pending = deliver buffer e s.pending }

-- Publish, at a time, of a payload's JSON
pub publish : ℤ → String → Result String String → Broker → Broker × Result String Event
unfolding record_event deliver_to
publish now type (err e) b = (b, err e)
publish now type (ok encoded) b =
    let id = (b.next_id + 1) % 2 ^ 64 in
    let event : Event = record { id = id; type = type; timestamp = now; payload = encoded } in
    (
      record b {
        next_id = id;
        history = record_event b.history_capacity event b.history;
        subscribers = map (deliver_to b.subscriber_buffer event) b.subscribers;
      },
      ok event,
    )

pub without : ℕ → List Subscriber → List Subscriber
without key [] = []
without key (s ∷ ss) = let rest = without key ss in if s.key == key then rest else s ∷ rest

-- Subscribe; the key stands for the channel and for the function that ends the subscription.
pub subscribe : Broker → Broker × ℕ
unfolding without
subscribe b =
    let id = (b.next_subscriber_id + 1) % 2 ^ 64 in
    (
      record b {
        next_subscriber_id = id;
        subscribers = record { key = id; pending = [] } ∷ without id b.subscribers;
      },
      id,
    )

-- The function that `Subscribe` returns, the first time it is called; later it does nothing.
pub unsubscribe : ℕ → Broker → Broker
unfolding without
unsubscribe key b = record b { subscribers = without key b.subscribers }

-- A receive by a subscriber, from its channel
pub take_event : ℕ → Broker → Broker
unfolding receive
take_event key b = record b {
  subscribers =
      map (λ s. if s.key == key then record s { pending = receive s.pending } else s) b.subscribers;
}

-- What happens to a broker
pub data Call : Type 0 where
  publishes : ℤ → String → Result String String → Call
  subscribes : Call
  unsubscribes : ℕ → Call
  takes : ℕ → Call

pub step : Call → Broker → Broker
unfolding publish subscribe unsubscribe take_event
step (publishes now type payload) b = (publish now type payload b).0
step subscribes b = (subscribe b).0
step (unsubscribes key) b = unsubscribe key b
step (takes key) b = take_event key b

pub run : List Call → Broker → Broker
unfolding step
run [] b = b
run (c ∷ cs) b = run cs (step c b)
