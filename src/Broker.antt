-- ===== src/Broker.antt =====
-- internal/broker/broker.go: the broker's state, its handlers, and the goroutines that they start.
-- The two mutexes make each handler one step; what runs in a goroutine of its own is a task, and
-- tasks run in any order.
pub mod Blocking
pub mod Contract
pub mod Delivery
pub mod Dispatch
pub mod Prefixed
pub mod Replay
pub mod Registration
pub mod System
pub mod Removal
pub mod Topic
use Prim.Native.String.{◌++◌ as append_text}
use events_service.Base.{
  ℕ, suc, ◌+◌, ◌-◌, List, [], ◌∷◌, ◌++◌, map, Bool, true, false, String, Option, none, some,
  Outcome, done, panic, blocked, nil_pointer, ◌>>=◌, length, take, if◌then◌else◌, ◌==◌, nat_eq,
  lookup, insert, delete,
}
use events_service.Text.{trim_prefix, option_or}
use events_service.Chan.{Channel, Chans, update, send_or_timeout, send}

-- anypb.Any, and the fields of eventsv1.Event that the program reads
pub record AnyMessage : Type 0 where
  pub type_url : String
  pub value : List ℕ

pub record Event : Type 0 where
  pub event : Option AnyMessage
  pub retained : Bool

pub data Call : Type 0 where
  subscribe_call : String → Call
  unsubscribe_call : List String → Call
  publish_call : String → Bool → List ℕ → Call

-- A call of an MQTT client, and whether it returned without an error.
pub record Entry : Type 0 where
  pub client : ℕ
  pub call : Call
  pub accepted : Bool

-- What the program takes from package proto and from the MQTT client.
pub record Env : Type 0 where
  pub marshal : Event → Option (List ℕ)
  pub unmarshal : List ℕ → Option Event
  pub clone : Event → Event
  -- the answer of a client to a call, after the calls so far
  pub accepts : List Entry → ℕ → Call → Bool

-- A goroutine that has been started and has not run yet.
pub data Task : Type 0 where
  subscribing : String → Task
  unsubscribing : List String → Task

pub record Broker : Type 0 where
  pub conn : Option ℕ
  pub receivers : List (String × List ℕ)
  pub topics : List (String × Unit {0})
  pub retained_msgs : List (String × Event)

pub record World : Type 0 where
  pub broker : Broker
  pub chans : Chans Event
  pub calls : List Entry
  pub tasks : List Task

abbrev pub google_prefix : String
google_prefix = "type.googleapis.com/"

abbrev pub topic_root : String
topic_root = "cis/protobuf/events/"

-- makeTopic
unfoldable pub make_topic : String → String
unfolding trim_prefix
make_topic type_url = append_text topic_root (trim_prefix type_url google_prefix)

-- NewBroker
abbrev pub new_broker : Broker
new_broker = record { conn = none; receivers = []; topics = []; retained_msgs = [] }

-- b.receivers[typeUrl]; a missing key reads as the nil slice
abbrev pub receivers_of : Broker → String → List ℕ
receivers_of b url = option_or (lookup url b.receivers) []

-- A call through `conn`, entered in the list of calls, with the result of its token. The client is one
-- that answers: the wait for a token that never completes is left out.
unfoldable pub perform : Env → World → ℕ → Call → World × Bool
perform env w client call =
    let ok = env.accepts w.calls client call in
    (
      record w { calls = w.calls ++ record { client = client; call = call; accepted = ok } ∷ [] },
      ok,
    )

-- the loop of HandleOnConnect
unfoldable pub resubscribe : Env → World → ℕ → List (String × Unit {0}) → World
unfolding perform make_topic
resubscribe env w client [] = w
resubscribe env w client ((t, _) ∷ ts) =
    resubscribe env (perform env w client (subscribe_call (make_topic t))).0 client ts

-- HandleOnConnect. It holds a read lock while the client answers, so that other handlers come before
-- or after it.
unfoldable pub handle_on_connect : Env → World → ℕ → World
unfolding resubscribe
handle_on_connect env w client =
    let b = w.broker in
    resubscribe env (record w { broker = record b { conn = some client } }) client b.topics

-- The goroutine is started if the topic is not yet in `topics`.
abbrev pub start_if_new : Option (Unit {0}) → String → List Task → List Task
start_if_new (some _) url ts = ts
start_if_new none url ts = ts ++ subscribing url ∷ []

send_retained : Option Event → Chans Event → ℕ → Bool → Outcome (Chans Event)
unfolding send
send_retained none cs c drains = done cs
send_retained (some msg) cs c drains = do ch ← send (cs c) msg drains; done (update cs c ch)

-- What Subscribe leaves behind, its retained message sent.
abbrev pub subscribed : World → String → ℕ → Chans Event → World
subscribed w url c cs =
    let b = w.broker in
    record w {
      broker = record b { receivers = insert url (receivers_of b url ++ c ∷ []) b.receivers };
      chans = cs;
      tasks = start_if_new (lookup url b.topics) url w.tasks;
    }

-- Subscribe. The retained message goes out by a plain send, under the lock.
unfoldable pub subscribe : World → String → ℕ → Bool → Outcome World
unfolding send_retained lookup insert
subscribe w url c drains = do
  cs ← send_retained (lookup url w.broker.retained_msgs) w.chans c drains
  done (subscribed w url c cs)
