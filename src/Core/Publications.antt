-- ===== src/Core/Publications.antt =====
-- internal/automation/core.go, publish: from the object of a script to the broker. Packages
-- protoregistry and anypb enter by what they give.
pub mod Delivery
use events_service.Base.{
  ℕ, String, Bool, true, false, Option, none, some, Outcome, done, panic, blocked,
}
use events_service.Base.Try.{Try, returned, thrown, ◌>>=◌, or_throw}
use events_service.Broker.{Env, World, Event, AnyMessage}
use events_service.Broker.System.{PublishError, publish}
use events_service.Connect.Messages.{Messages, MessageError, object_to_proto}

-- What protoregistry.GlobalFiles finds under a name.
pub data Descriptor (D : Type 0) : Type 0 where
  message : D → Descriptor D
  other : Descriptor D

pub data PublishFailure : Type 0 where
  not_found : PublishFailure
  invalid_type_url : PublishFailure
  not_converted : MessageError → PublishFailure
  not_packed : PublishFailure
  refused : PublishError → PublishFailure

abbrev pub message_descriptor : {D : Type 0} → Option (Descriptor D) → Try PublishFailure D
message_descriptor none = thrown not_found
message_descriptor (some other) = thrown invalid_type_url
message_descriptor (some (message d)) = returned d

abbrev pub conversion : {A : Type 0} → Try MessageError A → Try PublishFailure A
conversion (thrown e) = thrown (not_converted e)
conversion (returned a) = returned a

-- What the broker returns, as an error of the script.
abbrev pub from_broker :
    Outcome (World × Option PublishError) → Outcome (World × Option PublishFailure)
from_broker (done (w, none)) = done (w, none)
from_broker (done (w, some e)) = done (w, some (refused e))
from_broker (panic x) = panic x
from_broker blocked = blocked

abbrev pub publish_event :
    Env → World → Try PublishFailure Event → Outcome (World × Option PublishFailure)
publish_event env w (thrown e) = done (w, some e)
publish_event env w (returned evt) = from_broker (publish env w evt)

module _ {D M V : Type 0} (ms : Messages D M V) (find_descriptor : String → Option (Descriptor D))
    (any_new : M → Option AnyMessage) where
  -- publish, as far as the event
  unfoldable pub event_of : String → V → Try PublishFailure Event
  unfolding object_to_proto
  event_of type_url obj = do
    d ← message_descriptor (find_descriptor type_url)
    msg ← conversion (object_to_proto ms obj d)
    any ← or_throw (any_new msg) not_packed
    returned (record { event = some any; retained = false })

  -- publish
  unfoldable pub publish_object : Env → World → String → V → Outcome (World × Option PublishFailure)
  unfolding event_of publish
  publish_object env w type_url obj = publish_event env w (event_of type_url obj)
