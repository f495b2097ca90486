-- ===== src/Examples/Fixtures.antt =====
-- The broker, the messages and the environments of the examples.
use events_service.Base.{ℕ, List, [], ◌∷◌, true, false, String, Option, none, some}
use events_service.Chan.{Chans, make}
use events_service.Broker.{Env, World, Broker, Event, AnyMessage}
use events_service.Broker.Dispatch.{Message}

abbrev pub order : String
order = "vet.OrderCreated"

abbrev pub order_any : AnyMessage
order_any = record { type_url = order; value = 5 ∷ 6 ∷ [] }

abbrev pub order_event : Event
order_event = record { event = some order_any; retained = false }

-- An event is written as its value, and every text is read as an event of one type URL.
abbrev value_of : Option AnyMessage → Option (List ℕ)
value_of none = none
value_of (some any) = some any.value

abbrev pub env_for : String → Env
env_for url = record {
  marshal = λ e. value_of e.event;
  unmarshal =
      λ b. some (record { event = some (record { type_url = url; value = b }); retained = false });
  clone = λ e. e;
  accepts = λ es client call. true;
}

abbrev pub env : Env
env = env_for order

abbrev pub chans : Chans Event
chans c = make 4

abbrev pub broker_with : List (String × List ℕ) → List (String × Event) → Broker
broker_with receivers retained = record {
  conn = some 0;
  receivers = receivers;
  topics = (order, tt) ∷ [];
  retained_msgs = retained;
}

abbrev pub world_with : List (String × List ℕ) → List (String × Event) → World
world_with receivers retained = record {
  broker = broker_with receivers retained;
  chans = chans;
  calls = [];
  tasks = [];
}

-- Channel 7 stands alone; channels 7 and 8 share the topic; channel 7 stands twice.
abbrev pub one : World
one = world_with ((order, 7 ∷ []) ∷ []) []

abbrev pub two : World
two = world_with ((order, 7 ∷ 8 ∷ []) ∷ []) []

abbrev pub nobody : World
nobody = world_with [] []

abbrev pub live : Message
live = record { payload = 5 ∷ 6 ∷ []; retained = false }

abbrev pub kept : Message
kept = record { payload = 5 ∷ 6 ∷ []; retained = true }
