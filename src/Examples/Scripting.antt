-- ===== src/Examples/Scripting.antt =====
-- Events, schedules and publications of scripts at concrete inputs.
use Prim.Native.String.{◌++◌ as append_text}
use events_service.Base.{
  ℕ, suc, List, [], ◌∷◌, ◌++◌, All, true, false, ◌&&◌, not, String, Option, none, some, Bool-cases,
  Option-cases, inl, inr, done, ◌≡◌, ◌≢◌, refl, ap, arith, count, ltb, nat_eq, string_eq, ◌==◌,
  if◌then◌else◌, eq_iff, lookup,
}
use events_service.Base.Try.{returned}
use events_service.Text.{trim_prefix}
use events_service.Chan.{history}
use events_service.Broker.{World, Event, AnyMessage, Env, google_prefix, receivers_of}
use events_service.Broker.Dispatch.{handle_message}
use events_service.Broker.Dispatch.Laws.{AllOpen, AllRoom}
use events_service.Broker.System.{publish}
use events_service.Connect.Messages.{Messages, convert_proto_message, object_to_proto}
use events_service.Core.{Core, CoreEnv, Entry, Scheduler, submitted, consume, on_event}
use events_service.Core.Callbacks.{call_of}
use events_service.Core.Events.{on_event-subscribes}
use events_service.Core.Publications.{Descriptor, message, publish_object, event_of}
use events_service.Core.Publications.Delivery.{NamesMessages, publish_object-consume}
use events_service.Examples.Fixtures.{order, order_event, world_with, one}

-- Scripts' values are numbers, which are written as one byte.
abbrev events : Messages ℕ Event ℕ
events = record {
  value_json = λ v. some (v ∷ []);
  json_message = λ d b. none;
  message_json = λ e. elim e.event [ none ↦ none | some any ↦ some any.value ];
  json_value = λ b. elim b [ [] ↦ none | v ∷ more ↦ some v ];
}

abbrev core_env : CoreEnv ℕ
core_env = record {
  call = λ before job. some 1;
  longrunning = true;
  registers = λ req. true;
  quote = λ s. s;
}

abbrev core : Core ℕ
core = record {
  name = "orders";
  config = record { connect_headers = []; parameters = []; wrap_in_operation = true };
  loop = record { queue = []; called = [] };
  reports = [];
}

abbrev order_events : List Event
order_events = order_event ∷ order_event ∷ []

order_events-All : All (λ (m : Event). m.event ≢ none) order_events
order_events-All = (λ e. cc, (λ e. cc, tt))

abbrev remembered : World
remembered = world_with ((order, 7 ∷ []) ∷ []) ((order, order_event) ∷ [])

on_event-subscribes_example :
    (w' : World) × (on_event remembered order 9 ≡ done w')
    × (receivers_of w'.broker order ≡ 7 ∷ 9 ∷ [])
    × ((w'.chans 9).buffer ≡ order_event ∷ [])
    × ((w'.chans 9).closed ≡ false)
unfolding lookup
on_event-subscribes_example = on_event-subscribes remembered order 9

-- Entries are filed under the numbers below the first one that is free.
abbrev cron : Scheduler (ℕ × (ℕ → Option Entry))
cron = record {
  add_func = λ s spec e. some ((suc s.0, λ j. if s.0 == j then some e else s.1 j), s.0);
  remove = λ s id. (s.0, λ j. if id == j then none else s.1 j);
  entry = λ s j. if ltb j s.0 then s.1 j else none;
}

abbrev crontab : ℕ × (ℕ → Option Entry)
crontab = (0, λ j. none)

-- What is published has the type URL with the prefix, and is written as its value.
abbrev packed_url : String
packed_url = append_text google_prefix order

abbrev written : Event → Option (List ℕ)
written e = elim e.event [
  | none ↦ none
  | some any ↦ if any.type_url == packed_url && not e.retained then some any.value else none
]

abbrev packed_env : Env
packed_env = record {
  marshal = written;
  unmarshal = λ b.
      some
        (record { event = some (record { type_url = packed_url; value = b }); retained = false });
  clone = λ e. e;
  accepts = λ es client call. true;
}

packed_env-reads :
    (e : Event) (b : List ℕ) → packed_env.marshal e ≡ some b → packed_env.unmarshal b ≡ some e
packed_env-reads e b h = elim (Option-cases e.event) [
  | inl lacks ↦ absurd (ground arith)
  | inr (any, has) ↦ ground (arith, eq_iff any.type_url packed_url)
]

abbrev messages : Messages ℕ (List ℕ) ℕ
messages = record {
  value_json = λ v. some (v ∷ []);
  json_message = λ d b. some b;
  message_json = λ m. some m;
  json_value = λ b. none;
}

abbrev find_descriptor : String → Option (Descriptor ℕ)
find_descriptor name = if name == order then some (message 0) else none

abbrev any_new : List ℕ → Option AnyMessage
any_new m = some (record { type_url = packed_url; value = m })

messages-NamesMessages : NamesMessages messages find_descriptor any_new
messages-NamesMessages name d blob m any found read packed = elim (Bool-cases (name == order)) [
  | inl same ↦
      let named : name ≡ order = (eq_iff name order).0 same in
      let fresh : AnyMessage = record { type_url = packed_url; value = m } in
      let same_any : fresh ≡ any = cc packed in
      let url : packed_url ≡ any.type_url = ap (λ (a : AnyMessage). a.type_url) same_any in
      rw (named, ← url) refl
  | inr differs ↦ absurd (ground arith)
]

-- The world after the script has published 5.
publish_ends :
    (w : World) × (publish_object messages find_descriptor any_new packed_env one order 5
      ≡ done (w, none))
unfolding publish_object event_of publish object_to_proto
publish_ends = (_, refl)

receivers_of_one : receivers_of one.broker order ≡ 7 ∷ []
unfolding lookup
receivers_of_one = refl

one-AllOpen : AllOpen one.chans (receivers_of one.broker order)
one-AllOpen c h = refl

one-AllRoom : AllRoom one.chans (receivers_of one.broker order)
one-AllRoom c h = rw receivers_of_one (ground arith)

registered_once : count 7 (receivers_of one.broker order) ≡ 1
registered_once = rw receivers_of_one refl

publish_object-consume_example :
    (evt : Event) × (blob : List ℕ) × (event_of messages find_descriptor any_new order 5
      ≡ returned evt)
    × (packed_env.marshal evt ≡ some blob)
    × (w'' : World) × (handle_message packed_env
          (publish_ends.0)
          (record { payload = blob; retained = false })
          []
        ≡ done w'')
    × (history (w''.chans 7) ≡ [] ++ evt ∷ [])
    × (c' : Core ℕ) × (consume core_env events order 3 core (evt ∷ []) (true ∷ []) ≡ done c')
    × (submitted c'.loop ≡ submitted core.loop ++ call_of 3 (convert_proto_message events evt))
unfolding trim_prefix
publish_object-consume_example =
    publish_object-consume messages find_descriptor any_new packed_env core_env events one
      publish_ends.0 core order 5 3 7 [] (true ∷ []) (λ e. refl) packed_env-reads
      messages-NamesMessages (λ req. refl) publish_ends.1 one-AllOpen one-AllRoom registered_once
