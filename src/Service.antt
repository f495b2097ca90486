-- ===== src/Service.antt =====
-- internal/service/events_service.go and internal/broker/subscriber.go: the RPC handlers and the
-- loops of a subscriber.
pub mod Streams
pub mod Publications
use events_service.Base.{
  ℕ, zero, suc, ◌+◌, List, [], ◌∷◌, ◌++◌, Bool, true, false, String, Option, none, some, Outcome,
  done, panic, ◌>>=◌, length, leb, if◌then◌else◌,
}
use events_service.Broker.{World, Env, Event, subscribe}
use events_service.Broker.Dispatch.{next_drain, later_drains}
use events_service.Broker.System.{publish, PublishError}

-- The kinds of a SubscribeRequest: `subscribe`, or anything else.
pub data Kind : Type 0 where
  subscribe_kind : String → Kind
  other_kind : Kind

-- What stream.Receive returns.
pub data Received : Type 0 where
  message : Kind → Received
  eof : Received
  failed : Received

-- fakeBidiStream: the type URLs of the request, and how many were handed out
pub record FakeStream : Type 0 where
  pub type_urls : List String
  pub iter : ℕ

-- fb.Request.Msg.TypeUrls[i], for an index in range
abbrev pub url_at : List String → ℕ → String
url_at [] i = ""
url_at (u ∷ us) zero = u
url_at (u ∷ us) (suc i) = url_at us i

-- fakeBidiStream.Receive
unfoldable pub fake_receive : FakeStream → Received × FakeStream
fake_receive fb =
    if leb (length fb.type_urls) fb.iter
    then (eof, fb)
    else (message (subscribe_kind (url_at fb.type_urls fb.iter)), record fb { iter = fb.iter + 1 })

-- EventsService.SubscribeOnce, up to the stream that it hands to the subscriber
abbrev pub subscribe_once : List String → FakeStream
subscribe_once type_urls = record { type_urls = type_urls; iter = 0 }

-- The body of the receive loop for one message; a message of another kind is only logged.
unfoldable pub on_message : World → ℕ → Kind → Bool → Outcome World
unfolding subscribe
on_message w c (subscribe_kind url) drains = subscribe w url c drains
on_message w c other_kind drains = done w

module _ {S : Type 0} (receive : S → Received × S) where
  -- The receive loop of Subscriber.Handle, for as many rounds as there is fuel. `none` means that
  -- the fuel ran out. `ds` are the readers' choices for the retained messages.
  pub receive_loop : ℕ → S → World → ℕ → List Bool → Outcome (Option World)
  unfolding on_message
  receive_loop zero s w c ds = done none
  receive_loop (suc fuel) s w c ds =
      let (r, s') = receive s in
      elim r [
        | message kind ↦ on_message w c kind (next_drain ds) >>= λ w'.
            receive_loop fuel s' w' c (later_drains ds)
        | eof ↦ done (some w)
        | failed ↦ done (some w)
      ]

-- The send loop of Subscriber.Handle over the events that the channel yields until it is closed:
-- the events that went out. `accepts` is the answer of stream.Send, given what went out before.
unfoldable pub send_loop : (List Event → Event → Bool) → List Event → List Event → List Event
send_loop accepts sent [] = sent
send_loop accepts sent (e ∷ es) =
    let rest = send_loop accepts (sent ++ e ∷ []) es in if accepts sent e then rest else sent

pub data ServiceError : Type 0 where
  missing_event : ServiceError
  publish_error : PublishError → ServiceError
  stream_error : ServiceError

abbrev pub from_broker : Option PublishError → Option ServiceError
from_broker none = none
from_broker (some e) = some (publish_error e)

-- EventsService.Publish
unfoldable pub service_publish : Env → World → Event → Outcome (World × Option ServiceError)
unfolding publish
service_publish env w evt = elim evt.event [
  | none ↦ done (w, some missing_event)
  | some any ↦ publish env w evt >>= λ r. done (r.0, from_broker r.1)
]

-- What a ClientStream yields: a message, with whether stream.Err() is set after it.
pub record Item : Type 0 where
  pub msg : Event
  pub broken : Bool

abbrev end_of_stream : World → Bool → World × Option ServiceError
end_of_stream w broken = (w, if broken then some stream_error else none)

-- The loop goes on after a message that was published without an error.
abbrev go_on :
    World × Option ServiceError
    → (World → Outcome (World × Option ServiceError))
    → Outcome (World × Option ServiceError)
go_on (w, none) next = next w
go_on (w, some e) next = done (w, some e)

-- EventsService.PublishStream; the last argument is whether the stream ends with an error.
unfoldable pub publish_stream :
    Env → World → List Item → Bool → Outcome (World × Option ServiceError)
unfolding service_publish
publish_stream env w [] broken = done (end_of_stream w broken)
publish_stream env w (i ∷ items) broken =
    let rest = λ (w' : World). publish_stream env w' items broken in
    if i.broken
    then done (w, some stream_error)
    else (service_publish env w i.msg >>= λ r. go_on r rest)
