-- ===== src/Broker/System/Publishing.antt =====
-- internal/broker/broker.go: from Publish over MQTT to the subscribers.
use events_service.Base.{
  ℕ, List, [], ◌∷◌, ◌++◌, String, Bool, true, false, none, some, done, ◌≡◌, ◌∙◌, arith, replicate,
  count, nat_eq, inl, inr, Option-cases,
}
use mathlib.Core.Path.{ap₂}
use events_service.Chan.{history, Chans}
use events_service.Broker.{
  Env, World, Broker, Event, AnyMessage, publish_call, make_topic, receivers_of, perform,
}
use events_service.Broker.Delivery.{dispatch_key, handle_message_delivers}
use events_service.Broker.Dispatch.{handle_message}
use events_service.Broker.Dispatch.Laws.{AllOpen, AllRoom}
use events_service.Broker.System.{publish}

-- What a publication without an error has done.
pub record Published (env : Env) (w w' : World) (evt : Event) : Type 0 where
  pub client : ℕ
  pub any : AnyMessage
  pub blob : List ℕ
  pub connected : w.broker.conn ≡ some client
  pub has_event : evt.event ≡ some any
  pub marshalled : env.marshal evt ≡ some blob
  pub same_broker : w'.broker ≡ w.broker
  pub same_chans : w'.chans ≡ w.chans
  pub sent :
      w'.calls
      ≡ w.calls
        ++ record {
          client = client;
          call = publish_call (make_topic any.type_url) evt.retained blob;
          accepted = true;
        }
          ∷ []

-- Publish returns no error only if the event was marshalled, the broker is connected, the event
-- field is there, and the client accepted one call with the event's topic, flag and bytes; the
-- broker's maps and the channels stay as they were.
pub publish-Published :
    (env : Env) (w w' : World) (evt : Event)
    → publish env w evt ≡ done (w', none)
    → Published env w w' evt
unfolding publish perform
publish-Published env w w' evt e = elim (Option-cases (env.marshal evt)) [
  | inl h ↦ absurd (ground arith)
  | inr (blob, m) ↦ elim (Option-cases w.broker.conn) [
    | inl h ↦ absurd (ground arith)
    | inr (client, c) ↦ elim (Option-cases evt.event) [
      | inl h ↦ absurd (ground arith)
      | inr (any, has) ↦ record {
        client = client;
        any = any;
        blob = blob;
        connected = c;
        has_event = has;
        marshalled = m;
        same_broker = ground arith;
        same_chans = ground arith;
        sent = ground arith;
      }
    ]
  ]
]

same_history :
    (w' w : World) (c : ℕ) (key : String) (evt : Event)
    → w'.broker ≡ w.broker
    → w'.chans ≡ w.chans
    → history (w'.chans c) ++ replicate (count c (receivers_of w'.broker key)) evt
      ≡ history (w.chans c) ++ replicate (count c (receivers_of w.broker key)) evt
same_history w' w c key evt b cs =
    ap₂
      (λ (f : Chans Event) (x : Broker).
        history (f c) ++ replicate (count c (receivers_of x key)) evt)
      cs b

-- An event that Publish accepts goes out as its bytes under the topic of its type URL; and once
-- MQTT delivers these bytes, as a live message, to the same broker, they reach every channel that
-- is registered for the type, as often as it is registered, and no other channel gets anything, if
-- these channels are open and have room. (Unmarshal reads back what Marshal wrote for the event,
-- and proto.Clone gives an equal event.)
pub publish-handle_message :
    (env : Env) (w w' : World) (evt : Event) (any : AnyMessage) (blob : List ℕ) (ds : List Bool)
    → ((e : Event) → env.clone e ≡ e)
    → env.unmarshal blob ≡ some evt
    → env.marshal evt ≡ some blob
    → evt.event ≡ some any
    → publish env w evt ≡ done (w', none)
    → AllOpen w.chans (receivers_of w.broker (dispatch_key any))
    → AllRoom w.chans (receivers_of w.broker (dispatch_key any))
    → ((client : ℕ) × (w'.calls
          ≡ w.calls
            ++ record {
              client = client;
              call = publish_call (make_topic any.type_url) evt.retained blob;
              accepted = true;
            }
              ∷ []))
      × ((w'' : World) × (handle_message env w' (record { payload = blob; retained = false }) ds
            ≡ done w'')
          × ((c : ℕ)
              → history (w''.chans c)
                ≡ history (w.chans c)
                  ++ replicate (count c (receivers_of w.broker (dispatch_key any))) evt))
publish-handle_message env w w' evt any blob ds clones dec m has p o r =
    let p' = publish-Published env w w' evt p in
    let same_any : p'.any ≡ any = cc (p'.has_event) in
    let same_blob : p'.blob ≡ blob = cc (p'.marshalled) in
    let (w'', e, h, _, _) =
      handle_message_delivers env w' (record { payload = blob; retained = false }) ds evt any dec
        has clones (rw (p'.same_broker, p'.same_chans) o) (rw (p'.same_broker, p'.same_chans) r) in
    (
      (p'.client, p'.sent ∙ rw (same_any, same_blob)),
      (w'', e, λ c. h c ∙ same_history w' w c (dispatch_key any) evt p'.same_broker p'.same_chans),
    )
