-- ===== src/Core/Publications/Delivery.antt =====
-- internal/automation/core.go with internal/broker/broker.go: from publish() in one script to the
-- callback of on() in another.
use Prim.Native.String.{◌++◌ as append_text}
use mathlib.Core.List.{append-nil}
use events_service.Base.{
  ℕ, List, [], ◌∷◌, ◌++◌, String, Bool, true, false, Option, none, some, Outcome, done, panic,
  blocked, ◌≡◌, refl, sym, ◌∙◌, ap, arith, count, nat_eq,
}
use events_service.Base.Try.{Try, returned, thrown, or_throw, >>=-eq-returned, or_throw-eq-returned}
use events_service.Text.Laws.{trim_prefix-append}
use events_service.Text.{trim_prefix}
use events_service.Chan.{history}
use events_service.Broker.{Env, World, Event, AnyMessage, receivers_of, google_prefix}
use events_service.Broker.Delivery.{dispatch_key}
use events_service.Broker.Dispatch.{handle_message}
use events_service.Broker.Dispatch.Laws.{AllOpen, AllRoom}
use events_service.Broker.System.{PublishError, publish}
use events_service.Broker.System.Publishing.{publish-Published, publish-handle_message}
use events_service.Connect.Messages.{
  Messages, MessageError, no_json, object_to_proto, convert_proto_message,
}
use events_service.Core.{Core, CoreEnv, OperationRequest, submitted, consume}
use events_service.Core.Callbacks.{call_of, consume-submits}
use events_service.Core.Publications.{
  Descriptor, message, other, event_of, publish_event, publish_object, PublishFailure,
  message_descriptor, conversion, not_packed, from_broker,
}

returned-conversion :
    {A : Type 0} (t : Try MessageError A) (a : A) → conversion t ≡ returned a → t ≡ returned a
returned-conversion (thrown e) a h = cc
returned-conversion (returned b) a h = ap (λ x. returned x) (ground arith)

message-descriptor :
    {D : Type 0} (o : Option (Descriptor D)) (d : D)
    → message_descriptor o ≡ returned d
    → o ≡ some (message d)
message-descriptor none d h = cc
message-descriptor (some other) d h = cc
message-descriptor (some (message e)) d h = cc

from_broker-eq-done :
    (o : Outcome (World × Option PublishError)) (w : World)
    → from_broker o ≡ done (w, none)
    → o ≡ done (w, none)
from_broker-eq-done (done (v, none)) w h = ground arith
from_broker-eq-done (done (v, some e)) w h = absurd (ground arith)
from_broker-eq-done (panic x) w h = cc
from_broker-eq-done blocked w h = cc

module _ {D M V : Type 0} (ms : Messages D M V) (find_descriptor : String → Option (Descriptor D))
    (any_new : M → Option AnyMessage) where
  -- What anypb.New documents: the type URL of the packed message is the prefix with the name under
  -- which the descriptor was found.
  abbrev pub NamesMessages : Type 0
  NamesMessages =
      (name : String) (d : D) (blob : List ℕ) (m : M) (any : AnyMessage)
      → find_descriptor name ≡ some (message d)
      → ms.json_message d blob ≡ some m
      → any_new m ≡ some any
      → any.type_url ≡ append_text google_prefix name

  -- The event that publish makes of an object has its event field, under the prefixed name.
  event_of-named :
      (type_url : String) (obj : V) (evt : Event)
      → NamesMessages
      → event_of ms find_descriptor any_new type_url obj ≡ returned evt
      → (any : AnyMessage) × (record { event = some any; retained = false } ≡ evt)
        × (any.type_url ≡ append_text google_prefix type_url)
  unfolding event_of object_to_proto
  event_of-named type_url obj evt names h =
      let (d, found, h₁) = >>=-eq-returned (message_descriptor (find_descriptor type_url)) _ h in
      let (m, conv, h₂) = >>=-eq-returned (conversion (object_to_proto ms obj d)) _ h₁ in
      let (any, packed, h₃) = >>=-eq-returned (or_throw (any_new m) not_packed) _ h₂ in
      let (blob, _, read) =
        >>=-eq-returned (or_throw (ms.value_json obj) no_json) _ (returned-conversion _ m conv) in
      (
        any,
        cc h₃,
        names type_url d blob m any (message-descriptor (find_descriptor type_url) d found)
            (or_throw-eq-returned _ _ read) (or_throw-eq-returned _ _ packed),
      )

  event-returned :
      (env : Env) (w w' : World) (t : Try PublishFailure Event)
      → publish_event env w t ≡ done (w', none)
      → (evt : Event) × (t ≡ returned evt) × (publish env w evt ≡ done (w', none))
  event-returned env w w' (thrown e) h = absurd (ground arith)
  event-returned env w w' (returned evt) h =
      (evt, refl, from_broker-eq-done (publish env w evt) w' h)

  -- What a script publishes without an error reaches the script that listens to its type: once MQTT
  -- delivers the bytes that were sent, the channel of on(), which is registered once under the type
  -- URL, gets the event behind what it was sent before, and the loop over that event hands the call
  -- of the callback, with the converted event, to the event loop, if it can be converted. (The
  -- receivers are open and have room; Unmarshal reads back what Marshal wrote, proto.Clone gives an
  -- equal event, anypb.New names the message as documented, and the operations service registers
  -- what it is asked to.)
  pub publish_object-consume :
      {P : Type 0} (env : Env) (cenv : CoreEnv V) (listener : Messages P Event V) (w w' : World)
      (c : Core V) (type_url : String) (obj : V) (callable ch : ℕ) (ds rs : List Bool)
      → ((e : Event) → env.clone e ≡ e)
      → ((e : Event) (b : List ℕ) → env.marshal e ≡ some b → env.unmarshal b ≡ some e)
      → NamesMessages
      → ((req : OperationRequest) → cenv.registers req ≡ true)
      → publish_object ms find_descriptor any_new env w type_url obj ≡ done (w', none)
      → AllOpen w.chans (receivers_of w.broker type_url)
      → AllRoom w.chans (receivers_of w.broker type_url)
      → count ch (receivers_of w.broker type_url) ≡ 1
      → (evt : Event) × (blob : List ℕ) × (event_of ms find_descriptor any_new type_url obj
          ≡ returned evt)
        × (env.marshal evt ≡ some blob)
        × (w'' : World) × (handle_message env w' (record { payload = blob; retained = false }) ds
            ≡ done w'')
        × (history (w''.chans ch) ≡ history (w.chans ch) ++ evt ∷ [])
        × (c' : Core V) × (consume cenv listener type_url callable c (evt ∷ []) rs ≡ done c')
        × (submitted c'.loop
            ≡ submitted c.loop ++ call_of callable (convert_proto_message listener evt))
  unfolding publish_object
  publish_object-consume env cenv listener w w' c type_url obj callable ch ds rs clones reads names
        registers h open_ room one =
      let (evt, made, sent) =
        event-returned env w w' (event_of ms find_descriptor any_new type_url obj) h in
      let (any, shape, named) = event_of-named type_url obj evt names made in
      let p = publish-Published env w w' evt sent in
      let has : evt.event ≡ some any = ap (λ (e : Event). e.event) (sym shape) in
      let key : dispatch_key any ≡ type_url =
        ap (λ u. trim_prefix u google_prefix) named ∙ trim_prefix-append google_prefix type_url in
      let (_, (w'', handled, delivered)) =
        publish-handle_message env w w' evt any p.blob ds clones (reads evt p.blob p.marshalled)
          p.marshalled has sent (rw key open_) (rw key room) in
      let (c', run, more) =
        consume-submits cenv listener type_url callable registers c (evt ∷ []) rs
          (rw has (λ e. cc), tt) in
      (
        evt,
        p.blob,
        made,
        p.marshalled,
        w'',
        handled,
        delivered ch ∙ rw (key, one) refl,
        c',
        run,
        more
            ∙ ap (λ l. submitted c.loop ++ l)
                (append-nil (call_of callable (convert_proto_message listener evt))),
      )
