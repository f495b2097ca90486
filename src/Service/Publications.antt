-- ===== src/Service/Publications.antt =====
-- internal/service/events_service.go: Publish and PublishStream.
use events_service.Base.{
  ◌+◌, List, [], ◌∷◌, ◌++◌, Bool, true, false, Option, none, some, done, length, length-append, All,
  ◌≡◌, ◌≢◌, refl, sym, ◌∙◌, arith, ◌↔◌, inl, inr, Option-cases, Bool-cases, if◌then◌else◌,
}
use events_service.Broker.{World, Env, Event, AnyMessage, perform, publish_call, make_topic}
use events_service.Broker.System.{
  publish, PublishError, marshal_failed, not_connected, publish_failed,
}
use events_service.Service.{
  ServiceError, missing_event, stream_error, from_broker, service_publish, Item, publish_stream,
}

-- Behind the check of the handler the broker's Publish ends, and touches only the calls.
publish_total :
    (env : Env) (w : World) (evt : Event) (any : AnyMessage)
    → evt.event ≡ some any
    → (w' : World) × (err : Option PublishError) × (publish env w evt ≡ done (w', err))
      × (w'.broker ≡ w.broker)
      × (w'.chans ≡ w.chans)
      × (err ≡ none → length w'.calls ≡ length w.calls + 1)
unfolding publish
publish_total env w evt any has = elim (Option-cases (env.marshal evt)) [
  | inl m ↦ (w, some marshal_failed, ground arith, refl, refl, λ h. absurd (ground arith))
  | inr (blob, m) ↦ elim (Option-cases w.broker.conn) [
    | inl c ↦ (w, some not_connected, ground arith, refl, refl, λ h. absurd (ground arith))
    | inr (client, c) ↦
        let call = publish_call (make_topic any.type_url) evt.retained blob in
        let r = perform env w client call in
        (
          r.0,
          if r.1 then none else some publish_failed,
          ground arith,
          unfold perform in refl,
          unfold perform in refl,
          λ h. unfold perform in length-append w.calls _,
        )
  ]
]

-- The RPC Publish always ends, without a panic; it refuses exactly the requests without an event
-- field as an invalid argument; and it never changes the broker's maps or the channels.
pub service_publish_total :
    (env : Env) (w : World) (evt : Event)
    → (w' : World) × (err : Option ServiceError) × (service_publish env w evt ≡ done (w', err))
      × (w'.broker ≡ w.broker)
      × (w'.chans ≡ w.chans)
      × ((err ≡ some missing_event) ↔ (evt.event ≡ none))
unfolding service_publish
service_publish_total env w evt = elim (Option-cases evt.event) [
  | inl missing ↦ (w, some missing_event, rw (missing, service_publish), refl, refl, ground arith)
  | inr (any, has) ↦
      let (w', err, e, b, c, _) = publish_total env w evt any has in
      (w', from_broker err, ground arith, b, c, ground arith)
]

service_publish-length :
    (env : Env) (w w' : World) (evt : Event)
    → service_publish env w evt ≡ done (w', none)
    → (length w'.calls ≡ length w.calls + 1) × (evt.event ≢ none)
unfolding service_publish
service_publish-length env w w' evt e = elim (Option-cases evt.event) [
  | inl missing ↦ absurd (ground arith)
  | inr (any, has) ↦ let (w'', err, p, b, c, l) = publish_total env w evt any has in ground arith
]

module _ (env : Env) (w w' : World) (i : Item) (items : List Item) (broken : Bool)
    (fine : i.broken ≡ false) where
  publish_stream-next :
      service_publish env w i.msg ≡ done (w', none)
      → publish_stream env w (i ∷ items) broken ≡ publish_stream env w' items broken
  unfolding publish_stream
  publish_stream-next e = rw (fine, publish_stream) (rw e)

  publish_stream-stop :
      (err : ServiceError)
      → service_publish env w i.msg ≡ done (w', some err)
      → publish_stream env w (i ∷ items) broken ≡ done (w', some err)
  unfolding publish_stream
  publish_stream-stop err e = rw (fine, publish_stream) (rw e)

publish_stream-broken :
    (env : Env) (w : World) (i : Item) (items : List Item) (broken : Bool)
    → i.broken ≡ true
    → publish_stream env w (i ∷ items) broken ≡ done (w, some stream_error)
unfolding publish_stream
publish_stream-broken env w i items broken b = rw (b, publish_stream)

-- What the first message does to the stream: it is published and the rest follows, or the stream
-- ends with an error.
data First (env : Env) (w : World) (i : Item) (items : List Item) (broken : Bool) : Type 0 where
  published :
      (w' : World)
      → i.broken ≡ false
      → service_publish env w i.msg ≡ done (w', none)
      → publish_stream env w (i ∷ items) broken ≡ publish_stream env w' items broken
      → First env w i items broken
  stopped :
      (w' : World) (err : ServiceError)
      → publish_stream env w (i ∷ items) broken ≡ done (w', some err)
      → First env w i items broken

first :
    (env : Env) (w : World) (i : Item) (items : List Item) (broken : Bool)
    → First env w i items broken
first env w i items broken = elim (Bool-cases i.broken) [
  | inl b ↦ stopped w stream_error (publish_stream-broken env w i items broken b)
  | inr fine ↦ after fine (service_publish_total env w i.msg)
]
  where
    after :
        i.broken ≡ false
        → (w' : World) × (err : Option ServiceError) × (service_publish env w i.msg
            ≡ done (w', err))
          × (w'.broker ≡ w.broker)
          × (w'.chans ≡ w.chans)
          × ((err ≡ some missing_event) ↔ (i.msg.event ≡ none))
        → First env w i items broken
    after fine (w', none, e, _, _, _) =
        published w' fine e (publish_stream-next env w w' i items broken fine e)
    after fine (w', some err, e, _, _, _) =
        stopped w' err (publish_stream-stop env w w' i items broken fine err e)

stream_run :
    (env : Env) (w : World) (items : List Item) (broken : Bool)
    → (w' : World) × (err : Option ServiceError) × (publish_stream env w items broken
        ≡ done (w', err))
      × (err ≡ none
          → (length w'.calls ≡ length w.calls + length items)
            × All (λ i. (i.msg.event ≢ none) × (i.broken ≡ false)) items
            × (broken ≡ false))
unfolding publish_stream
stream_run env w [] broken =
    (w, if broken then some stream_error else none, refl, λ h. ground arith)
stream_run env w (i ∷ items) broken = elim (first env w i items broken) [
  | published w' fine e next ↦
      let (w'', err, e', h) = stream_run env w' items broken in
      let (one_more, has) = service_publish-length env w w' i.msg e in
      (w'', err, next ∙ e', λ n. let (l, all, b) = h n in (omega arith, ((has, fine), all), b))
  | stopped w' err stop ↦ (w', some err, stop, λ h. absurd (ground arith))
]

-- The RPC PublishStream always ends, without a panic, on every stream.
pub publish_stream_total :
    (env : Env) (w : World) (items : List Item) (broken : Bool)
    → (w' : World) × (err : Option ServiceError) × (publish_stream env w items broken
        ≡ done (w', err))
publish_stream_total env w items broken =
    let (w', err, e, _) = stream_run env w items broken in (w', err, e)

-- A stream that ends without an error has had every message published: each has its event field,
-- none came with a stream error, nor did the end, and the MQTT client was called once for each
-- message, in addition to the calls before.
pub publish_stream-All :
    (env : Env) (w w' : World) (items : List Item) (broken : Bool)
    → publish_stream env w items broken ≡ done (w', none)
    → (length w'.calls ≡ length w.calls + length items)
      × All (λ i. (i.msg.event ≢ none) × (i.broken ≡ false)) items
      × (broken ≡ false)
publish_stream-All env w w' items broken e =
    let (w'', err, e', h) = stream_run env w items broken in
    let same_err : err ≡ none = cc (sym e ∙ e') in
    let same_w : w'' ≡ w' = cc (sym e ∙ e') in
    let (l, all, b) = h same_err in (rw (← same_w) l, all, b)

-- The first message that is not published ends the stream with its error: what follows it is
-- not looked at, and the state is the one in which it failed.
pub publish_stream_stops :
    (env : Env) (w w₁ w₂ : World) (before after : List Item) (i : Item) (err : ServiceError)
    (broken : Bool)
    → publish_stream env w before false ≡ done (w₁, none)
    → i.broken ≡ false
    → service_publish env w₁ i.msg ≡ done (w₂, some err)
    → publish_stream env w (before ++ i ∷ after) broken ≡ done (w₂, some err)
publish_stream_stops env w w₁ w₂ [] after i err broken e fine bad =
    publish_stream-stop env w w₂ i after broken fine err
      (let same : w ≡ w₁ = unfold publish_stream in ground arith in rw same bad)
publish_stream_stops env w w₁ w₂ (x ∷ before) after i err broken e fine bad =
    elim (first env w x before false) [
      | published w' fine' e' next ↦
          publish_stream-next env w w' x (before ++ i ∷ after) broken fine' e'
          ∙ publish_stream_stops env w' w₁ w₂ before after i err broken (sym next ∙ e) fine bad
      | stopped w' err' stop ↦ absurd (ground arith)
    ]
