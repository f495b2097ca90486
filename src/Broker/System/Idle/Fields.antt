-- ===== src/Broker/System/Idle/Fields.antt =====
-- internal/broker/broker.go: what Subscribe and handleMessage leave of the broker.
use events_service.Base.{
  ℕ, List, Bool, true, false, String, done, >>=-eq-done, ◌≡◌, refl, arith, inl, inr, Option-cases,
  string_eq, nat_eq, lookup,
}
use events_service.Chan.{Chans}
use events_service.Broker.{
  World, Env, Event, subscribe, subscribed, send_retained, Broker, receivers_of, google_prefix,
}
use events_service.Broker.Dispatch.{
  handle_message, dispatch, fan_out, store_retained, mark_retained, Message,
}
use events_service.Text.{trim_prefix}

pub subscribed-subscribe :
    (w w' : World) (url : String) (c : ℕ) (drains : Bool)
    → subscribe w url c drains ≡ done w'
    → (cs : Chans Event) × (subscribed w url c cs ≡ w')
unfolding subscribe
subscribed-subscribe w w' url c drains h =
    let kept = lookup url w.broker.retained_msgs in
    let (cs, sent, ends) = >>=-eq-done (send_retained kept w.chans c drains) _ h in (cs, cc ends)

pub topics-store_retained :
    (r : Bool) (url : String) (pb : Event) (b : Broker)
    → ((store_retained r url pb b).topics ≡ b.topics) × ((store_retained r url pb b).conn ≡ b.conn)
topics-store_retained true url pb b = (refl, refl)
topics-store_retained false url pb b = (refl, refl)

-- A message leaves the topics, the connection, the calls and the goroutines alone.
pub handle_message-same :
    (env : Env) (w w' : World) (m : Message) (ds : List Bool)
    → handle_message env w m ds ≡ done w'
    → (w'.broker.topics ≡ w.broker.topics)
      × (w'.broker.conn ≡ w.broker.conn)
      × (w'.calls ≡ w.calls)
      × (w'.tasks ≡ w.tasks)
unfolding handle_message dispatch
handle_message-same env w w' m ds h = elim (Option-cases (env.unmarshal m.payload)) [
  | inl dropped ↦
      let run : handle_message env w m ds ≡ done w = rw (handle_message, dropped) refl in
      let same : w ≡ w' = cc (run, h) in rw (← same) (refl, refl, refl, refl)
  | inr (pb, decoded) ↦ elim (Option-cases pb.event) [
    | inl missing ↦ absurd (ground arith)
    | inr (any, has) ↦
        let url = trim_prefix any.type_url google_prefix in
        let pb' = mark_retained m.retained pb in
        let b = store_retained m.retained url pb' w.broker in
        let (cs, fans, ends) =
          >>=-eq-done (fan_out env pb' (receivers_of b url) ds w.chans)
            (λ (cs₁ : Chans Event). done (record w { broker = b; chans = cs₁ }))
            (rw (handle_message, decoded, dispatch, has) at h) in
        let same : record w { broker = b; chans = cs } ≡ w' = cc ends in
        let (t, c) = topics-store_retained m.retained url pb' w.broker in
        rw (← same) (t, c, refl, refl)
  ]
]
