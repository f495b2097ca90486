-- ===== src/Broker/System/Steps.antt =====
-- internal/broker: every admissible step of the machine ends without a panic.
use events_service.Base.{
  ℕ, List, [], ◌∷◌, String, Bool, true, false, none, some, done, blocked, ◌≡◌, refl, ap, ◌≢◌, ◌⊎◌,
  inl, inr, arith, nat_eq, string_eq, Option-cases,
}
use events_service.Broker.{
  World, Env, Event, Task, subscribing, unsubscribing, resubscribe, handle_on_connect, perform,
}
use events_service.Broker.Delivery.{handle_message_isolates}
use events_service.Broker.Dispatch.{Message, handle_message}
use events_service.Broker.Registration.{subscribe_open}
use events_service.Broker.System.{
  Action, subscribes, unsubscribes, closes, receives, connects, runs, publishes, reads, step, read,
  run_task, run_picked, pick, drop_joined, mark_topic, publish,
}
use events_service.Base.{map}
use events_service.Broker.{Call, publish_call, make_topic, subscribe_call, unsubscribe_call}
use events_service.Broker.System.Safety.{
  Inv, Admissible, Inv-same, unsubscribe_all-Inv, closed_off, closed_off-Inv, close_channel-open,
  read-Inv, subscribe-Inv,
}

pub receive-Inv :
    (env : Env) (w : World) (m : Message) (ds : List Bool)
    → ((e : Event) → env.clone e ≡ e)
    → ((pb : Event) → env.unmarshal m.payload ≡ some pb → pb.event ≢ none)
    → Inv w
    → (w' : World) × (handle_message env w m ds ≡ done w') × Inv w'
receive-Inv env w m ds clones named v = elim (Option-cases (env.unmarshal m.payload)) [
  | inl dropped ↦ (w, unfold handle_message in rw (dropped, handle_message), v)
  | inr (pb, dec) ↦ elim (Option-cases pb.event) [
    | inl missing ↦ absurd (named pb dec missing)
    | inr (any, has) ↦
        let (w', e, h, k, r) =
          handle_message_isolates env w m ds pb any dec has clones (v.registered_open _) in
        (w', e, Inv-same w w' r k v)
  ]
]

pub resubscribe_same :
    (env : Env) (w : World) (client : ℕ) (ts : List (String × Unit {0}))
    → ((resubscribe env w client ts).broker ≡ w.broker)
      × ((resubscribe env w client ts).chans ≡ w.chans)
unfolding resubscribe
resubscribe_same env w client [] = (refl, refl)
resubscribe_same env w client ((t, _) ∷ ts) =
    resubscribe_same env (perform env w client (subscribe_call (make_topic t))).0 client ts

connect-Inv : (env : Env) (w : World) (client : ℕ) → Inv w → Inv (handle_on_connect env w client)
unfolding handle_on_connect
connect-Inv env w client v =
    let (b, c) =
      resubscribe_same env (record w { broker = record w.broker { conn = some client } }) client
        w.broker.topics in
    Inv-same w _ (ap (λ x. x.receivers) b) (λ d. ap (λ f. (f d).closed) c) v

mark_topic-Inv : (ok : Bool) (url : String) (w : World) → Inv w → Inv (mark_topic ok url w)
mark_topic-Inv false url w v = v
mark_topic-Inv true url w v = Inv-same w _ refl (λ c. refl) v

perform-Inv :
    (env : Env) (w : World) (client : ℕ) (call : Call) → Inv w → Inv (perform env w client call).0
unfolding perform
perform-Inv env w client call v = Inv-same w _ refl (λ c. refl) v

run_task-Inv :
    (env : Env) (w : World) (t : Task)
    → w.broker.conn ≢ none
    → Inv w
    → (w' : World) × (run_task env w t ≡ done w') × Inv w'
unfolding run_task
run_task-Inv env w t h v = elim (Option-cases w.broker.conn) [
  | inl missing ↦ absurd (h missing)
  | inr (client, e) ↦ connected t client e
]
  where
    connected :
        (t : Task) (client : ℕ)
        → w.broker.conn ≡ some client
        → (w' : World) × (run_task env w t ≡ done w') × Inv w'
    connected (subscribing url) client e =
        let call = subscribe_call (make_topic url) in
        (
          _,
          rw e,
          mark_topic-Inv (perform env w client call).1 url _ (perform-Inv env w client call v),
        )
    connected (unsubscribing ts) client e =
        (_, rw e, perform-Inv env w client (unsubscribe_call (map make_topic ts)) v)

pub run_picked-Inv :
    (env : Env) (w : World) (k : ℕ) (joined : List Bool)
    → w.broker.conn ≢ none
    → Inv w
    → (w' : World) × (run_picked env w k joined ≡ done w') × Inv w'
unfolding run_picked
run_picked-Inv env w k joined h v = elim (Option-cases (pick k w.tasks)) [
  | inl past ↦ (w, rw (past, run_picked), v)
  | inr ((t, rest), e) ↦
      let w₁ = record w { tasks = drop_joined t joined rest } in
      let (w', r, v') = run_task-Inv env w₁ t h (Inv-same w w₁ refl (λ c. refl) v) in
      (w', rw (e, run_picked) r, v')
]

pub publish-Inv :
    (env : Env) (w : World) (evt : Event)
    → evt.event ≢ none
    → Inv w
    → (w' : World) × (step env w (publishes evt) ≡ done w') × Inv w'
unfolding step publish
publish-Inv env w evt h v = elim (Option-cases (env.marshal evt)) [
  | inl unmarshalled ↦ (w, rw (unmarshalled, publish), v)
  | inr (blob, m) ↦ elim (Option-cases w.broker.conn) [
    | inl missing ↦ (w, ground arith, v)
    | inr (client, c) ↦ elim (Option-cases evt.event) [
      | inl no_event ↦ absurd (h no_event)
      | inr (any, has) ↦
          let call = publish_call (make_topic any.type_url) evt.retained blob in
          ((perform env w client call).0, ground arith, perform-Inv env w client call v)
    ]
  ]
]

-- From a state that satisfies the invariant, a step that the environment is allowed ends in a
-- state that satisfies it again, or waits for room for a retained message; it never panics.
-- (proto.Clone gives an equal event.)
pub step_safe :
    (env : Env) (w : World) (a : Action)
    → ((e : Event) → env.clone e ≡ e)
    → Inv w
    → Admissible env w a
    → (step env w a ≡ blocked) ⊎ ((w' : World) × (step env w a ≡ done w') × Inv w')
unfolding step
step_safe env w (subscribes url c drains) clones v (o, z) = elim (subscribe_open w url c drains o) [
  | inl waits ↦ inl waits
  | inr (w', e, _) ↦ inr (w', e, subscribe-Inv w w' url c drains o z v e)
]
step_safe env w (unsubscribes c) clones v h = inr (_, refl, unsubscribe_all-Inv w c v)
step_safe env w (closes c) clones v (open_, gone) =
    inr (closed_off w c, close_channel-open w c open_, closed_off-Inv w c gone v)
step_safe env w (receives m ds) clones v h = inr (receive-Inv env w m ds clones h v)
step_safe env w (connects client) clones v h = inr (_, refl, connect-Inv env w client v)
step_safe env w (runs k joined) clones v h = inr (run_picked-Inv env w k joined h v)
step_safe env w (publishes evt) clones v h = inr (publish-Inv env w evt h v)
step_safe env w (reads c) clones v h = inr (read w c, refl, read-Inv w c v)
