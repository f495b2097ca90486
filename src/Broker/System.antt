-- ===== src/Broker/System.antt =====
-- internal/broker/broker.go: the goroutines that handlers start, Publish, and the broker together
-- with its subscribers and the MQTT client as a machine whose environment picks each step.
pub mod Bounds
pub mod Idle
pub mod Topics
pub mod Reconnect
pub mod Publishing
pub mod Runs
pub mod Safety
pub mod Steps
pub mod Duplicate
pub mod Late
use events_service.Base.{
  ℕ, zero, suc, List, [], ◌∷◌, ◌++◌, map, Bool, true, false, String, Option, none, some, Outcome,
  done, panic, nil_pointer, ◌>>=◌, ◌&&◌, if◌then◌else◌, ◌==◌, string_eq, insert,
}
use events_service.Chan.{Channel, update, close, hand_off}
use events_service.Broker.{
  Broker, World, Env, Event, Call, Task, subscribe_call, unsubscribe_call, publish_call,
  subscribing, unsubscribing, make_topic, perform, subscribe, handle_on_connect,
}
use events_service.Broker.Dispatch.{Message, handle_message, next_drain, later_drains}
use events_service.Broker.Removal.{unsubscribe_all}

-- b.topics[typeUrl] = struct{}{}, if the client accepted the subscription
abbrev pub mark_topic : Bool → String → World → World
mark_topic false url w = w
mark_topic true url w = record w {
  broker = record w.broker { topics = insert url tt w.broker.topics };
}

-- What runs in a goroutine: the body of `subscribe`, and the end of UnsubscribeAll, whose error is
-- only logged. Both call b.conn with no check for nil.
unfoldable pub run_task : Env → World → Task → Outcome World
unfolding perform make_topic insert
run_task env w (subscribing url) = elim w.broker.conn [
  | none ↦ panic nil_pointer
  | some client ↦
      let (w', ok) = perform env w client (subscribe_call (make_topic url)) in
      done (mark_topic ok url w')
]
run_task env w (unsubscribing ts) = elim w.broker.conn [
  | none ↦ panic nil_pointer
  | some client ↦ done (perform env w client (unsubscribe_call (map make_topic ts))).0
]

-- Takes the k-th task out of the list.
unfoldable pub pick : ℕ → List Task → Option (Task × List Task)
pick k [] = none
pick zero (t ∷ ts) = some (t, ts)
pick (suc k) (t ∷ ts) = elim (pick k ts) [ none ↦ none | some (x, rest) ↦ some (x, t ∷ rest) ]

abbrev same_flight : Task → Task → Bool
same_flight (subscribing u) (subscribing v) = make_topic u == make_topic v
same_flight _ _ = false

-- singleflight.Group.Do: of the tasks with the same topic, those that had come in while the call
-- was in flight (`joined`) share its result and do nothing themselves.
unfoldable pub drop_joined : Task → List Bool → List Task → List Task
unfolding make_topic
drop_joined t joined [] = []
drop_joined t joined (x ∷ xs) =
    let rest = drop_joined t (later_drains joined) xs in
    if next_drain joined && same_flight t x then rest else x ∷ rest

unfoldable pub run_picked : Env → World → ℕ → List Bool → Outcome World
unfolding pick drop_joined run_task
run_picked env w k joined = elim (pick k w.tasks) [
  | none ↦ done w
  | some (t, rest) ↦ run_task env (record w { tasks = drop_joined t joined rest }) t
]

pub data PublishError : Type 0 where
  marshal_failed : PublishError
  not_connected : PublishError
  publish_failed : PublishError

-- Publish
unfoldable pub publish : Env → World → Event → Outcome (World × Option PublishError)
unfolding perform make_topic
publish env w evt = elim (env.marshal evt) [
  | none ↦ done (w, some marshal_failed)
  | some blob ↦ elim w.broker.conn [
    | none ↦ done (w, some not_connected)
    | some client ↦ elim evt.event [
      | none ↦ panic nil_pointer
      | some any ↦
          let (w', ok) =
            perform env w client (publish_call (make_topic any.type_url) evt.retained blob) in
          done (w', if ok then none else some publish_failed)
    ]
  ]
]

-- close(msgs), which comes after UnsubscribeAll(msgs) when a subscriber ends. No lock is held between
-- the two.
unfoldable pub close_channel : World → ℕ → Outcome World
unfolding close
close_channel w c = do ch ← close (w.chans c); done (record w { chans = update w.chans c ch })

-- The reader takes the oldest entry of its channel.
unfoldable pub read : World → ℕ → World
unfolding hand_off
read w c = let ch = w.chans c in record w { chans = update w.chans c (hand_off ch.buffer ch) }

pub data Action : Type 0 where
  subscribes : String → ℕ → Bool → Action
  unsubscribes : ℕ → Action
  closes : ℕ → Action
  receives : Message → List Bool → Action
  connects : ℕ → Action
  runs : ℕ → List Bool → Action
  publishes : Event → Action
  reads : ℕ → Action

unfoldable pub step : Env → World → Action → Outcome World
unfolding subscribe unsubscribe_all close_channel handle_message handle_on_connect run_picked
    publish read
step env w (subscribes url c drains) = subscribe w url c drains
step env w (unsubscribes c) = done (unsubscribe_all w c)
step env w (closes c) = close_channel w c
step env w (receives m ds) = handle_message env w m ds
step env w (connects client) = done (handle_on_connect env w client)
step env w (runs k joined) = run_picked env w k joined
step env w (publishes evt) = publish env w evt >>= λ r. done r.0
step env w (reads c) = done (read w c)

-- A run of the machine; what panics ends the process, and what blocks holds the broker's lock.
unfoldable pub run : Env → World → List Action → Outcome World
unfolding step
run env w [] = done w
run env w (a ∷ rest) = step env w a >>= λ w'. run env w' rest
