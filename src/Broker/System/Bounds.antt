-- ===== src/Broker/System/Bounds.antt =====
-- internal/broker with its subscribers: what any run does to the channels.
use events_service.Base.{
  ℕ, ◌≤◌, List, [], ◌∷◌, ◌++◌, Bool, true, false, String, Option, none, some, done, >>=-eq-done,
  ◌≡◌, refl, arith, ◌⊎◌, inl, inr, Option-cases, length, nat_eq, lookup,
}
use events_service.Chan.{Chans, history, update, send, send_or_timeout, hand_off, shut}
use events_service.Chan.Growth.{
  AllGrow, AllGrow-refl, AllGrow-trans, update-AllGrow, send-Grows, send_or_timeout-Grows,
  hand_off-Grows, shut-Grows,
}
use events_service.Broker.{
  World, Env, Event, Task, subscribing, unsubscribing, subscribe, handle_on_connect, perform,
  resubscribe, send_retained, subscribed, receivers_of, google_prefix,
}
use events_service.Text.{trim_prefix}
use events_service.Broker.Dispatch.{
  Message, handle_message, dispatch, fan_out, next_drain, later_drains, mark_retained,
  store_retained,
}
use events_service.Broker.Removal.{unsubscribe_all}
use events_service.Broker.System.Safety.{close_channel-done}
use events_service.Broker.System.{
  Action, subscribes, unsubscribes, closes, receives, connects, runs, publishes, reads, step, run,
  read, publish, run_picked, run_task, pick, drop_joined, PublishError,
}

fan_out-AllGrow :
    (env : Env) (pb : Event) (rs : List ℕ) (ds : List Bool) (cs cs' : Chans Event)
    → fan_out env pb rs ds cs ≡ done cs'
    → AllGrow cs cs'
unfolding fan_out
fan_out-AllGrow env pb [] ds cs cs' h = let same : cs ≡ cs' = cc h in rw (← same) (AllGrow-refl cs)
fan_out-AllGrow env pb (r ∷ rs) ds cs cs' h =
    let (ch, sent, rest) =
      >>=-eq-done (send_or_timeout (cs r) (env.clone pb) (next_drain ds)) _ h in
    AllGrow-trans cs (update cs r ch) cs'
      (update-AllGrow cs r ch (send_or_timeout-Grows (cs r) ch (env.clone pb) (next_drain ds) sent))
      (fan_out-AllGrow env pb rs (later_drains ds) (update cs r ch) cs' rest)

pub done-injective : {A : Type 0} {a b : A} → done a ≡ done b → a ≡ b
done-injective h = cc h

handle_message-AllGrow :
    (env : Env) (w w' : World) (m : Message) (ds : List Bool)
    → handle_message env w m ds ≡ done w'
    → AllGrow w.chans w'.chans
unfolding handle_message dispatch
handle_message-AllGrow env w w' m ds h = elim (Option-cases (env.unmarshal m.payload)) [
  | inl dropped ↦
      let run : handle_message env w m ds ≡ done w = rw (handle_message, dropped) refl in
      let same : w ≡ w' = cc (run, h) in rw (← same) (AllGrow-refl w.chans)
  | inr (pb, decoded) ↦ elim (Option-cases pb.event) [
    | inl missing ↦ absurd (ground arith)
    | inr (any, has) ↦
        let url = trim_prefix any.type_url google_prefix in
        let pb' = mark_retained m.retained pb in
        let b = store_retained m.retained url pb' w.broker in
        let (cs, fans, ends) =
          >>=-eq-done (fan_out env pb' (receivers_of b url) ds w.chans)
            (λ (cs₁ : Chans Event). done (record w { broker = b; chans = cs₁ }))
            (rw (handle_message, decoded, dispatch, has) at h) in
        let same : record w { broker = b; chans = cs } ≡ w' = done-injective ends in
        rw (← same) (fan_out-AllGrow env pb' (receivers_of b url) ds w.chans cs fans)
  ]
]

send_retained-AllGrow :
    (o : Option Event) (cs cs' : Chans Event) (a : ℕ) (drains : Bool)
    → send_retained o cs a drains ≡ done cs'
    → AllGrow cs cs'
unfolding send_retained
send_retained-AllGrow none cs cs' a drains h =
    let same : cs ≡ cs' = cc h in rw (← same) (AllGrow-refl cs)
send_retained-AllGrow (some msg) cs cs' a drains h =
    let (ch, sent, ends) = >>=-eq-done (send (cs a) msg drains) _ h in
    let same : update cs a ch ≡ cs' = cc ends in
    rw (← same) (update-AllGrow cs a ch (send-Grows (cs a) ch msg drains sent))

subscribe-AllGrow :
    (w w' : World) (url : String) (a : ℕ) (drains : Bool)
    → subscribe w url a drains ≡ done w'
    → AllGrow w.chans w'.chans
unfolding subscribe
subscribe-AllGrow w w' url a drains h =
    let kept = lookup url w.broker.retained_msgs in
    let (cs, sent, ends) = >>=-eq-done (send_retained kept w.chans a drains) _ h in
    let same : subscribed w url a cs ≡ w' = cc ends in
    rw (← same) (send_retained-AllGrow kept w.chans cs a drains sent)

resubscribe-chans :
    (env : Env) (client : ℕ) (ts : List (String × Unit {0})) (w : World)
    → (resubscribe env w client ts).chans ≡ w.chans
unfolding resubscribe perform
resubscribe-chans env client [] w = refl
resubscribe-chans env client ((t, _) ∷ ts) w = resubscribe-chans env client ts _

run_task-chans :
    (env : Env) (w w' : World) (t : Task) → run_task env w t ≡ done w' → w'.chans ≡ w.chans
unfolding run_task perform
run_task-chans env w w' (subscribing url) h = elim (Option-cases w.broker.conn) [
  | inl missing ↦ absurd (ground arith)
  | inr (client, e) ↦ ground arith
]
run_task-chans env w w' (unsubscribing ts) h = ground arith

pub run_picked-chans :
    (env : Env) (w w' : World) (k : ℕ) (joined : List Bool)
    → run_picked env w k joined ≡ done w'
    → w'.chans ≡ w.chans
unfolding run_picked
run_picked-chans env w w' k joined h = elim (Option-cases (pick k w.tasks)) [
  | inl nothing ↦ ground arith
  | inr ((t, rest), e) ↦
      run_task-chans env (record w { tasks = drop_joined t joined rest }) w' t
        (rw (run_picked, e) at h)
]

pub publish-chans :
    (env : Env) (w : World) (evt : Event) (r : World × Option PublishError)
    → publish env w evt ≡ done r
    → r.0.chans ≡ w.chans
unfolding publish perform
publish-chans env w evt r h = ground arith

step-AllGrow :
    (env : Env) (w w' : World) (a : Action) → step env w a ≡ done w' → AllGrow w.chans w'.chans
unfolding step unsubscribe_all read handle_on_connect
step-AllGrow env w w' (subscribes url c drains) h = subscribe-AllGrow w w' url c drains h
step-AllGrow env w w' (unsubscribes c) h =
    let same : unsubscribe_all w c ≡ w' = done-injective h in rw (← same) (AllGrow-refl w.chans)
step-AllGrow env w w' (closes c) h =
    rw (← close_channel-done w w' c h)
      (update-AllGrow w.chans c (shut (w.chans c)) (shut-Grows (w.chans c)))
step-AllGrow env w w' (receives m ds) h = handle_message-AllGrow env w w' m ds h
step-AllGrow env w w' (connects client) h =
    let same : handle_on_connect env w client ≡ w' = done-injective h in
    rw
      (
        ← same,
        resubscribe-chans env client w.broker.topics
            (record w { broker = record w.broker { conn = some client } }),
      )
      (AllGrow-refl w.chans)
step-AllGrow env w w' (runs k joined) h =
    rw (run_picked-chans env w w' k joined h) (AllGrow-refl w.chans)
step-AllGrow env w w' (publishes evt) h =
    let (r, sent, ends) = >>=-eq-done (publish env w evt) _ h in
    let same : r.0 ≡ w' = done-injective ends in
    rw (← same, publish-chans env w evt r sent) (AllGrow-refl w.chans)
step-AllGrow env w w' (reads c) h =
    let same : read w c ≡ w' = done-injective h in
    rw (← same) (
      update-AllGrow w.chans c (hand_off (w.chans c).buffer (w.chans c))
        (hand_off-Grows (w.chans c)))

run-AllGrow :
    (env : Env) (actions : List Action) (w w' : World)
    → run env w actions ≡ done w'
    → AllGrow w.chans w'.chans
unfolding run
run-AllGrow env [] w w' h =
    let same : w ≡ w' = done-injective h in rw (← same) (AllGrow-refl w.chans)
run-AllGrow env (a ∷ actions) w w' h =
    let (w₁, first, rest) = >>=-eq-done (step env w a) _ h in
    AllGrow-trans w.chans w₁.chans w'.chans (step-AllGrow env w w₁ a first)
      (run-AllGrow env actions w₁ w' rest)

-- Whatever subscribers, messages, departures, reconnections, goroutines and publications do, in any
-- order: in a run that ends, no channel ever holds more events than its capacity, which stays as it
-- was; a closed one is not opened again; and what was sent to a channel or read from it before is
-- still the beginning of what was sent to it or read from it: nothing is taken back or overtaken.
-- (At the start no channel is over its capacity, as make leaves it.)
pub run-bounds :
    (env : Env) (w w' : World) (actions : List Action) (c : ℕ)
    → length (w.chans c).buffer ≤ (w.chans c).capacity
    → run env w actions ≡ done w'
    → (length (w'.chans c).buffer ≤ (w.chans c).capacity)
      × ((w'.chans c).capacity ≡ (w.chans c).capacity)
      × (((w.chans c).closed ≡ false) ⊎ ((w'.chans c).closed ≡ true))
      × ((more : List Event) × (history (w'.chans c) ≡ history (w.chans c) ++ more))
      × ((more : List Event) × ((w'.chans c).received ≡ (w.chans c).received ++ more))
run-bounds env w w' actions c h r =
    let g = run-AllGrow env actions w w' r c in
    (rw (← g.capacity) (g.bounded h), g.capacity, stays (w.chans c).closed g.closed, g.sent, g.read)
  where
    stays : (b : Bool) {b' : Bool} → (b ≡ true → b' ≡ true) → (b ≡ false) ⊎ (b' ≡ true)
    stays true kept = inr (kept refl)
    stays false kept = inl refl
