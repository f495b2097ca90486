-- ===== src/Broker/System/Idle.antt =====
-- internal/broker: that the MQTT client ends up subscribed to what subscribers asked for.
pub mod Tasks
pub mod Fields
pub mod Moves
use events_service.Base.{
  ℕ, zero, suc, List, [], ◌∷◌, ◌++◌, Bool, true, false, not, ◌&&◌, ◌||◌, String, Option, none, some,
  Outcome, done, ◌>>=◌, >>=-eq-done, ◌≡◌, ◌≢◌, refl, sym, ◌∙◌, ap, arith, ◌⊎◌, inl, inr,
  Option-cases, Bool-cases, ◌==◌, string_eq, nat_eq, eq_iff, eq_refl, lookup, insert, if◌then◌else◌,
  All,
}
use events_service.Chan.{Chans}
use events_service.Broker.{
  World, Env, Event, Entry, Call, Task, subscribing, unsubscribing, make_topic, subscribe_call,
  unsubscribe_call, publish_call, perform, resubscribe, handle_on_connect, start_if_new, subscribe,
  subscribed, send_retained, Broker, receivers_of, google_prefix,
}
use events_service.Broker.Dispatch.{
  next_drain, later_drains, handle_message, dispatch, fan_out, store_retained, mark_retained,
  Message,
}
use events_service.Text.{trim_prefix}
use events_service.Broker.System.{
  run_task, pick, drop_joined, same_flight, run_picked, publish, mark_topic, PublishError,
  marshal_failed, not_connected, publish_failed, Action, subscribes, unsubscribes, closes, receives,
  connects, runs, publishes, reads, step, run, read,
}
use events_service.Broker.System.Runs.{start}
use events_service.Broker.System.Reconnect.{is_subscribed, is_subscribed-perform}
use events_service.Broker.System.Idle.Fields.{subscribed-subscribe, handle_message-same}
use events_service.Broker.System.Idle.Moves.{
  Kept, Goes, covered, Goes-same, subscribed-Goes, covered-subscribed, connect-Goes,
  run_picked-Goes, publish-Goes,
}

-- No subscriber leaves.
abbrev pub Stays : Action → Type 0
Stays (unsubscribes c) = ⊥
Stays (closes c) = ⊥
Stays _ = Unit

module _ (env : Env) (topic : String)
    (accepted : (es : List Entry) (client : ℕ) (call : Call)
      → env.accepts es client call ≡ true) where
  step-Goes :
      (w w' : World) (a : Action)
      → Stays a
      → step env w a ≡ done w'
      → Kept env topic accepted w
      → Goes env topic accepted w w'
  unfolding step
  step-Goes w w' (subscribes url c drains) st h v =
      let (cs, ends) = subscribed-subscribe w w' url c drains h in
      rw (← ends) (subscribed-Goes env topic accepted w url c cs v)
  step-Goes w w' (unsubscribes c) st h v = absurd st
  step-Goes w w' (closes c) st h v = absurd st
  step-Goes w w' (receives m ds) st h v =
      let (t, c, l, k) = handle_message-same env w w' m ds h in
      Goes-same env topic accepted w w' t c l k v
  step-Goes w w' (connects client) st h v =
      let same : handle_on_connect env w client ≡ w' = cc h in
      rw (← same) (connect-Goes env topic accepted w client v)
  step-Goes w w' (runs k joined) st h v = run_picked-Goes env topic accepted w w' k joined h v
  step-Goes w w' (publishes evt) st h v =
      let (r, sent, ends) = >>=-eq-done (publish env w evt) _ h in
      let same : r.0 ≡ w' = cc ends in rw (← same) (publish-Goes env topic accepted w evt r sent v)
  step-Goes w w' (reads c) st h v =
      let same : read w c ≡ w' = cc h in
      rw (← same) (unfold read in Goes-same env topic accepted w _ refl refl refl refl v)

  run-Goes :
      (actions : List Action) (w w' : World)
      → All Stays actions
      → run env w actions ≡ done w'
      → Kept env topic accepted w
      → Goes env topic accepted w w'
  unfolding run
  run-Goes [] w w' st h v =
      let same : w ≡ w' = cc h in rw (← same) (record { kept = v; covers = λ cov. cov })
  run-Goes (a ∷ actions) w w' (st, sts) h v =
      let (w₁, first, rest) = >>=-eq-done (step env w a) _ h in
      let g₁ = step-Goes w w₁ a st first v in
      let g₂ = run-Goes actions w₁ w' sts rest g₁.kept in
      record { kept = g₂.kept; covers = λ cov. g₂.covers (g₁.covers cov) }

  start-Kept : (chans : Chans Event) → Kept env topic accepted (start chans)
  start-Kept chans = record { calm_tasks = refl; live = λ client m h. cc }

  idle-Kept :
      (w : World) (client : ℕ)
      → Kept env topic accepted w
      → covered env topic accepted w ≡ true
      → w.tasks ≡ []
      → w.broker.conn ≡ some client
      → is_subscribed client topic w.calls ≡ true
  idle-Kept w client v cov idle connected = v.live client (ground (arith, cov, idle)) connected

run-append :
    (env : Env) (before after : List Action) (w w' : World)
    → run env w (before ++ after) ≡ done w'
    → (w₁ : World) × (run env w before ≡ done w₁) × (run env w₁ after ≡ done w')
unfolding run
run-append env [] after w w' h = (w, refl, h)
run-append env (a ∷ before) after w w' h =
    let (w₁, first, rest) = >>=-eq-done (step env w a) _ h in
    let (w₂, more, last) = run-append env before after w₁ w' rest in (w₂, rw first more, last)

-- From the start, after any run in which somebody subscribes to a type URL and no subscriber leaves:
-- once the goroutines that were started have all run, the MQTT client of the last connection is
-- subscribed to the topic of the URL, whatever came in between, a reconnection among it, and in
-- whatever order the goroutines ran. (The client accepts every call.)
pub run-is_subscribed :
    (env : Env) (chans : Chans Event) (before after : List Action) (url : String) (c : ℕ)
    (drains : Bool) (w : World) (client : ℕ)
    → ((es : List Entry) (cl : ℕ) (call : Call) → env.accepts es cl call ≡ true)
    → All Stays before
    → All Stays after
    → run env (start chans) (before ++ subscribes url c drains ∷ after) ≡ done w
    → w.tasks ≡ []
    → w.broker.conn ≡ some client
    → is_subscribed client (make_topic url) w.calls ≡ true
unfolding run
run-is_subscribed env chans before after url c drains w client accepted stay stay' h idle
      connected =
    let topic = make_topic url in
    let (w₁, first, rest) =
      run-append env before (subscribes url c drains ∷ after) (start chans) w h in
    let (w₂, sub, last) = >>=-eq-done (step env w₁ (subscribes url c drains)) _ rest in
    let k₁ =
      (run-Goes env topic accepted before (start chans) w₁ stay first
        (start-Kept env topic accepted chans)).kept in
    let k₂ = (step-Goes env topic accepted w₁ w₂ (subscribes url c drains) tt sub k₁).kept in
    let (cs, ends) = subscribed-subscribe w₁ w₂ url c drains (unfold step in sub) in
    let cov = covered-subscribed env topic accepted w₁ url c cs refl in
    let g = run-Goes env topic accepted after w₂ w stay' last k₂ in
    idle-Kept env topic accepted w client g.kept (g.covers (rw (← ends) cov)) idle connected
