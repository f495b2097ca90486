-- ===== src/Broker/Contract/Steps.antt =====
-- internal/broker: the machine of the broker and its environment keeps the contract.
use events_service.Base.{
  ℕ, List, [], ◌∷◌, Bool, Option, none, some, done, blocked, >>=-eq-done, ◌≡◌, ◌≢◌, refl, ap, arith,
  ◌⊎◌, inl, inr, Option-cases, lookup, nat_eq,
}
use events_service.Chan.{Chans, history}
use events_service.Broker.{
  World, Env, Event, Task, subscribing, unsubscribing, handle_on_connect, perform,
}
use events_service.Broker.Contract.{Same, Heard, Change, Changes, quiet}
use events_service.Broker.Contract.Moves.{
  subscribe-Joined, unsubscribe_all-Left, closed_off-Same, receive-Spread, read-Same,
}
use events_service.Broker.Contract.Views.{view, view-Same}
use events_service.Broker.Dispatch.{Message, handle_message}
use events_service.Broker.System.{
  Action, subscribes, unsubscribes, closes, receives, connects, runs, publishes, reads, step, run,
  read, run_task, run_picked, pick, drop_joined, publish, PublishError,
}
use events_service.Broker.System.Bounds.{done-injective, run_picked-chans, publish-chans}
use events_service.Broker.System.Runs.{AdmissibleRun, start, start-Inv, Waits, run_safe, step-Inv}
use events_service.Broker.System.Safety.{Inv, Admissible, close_channel-done}
use events_service.Broker.Removal.{unsubscribe_all}
use events_service.Broker.System.Steps.{resubscribe_same}

receive-Heard :
    (env : Env) (w w' : World) (m : Message) (ds : List Bool)
    → ((e : Event) → env.clone e ≡ e)
    → ((pb : Event) → env.unmarshal m.payload ≡ some pb → pb.event ≢ none)
    → Inv w
    → handle_message env w m ds ≡ done w'
    → Heard m.retained (env.unmarshal m.payload) (view w) (view w')
unfolding handle_message
receive-Heard env w w' m ds clones named v h = elim (Option-cases (env.unmarshal m.payload)) [
  | inl dropped ↦
      let run : handle_message env w m ds ≡ done w = rw (handle_message, dropped) refl in
      let same : w ≡ w' = cc (run, h) in rw (dropped, ← same) (view-Same w w refl refl refl)
  | inr (pb, decodes) ↦ elim (Option-cases pb.event) [
    | inl missing ↦ absurd (named pb decodes missing)
    | inr (any, has) ↦
        rw (decodes, has) (receive-Spread env w w' m ds pb any clones decodes has v h)
  ]
]

-- Tasks change the topics and the calls only.
run_task-keeps :
    (env : Env) (w w' : World) (t : Task)
    → run_task env w t ≡ done w'
    → (w'.broker.receivers ≡ w.broker.receivers)
      × (w'.broker.retained_msgs ≡ w.broker.retained_msgs)
unfolding run_task perform
run_task-keeps env w w' (subscribing url) h = elim (Option-cases w.broker.conn) [
  | inl missing ↦ absurd (ground arith)
  | inr (client, e) ↦ (ground arith, ground arith)
]
run_task-keeps env w w' (unsubscribing ts) h = (ground arith, ground arith)

run_picked-Same :
    (env : Env) (w w' : World) (k : ℕ) (joined : List Bool)
    → run_picked env w k joined ≡ done w'
    → Same (view w) (view w')
unfolding run_picked
run_picked-Same env w w' k joined h = elim (Option-cases (pick k w.tasks)) [
  | inl nothing ↦ let same : w ≡ w' = ground arith in rw (← same) (view-Same w w refl refl refl)
  | inr ((t, rest), e) ↦
      let w₁ : World = record w { tasks = drop_joined t joined rest } in
      let (r, k') = run_task-keeps env w₁ w' t (rw (run_picked, e) at h) in
      view-Same w w' r k' (run_picked-chans env w w' k joined h)
]

publish-keeps :
    (env : Env) (w : World) (evt : Event) (r : World × Option PublishError)
    → publish env w evt ≡ done r
    → r.0.broker ≡ w.broker
unfolding publish perform
publish-keeps env w evt r h = ground arith

-- An admissible step changes what subscribers see as the contract allows.
pub step-Change :
    (env : Env) (w w' : World) (a : Action)
    → ((e : Event) → env.clone e ≡ e)
    → Inv w
    → Admissible env w a
    → step env w a ≡ done w'
    → Change env a (view w) (view w')
unfolding step handle_on_connect
step-Change env w w' (subscribes url c drains) clones v h e = subscribe-Joined w w' url c drains e
step-Change env w w' (unsubscribes c) clones v h e =
    let same : unsubscribe_all w c ≡ w' = done-injective e in
    rw (← same) (unsubscribe_all-Left w c v)
step-Change env w w' (closes c) clones v h e =
    rw (← close_channel-done w w' c e) (closed_off-Same w c)
step-Change env w w' (receives m ds) clones v h e = receive-Heard env w w' m ds clones h v e
step-Change env w w' (connects client) clones v h e =
    let same : handle_on_connect env w client ≡ w' = done-injective e in
    let (b, c) =
      resubscribe_same env (record w { broker = record w.broker { conn = some client } }) client
        w.broker.topics in
    rw (← same) (
      view-Same w (handle_on_connect env w client) (ap (λ x. x.receivers) b)
        (ap (λ x. x.retained_msgs) b) c)
step-Change env w w' (runs k joined) clones v h e = run_picked-Same env w w' k joined e
step-Change env w w' (publishes evt) clones v h e =
    let (r, sends, ends) = >>=-eq-done (publish env w evt) _ e in
    let same : r.0 ≡ w' = done-injective ends in
    let b = publish-keeps env w evt r sends in
    rw (← same) (
      view-Same w r.0 (ap (λ x. x.receivers) b) (ap (λ x. x.retained_msgs) b)
        (publish-chans env w evt r sends))
step-Change env w w' (reads c) clones v h e =
    let same : read w c ≡ w' = done-injective e in rw (← same) (read-Same w c)

run-Changes :
    (env : Env) (actions : List Action) (w w' : World)
    → ((e : Event) → env.clone e ≡ e)
    → Inv w
    → AdmissibleRun env w actions
    → run env w actions ≡ done w'
    → Changes env actions (view w) (view w')
unfolding run AdmissibleRun Changes
run-Changes env [] w w' clones v h e =
    let same : w ≡ w' = done-injective e in rw (← same) (view-Same w w refl refl refl)
run-Changes env (a ∷ rest) w w' clones v (h, later) e =
    let (w₁, first, more) = >>=-eq-done (step env w a) _ e in
    (
      view w₁,
      step-Change env w w₁ a clones v h first,
      run-Changes env rest w₁ w' clones (step-Inv env w w₁ a clones v h first) (later w₁ first)
          more,
    )

-- The broker keeps its contract: from the start, an admissible run of any actions ends with the
-- subscribers, the retained events and what each subscriber was sent as the contract allows after
-- these actions, one after the other; or it waits for ever at a subscription to a type URL with a
-- retained message, by a channel whose buffer is full.
-- The contract knows for each type URL who is interested in it, as a set, and the retained event.
-- A new subscriber is sent the retained event of its type, and nobody else anything; after
-- UnsubscribeAll a subscriber is interested in nothing any more, and takes with it the retained event of each type that
-- nobody else is interested in, but no other; a message that decodes reaches each subscriber that is
-- interested in its type at most once and no other, and replaces the retained event of that type if
-- it is retained, and no other; all else, closing its channel, goroutines, reconnections, publishing
-- and reading, changes nothing. (Admissible is as in run_safe; proto.Clone gives an equal event.)
pub run-refines :
    (env : Env) (chans : Chans Event) (actions : List Action)
    → ((e : Event) → env.clone e ≡ e)
    → AdmissibleRun env (start chans) actions
    → ((run env (start chans) actions ≡ blocked) × Waits env (start chans) actions)
      ⊎ ((w : World) × (run env (start chans) actions ≡ done w)
          × Changes env actions (quiet (λ c. history (chans c))) (view w))
unfolding lookup
run-refines env chans actions clones h = elim (run_safe env chans actions clones h) [
  | inl waits ↦ inl waits
  | inr (w, ends, _) ↦
      inr (w, ends, run-Changes env actions (start chans) w clones (start-Inv chans) h ends)
]
