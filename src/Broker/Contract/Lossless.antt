-- ===== src/Broker/Contract/Lossless.antt =====
-- internal/broker: a run with room in the buffers loses nothing.
use events_service.Base.{
  ℕ, ◌+◌, ◌≤◌, List, [], ◌∷◌, ◌++◌, String, Bool, false, none, some, done, ◌≡◌, ◌≢◌, refl, sym, ◌∙◌,
  ap, arith, inl, inr, Bool-cases, Option-cases, length, lookup, contains, count, replicate, nat_eq,
  if◌then◌else◌,
}
use events_service.Chan.{Chans, history, update}
use events_service.Chan.Laws.{send_room}
use events_service.Broker.{World, Env, Event, receivers_of, subscribe, subscribed}
use events_service.Broker.Contract.{Complete, Exactly, ReachesAll, quiet}
use events_service.Broker.Contract.Room.{Room, cost, step-Fills, Room-step}
use events_service.Broker.Contract.Steps.{step-Change}
use events_service.Broker.Contract.Views.{view, view-Same, contains-count, contains-absent}
use events_service.Broker.Delivery.{dispatch_key, handle_message_delivers}
use events_service.Broker.Dispatch.{Message, mark_retained, handle_message}
use events_service.Broker.System.{
  Action, subscribes, unsubscribes, closes, receives, connects, runs, publishes, reads, step, run,
}
use events_service.Broker.System.Runs.{AdmissibleRun, start, start-Inv}
use events_service.Broker.System.Safety.{Inv, Admissible, close_channel-open}
use events_service.Broker.System.Steps.{step_safe, receive-Inv, run_picked-Inv, publish-Inv}

-- With room for the retained message, Subscribe does not wait.
subscribe-done :
    (w : World) (url : String) (c n : ℕ) (drains : Bool)
    → (w.chans c).closed ≡ false
    → Room (1 + n) w.chans
    → (w' : World) × (subscribe w url c drains ≡ done w')
unfolding subscribe
subscribe-done w url c n drains o room = elim (Option-cases (lookup url w.broker.retained_msgs)) [
  | inl nothing ↦ (subscribed w url c w.chans, rw nothing)
  | inr (msg, kept) ↦
      let (ch, sent, _) = send_room (w.chans c) msg drains o (omega (arith, room c)) in
      (subscribed w url c (update w.chans c ch), rw (kept, sent))
]

-- Nor does any other step.
step-ends :
    (env : Env) (w : World) (a : Action) (n : ℕ)
    → ((e : Event) → env.clone e ≡ e)
    → Inv w
    → Admissible env w a
    → Room (cost a + n) w.chans
    → (w' : World) × (step env w a ≡ done w')
unfolding step
step-ends env w (subscribes url c drains) n clones v h room =
    subscribe-done w url c n drains h.0 room
step-ends env w (receives m ds) n clones v h room =
    let (w', e, _) = receive-Inv env w m ds clones h v in (w', e)
step-ends env w (runs k joined) n clones v h room =
    let (w', e, _) = run_picked-Inv env w k joined h v in (w', e)
step-ends env w (publishes evt) n clones v h room =
    let (w', e, _) = publish-Inv env w evt h v in (w', unfold step in e)
step-ends env w (unsubscribes c) n clones v h room = (_, refl)
step-ends env w (closes c) n clones v h room = (_, close_channel-open w c h.0)
step-ends env w (connects client) n clones v h room = (_, refl)
step-ends env w (reads c) n clones v h room = (_, refl)

step-done :
    (env : Env) (w : World) (a : Action) (n : ℕ)
    → ((e : Event) → env.clone e ≡ e)
    → Inv w
    → Admissible env w a
    → Room (cost a + n) w.chans
    → (w' : World) × (step env w a ≡ done w') × Inv w'
step-done env w a n clones v h room = elim (step_safe env w a clones v h) [
  | inr ends ↦ ends
  | inl waits ↦ let (w', e) = step-ends env w a n clones v h room in absurd (ground arith)
]

-- A channel that is registered at most once is sent a message as often as it is registered.
once-if :
    (d : ℕ) (rs : List ℕ) (e : Event)
    → count d rs ≤ 1
    → replicate (count d rs) e ≡ (if contains d rs then e ∷ [] else [])
once-if d rs e once = elim (Bool-cases (contains d rs)) [
  | inl there ↦
      let one : count d rs ≡ 1 = omega (arith, contains-count d rs there, once) in rw (there, one)
  | inr missing ↦ rw (missing, contains-absent d rs missing)
]

receive-ReachesAll :
    (env : Env) (w w' : World) (m : Message) (ds : List Bool) (n : ℕ)
    → ((e : Event) → env.clone e ≡ e)
    → ((pb : Event) → env.unmarshal m.payload ≡ some pb → pb.event ≢ none)
    → Inv w
    → Room (1 + n) w.chans
    → handle_message env w m ds ≡ done w'
    → ReachesAll m.retained (env.unmarshal m.payload) (view w) (view w')
receive-ReachesAll env w w' m ds n clones named v room h =
    elim (Option-cases (env.unmarshal m.payload)) [
      | inl dropped ↦ rw dropped tt
      | inr (pb, decodes) ↦ elim (Option-cases pb.event) [
        | inl missing ↦ absurd (named pb decodes missing)
        | inr (any, has) ↦
            let key = dispatch_key any in
            let rs = receivers_of w.broker key in
            let (w₁, run, delivered, _, _) =
              handle_message_delivers env w m ds pb any decodes has clones (v.registered_open key)
                (λ c there. omega (arith, room c, v.registered_once key c)) in
            let same : w₁ ≡ w' = cc (run, h) in
            rw (decodes, has)
              (λ d.
                ap (λ (x : World). history (x.chans d)) (sym same)
                ∙ delivered d
                ∙ ap (λ l. history (w.chans d) ++ l)
                    (once-if d rs (mark_retained m.retained pb) (v.registered_once key d)))
      ]
    ]

step-Complete :
    (env : Env) (w w' : World) (a : Action) (n : ℕ)
    → ((e : Event) → env.clone e ≡ e)
    → Inv w
    → Admissible env w a
    → Room (cost a + n) w.chans
    → step env w a ≡ done w'
    → Complete env a (view w) (view w')
unfolding step
step-Complete env w w' (receives m ds) n clones v h room e =
    receive-ReachesAll env w w' m ds n clones h v room e
step-Complete env w w' (subscribes url c drains) n clones v h room e = tt
step-Complete env w w' (unsubscribes c) n clones v h room e = tt
step-Complete env w w' (closes c) n clones v h room e = tt
step-Complete env w w' (connects client) n clones v h room e = tt
step-Complete env w w' (runs k joined) n clones v h room e = tt
step-Complete env w w' (publishes evt) n clones v h room e = tt
step-Complete env w w' (reads c) n clones v h room e = tt

-- How many entries a run may add to a channel: one for each subscription and each message.
abbrev pub total_cost : List Action → ℕ
total_cost [] = 0
total_cost (a ∷ rest) = cost a + total_cost rest

-- A run, with room for k more entries behind it.
pub run-Exactly :
    (env : Env) (actions : List Action) (k : ℕ) (w : World)
    → ((e : Event) → env.clone e ≡ e)
    → Inv w
    → AdmissibleRun env w actions
    → Room (total_cost actions + k) w.chans
    → (w' : World) × (run env w actions ≡ done w')
      × Exactly env actions (view w) (view w')
      × Inv w'
      × Room k w'.chans
unfolding run AdmissibleRun Exactly
run-Exactly env [] k w clones v h room =
    (w, refl, view-Same w w refl refl refl, v, λ c. omega (arith, room c))
run-Exactly env (a ∷ rest) k w clones v (h, later) room =
    let n = total_cost rest + k in
    let room₀ : Room (cost a + n) w.chans = λ c. omega (arith, room c) in
    let (w₁, e, v₁) = step-done env w a n clones v h room₀ in
    let room₁ = Room-step a n w w₁ (step-Fills env w w₁ a clones v h e) room₀ in
    let (w', ends, more, v', room') = run-Exactly env rest k w₁ clones v₁ (later w₁ e) room₁ in
    (
      w',
      rw e ends,
      (
        view w₁,
        (step-Change env w w₁ a clones v h e, step-Complete env w w₁ a n clones v h room₀ e),
        more,
      ),
      v',
      room',
    )

-- Nothing is lost as long as there is room: from the start, an admissible run of any actions, in
-- which every channel has room for one entry for each subscription and each message of the run,
-- ends, without waiting, and changes what subscribers see as the contract of run-refines says, with
-- no message dropped: each message that decodes is added to what everybody was sent who is
-- interested in its type, exactly once and behind what came before.
-- (Admissible is as in run_safe; proto.Clone gives an equal event.)
pub run-lossless :
    (env : Env) (chans : Chans Event) (actions : List Action)
    → ((e : Event) → env.clone e ≡ e)
    → AdmissibleRun env (start chans) actions
    → ((c : ℕ) → length (chans c).buffer + total_cost actions ≤ (chans c).capacity)
    → (w : World) × (run env (start chans) actions ≡ done w)
      × Exactly env actions (quiet (λ c. history (chans c))) (view w)
unfolding lookup
run-lossless env chans actions clones h room =
    let (w, ends, changes, _, _) =
      run-Exactly env actions 0 (start chans) clones (start-Inv chans) h
        (λ c. omega (arith, room c)) in
    (w, ends, changes)
