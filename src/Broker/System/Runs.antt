-- ===== src/Broker/System/Runs.antt =====
-- internal/broker: whole runs of the broker and its environment.
use events_service.Base.{
  List, [], ◌∷◌, ◌++◌, >>=-eq-done, done, blocked, ◌≡◌, refl, ◌⊎◌, inl, inr, arith, nat_eq, lookup,
}
use events_service.Chan.{Chans}
use events_service.Broker.{World, Env, Event, new_broker}
use events_service.Broker.System.{Action, step, run}
use events_service.Broker.System.Safety.{Inv, Admissible, close_channel-open}
use events_service.Broker.System.Steps.{step_safe, receive-Inv, run_picked-Inv, publish-Inv}
use events_service.Base.{ℕ, String, Bool, false, some, ap}
use events_service.Chan.{has_room}
use events_service.Broker.{subscribe}
use events_service.Broker.Registration.{subscribe_blocked}
use events_service.Broker.System.{
  subscribes, unsubscribes, closes, receives, connects, runs, publishes, reads,
}

-- Each action is admissible in the state that the ones before it lead to.
unfoldable pub AdmissibleRun : Env → World → List Action → Type 0
AdmissibleRun env w [] = Unit
AdmissibleRun env w (a ∷ rest) =
    Admissible env w a × ((w' : World) → step env w a ≡ done w' → AdmissibleRun env w' rest)

pub AdmissibleRun-nil : (env : Env) (w : World) → AdmissibleRun env w []
unfolding AdmissibleRun
AdmissibleRun-nil env w = tt

-- One action at a time, where it leads to a state.
pub AdmissibleRun-cons :
    (env : Env) (w w' : World) (a : Action) (rest : List Action)
    → Admissible env w a
    → step env w a ≡ done w'
    → AdmissibleRun env w' rest
    → AdmissibleRun env w (a ∷ rest)
unfolding AdmissibleRun
AdmissibleRun-cons env w w' a rest h e more =
    (h, λ w'' e'. let same : w' ≡ w'' = cc (e, e') in rw (← same) more)

-- What is left of an admissible run is admissible.
pub AdmissibleRun-append :
    (env : Env) (before after : List Action) (w : World)
    → AdmissibleRun env w (before ++ after)
    → AdmissibleRun env w before
      × ((w' : World) → run env w before ≡ done w' → AdmissibleRun env w' after)
unfolding AdmissibleRun run
AdmissibleRun-append env [] after w h = (tt, λ w' e. let same : w ≡ w' = cc e in rw (← same) h)
AdmissibleRun-append env (a ∷ before) after w (h, later) = (
  (h, λ w₁ e. (AdmissibleRun-append env before after w₁ (later w₁ e)).0),
  λ w' e.
      let (w₁, first, rest) = >>=-eq-done (step env w a) _ e in
      (AdmissibleRun-append env before after w₁ (later w₁ first)).1 w' rest,
)

pub run-after :
    (env : Env) (before after : List Action) (w w₁ w' : World)
    → run env w before ≡ done w₁
    → run env w₁ after ≡ done w'
    → run env w (before ++ after) ≡ done w'
unfolding run
run-after env [] after w w₁ w' first last = let same : w ≡ w₁ = cc first in rw same last
run-after env (a ∷ before) after w w₁ w' first last =
    let (w₂, e, more) = >>=-eq-done (step env w a) _ first in
    rw e (run-after env before after w₂ w₁ w' more last)

-- A run that waits: some subscription in it is for a type URL with a retained message, by a channel
-- whose buffer is full by then.
pub record Waits (env : Env) (w : World) (actions : List Action) : Type 0 where
  pub before : List Action
  pub after : List Action
  pub url : String
  pub subscriber : ℕ
  pub drains : Bool
  pub met : World
  pub msg : Event
  pub splits : actions ≡ before ++ subscribes url subscriber drains ∷ after
  pub reaches : run env w before ≡ done met
  pub is_retained : lookup url met.broker.retained_msgs ≡ some msg
  pub is_full : has_room (met.chans subscriber) ≡ false

subscribe-Waits :
    (env : Env) (w : World) (url : String) (c : ℕ) (drains : Bool) (rest : List Action)
    → subscribe w url c drains ≡ blocked
    → Waits env w (subscribes url c drains ∷ rest)
unfolding run
subscribe-Waits env w url c drains rest h =
    let (msg, kept, full) = subscribe_blocked w url c drains h in
    record {
      before = [];
      after = rest;
      url = url;
      subscriber = c;
      drains = drains;
      met = w;
      msg = msg;
      splits = refl;
      reaches = refl;
      is_retained = kept;
      is_full = full;
    }

-- Only a subscription waits.
step-Waits :
    (env : Env) (w : World) (a : Action) (rest : List Action)
    → ((e : Event) → env.clone e ≡ e)
    → Inv w
    → Admissible env w a
    → step env w a ≡ blocked
    → Waits env w (a ∷ rest)
unfolding step
step-Waits env w (subscribes url c drains) rest clones v h e =
    subscribe-Waits env w url c drains rest e
step-Waits env w (receives m ds) rest clones v h e =
    let (w', ends, _) = receive-Inv env w m ds clones h v in absurd (ground arith)
step-Waits env w (runs k joined) rest clones v h e =
    let (w', ends, _) = run_picked-Inv env w k joined h v in absurd (ground arith)
step-Waits env w (publishes evt) rest clones v h e =
    let (w', ends, _) = publish-Inv env w evt h v in absurd (ground arith)
step-Waits env w (unsubscribes c) rest clones v h e = absurd (ground arith)
step-Waits env w (closes c) rest clones v (open_, gone) e =
    absurd (ground (arith, close_channel-open w c open_))
step-Waits env w (connects client) rest clones v h e = absurd (ground arith)
step-Waits env w (reads c) rest clones v h e = absurd (ground arith)

pub step-Inv :
    (env : Env) (w w' : World) (a : Action)
    → ((e : Event) → env.clone e ≡ e)
    → Inv w
    → Admissible env w a
    → step env w a ≡ done w'
    → Inv w'
step-Inv env w w' a clones v h e = elim (step_safe env w a clones v h) [
  | inl waits ↦ absurd (ground arith)
  | inr (w₁, e₁, v₁) ↦ let same : w₁ ≡ w' = cc (e, e₁) in rw (← same) v₁
]

Waits-cons :
    (env : Env) (w w₁ : World) (a : Action) (rest : List Action)
    → step env w a ≡ done w₁
    → Waits env w₁ rest
    → Waits env w (a ∷ rest)
unfolding run
Waits-cons env w w₁ a rest e t = record {
  before = a ∷ t.before;
  after = t.after;
  url = t.url;
  subscriber = t.subscriber;
  drains = t.drains;
  met = t.met;
  msg = t.msg;
  splits = ap (◌∷◌ a) t.splits;
  reaches = rw e t.reaches;
  is_retained = t.is_retained;
  is_full = t.is_full;
}

-- An admissible run that waits does so at a subscription; one that ends keeps the invariant.
pub run-Inv :
    (env : Env) (w : World) (actions : List Action)
    → ((e : Event) → env.clone e ≡ e)
    → Inv w
    → AdmissibleRun env w actions
    → ((run env w actions ≡ blocked) × Waits env w actions)
      ⊎ ((w' : World) × (run env w actions ≡ done w') × Inv w')
unfolding run AdmissibleRun
run-Inv env w [] clones v h = inr (w, refl, v)
run-Inv env w (a ∷ rest) clones v (h, later) = elim (step_safe env w a clones v h) [
  | inl waits ↦ inl (rw waits, step-Waits env w a rest clones v h waits)
  | inr (w₁, e, v₁) ↦ elim (run-Inv env w₁ rest clones v₁ (later w₁ e)) [
    | inl (waits, at_last) ↦ inl (rw e waits, Waits-cons env w w₁ a rest e at_last)
    | inr (w', ends, v') ↦ inr (w', rw e ends, v')
  ]
]

-- The program's start: no connection, no receivers, every channel as it was made.
abbrev pub start : Chans Event → World
start chans = record { broker = new_broker; chans = chans; calls = []; tasks = [] }

pub start-Inv : (chans : Chans Event) → Inv (start chans)
unfolding lookup
start-Inv chans = record {
  registered_open = λ url c h. absurd (omega arith);
  registered_once = λ url c. omega arith;
  keys_unique = tt;
}

pub run_safe :
    (env : Env) (chans : Chans Event) (actions : List Action)
    → ((e : Event) → env.clone e ≡ e)
    → AdmissibleRun env (start chans) actions
    → ((run env (start chans) actions ≡ blocked) × Waits env (start chans) actions)
      ⊎ ((w : World) × (run env (start chans) actions ≡ done w) × Inv w)
run_safe env chans actions clones h = run-Inv env (start chans) actions clones (start-Inv chans) h
