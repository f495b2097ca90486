-- ===== src/Broker/Contract/Subscriptions.antt =====
-- internal/broker: what a subscriber is sent in a whole run.
use events_service.Base.{
  ℕ, ◌+◌, ◌≤◌, List, [], ◌∷◌, ◌++◌, All, String, Bool, true, false, done, ◌≡◌, refl, sym, ◌∙◌, ap,
  arith, ◌==◌, nat_eq, string_eq, nat_eqb_iff, length, lookup,
}
use mathlib.Core.List.{append_assoc, append-nil}
use events_service.Chan.{Chans, history}
use events_service.Broker.{World, Env, Event}
use events_service.Broker.Contract.{Board, Joined, Exactly, list_of}
use events_service.Broker.Contract.Lossless.{run-Exactly, total_cost}
use events_service.Broker.Contract.Subscriber.{
  ByOthers, event_in, events_of, step-interested, step-silent, step-sent,
}
use events_service.Broker.Contract.Views.{view}
use events_service.Broker.System.{Action, subscribes, run}
use events_service.Broker.System.Runs.{
  AdmissibleRun, AdmissibleRun-append, run-after, start, start-Inv,
}

Exactly-silent :
    (env : Env) (actions : List Action) (b b' : Board) (c : ℕ)
    → All (ByOthers c) actions
    → Exactly env actions b b'
    → ((u : String) → b.interested u c ≡ false)
    → ((u : String) → b'.interested u c ≡ false) × (b'.sent c ≡ b.sent c)
unfolding Exactly
Exactly-silent env [] b b' c others h nothing =
    (λ u. h.interested_same u c ∙ nothing u, h.sent_same c)
Exactly-silent env (a ∷ rest) b b' c (other, others) (b₁, (change, _), more) nothing =
    let still = λ (u : String). step-interested env a b b₁ c other change u ∙ nothing u in
    let (end, silent) = Exactly-silent env rest b₁ b' c others more still in
    (end, silent ∙ step-silent env a b b₁ c other change nothing)

Exactly-sent :
    (env : Env) (url : String) (actions : List Action) (b b' : Board) (c : ℕ)
    → All (ByOthers c) actions
    → Exactly env actions b b'
    → ((u : String) → b.interested u c ≡ (url == u))
    → b'.sent c ≡ b.sent c ++ events_of env url actions
unfolding Exactly
Exactly-sent env url [] b b' c others h only = h.sent_same c ∙ sym (append-nil (b.sent c))
Exactly-sent env url (a ∷ rest) b b' c (other, others) (b₁, (change, all), more) only =
    let still = λ (u : String). step-interested env a b b₁ c other change u ∙ only u in
    Exactly-sent env url rest b₁ b' c others more still
    ∙ ap (λ l. l ++ events_of env url rest) (step-sent env url a b b₁ c other change all only)
    ∙ append_assoc (b.sent c) (event_in env url a) (events_of env url rest)

-- The subscription itself, by somebody who was interested in nothing.
Joined-only :
    (url : String) (c : ℕ) (b b' : Board)
    → Joined url c b b'
    → ((u : String) → b.interested u c ≡ false)
    → ((u : String) → b'.interested u c ≡ (url == u))
      × (b'.sent c ≡ b.sent c ++ list_of (b.retained url))
Joined-only url c b b' h nothing =
    let self : (c == c) ≡ true = (nat_eqb_iff c c).1 refl in
    (
      (λ u. h.interested_joined u c ∙ rw (nothing u, self) (ground arith)),
      rw self at (h.sent_retained c),
    )

-- From the subscription on.
Exactly-subscriber :
    (env : Env) (url : String) (c : ℕ) (drains : Bool) (rest : List Action) (b b' : Board)
    → All (ByOthers c) rest
    → ((u : String) → b.interested u c ≡ false)
    → Exactly env (subscribes url c drains ∷ rest) b b'
    → b'.sent c ≡ b.sent c ++ (list_of (b.retained url) ++ events_of env url rest)
unfolding Exactly
Exactly-subscriber env url c drains rest b b' others nothing (b₁, (joined, _), more) =
    let (only, first) = Joined-only url c b b₁ joined nothing in
    Exactly-sent env url rest b₁ b' c others more only
    ∙ ap (λ l. l ++ events_of env url rest) first
    ∙ append_assoc (b.sent c) (list_of (b.retained url)) (events_of env url rest)

total_cost-append :
    (before after : List Action)
    → total_cost (before ++ after) ≡ total_cost before + total_cost after
total_cost-append [] after = omega arith
total_cost-append (a ∷ before) after = omega (arith, total_cost-append before after)

-- A subscriber gets everything that it asked for, and nothing else: from the start, in an admissible
-- run in which it subscribes to one type URL once and does not leave, and in which every channel has
-- room for one entry for each subscription and each message, the run ends, and the subscriber was
-- sent first the event that was retained for the URL when it came, if there was one, and then the
-- event of each later message of this type, exactly once and in the order of the messages, whatever
-- other subscribers, goroutines, reconnections and publications do in between.
-- (Admissible is as in run_safe; proto.Clone gives an equal event.)
pub subscriber-events_of :
    (env : Env) (chans : Chans Event) (before rest : List Action) (url : String) (c : ℕ)
    (drains : Bool)
    → ((e : Event) → env.clone e ≡ e)
    → All (ByOthers c) before
    → All (ByOthers c) rest
    → AdmissibleRun env (start chans) (before ++ subscribes url c drains ∷ rest)
    → ((d : ℕ)
        → length (chans d).buffer + total_cost (before ++ subscribes url c drains ∷ rest)
          ≤ (chans d).capacity)
    → (w₁ w : World) × (run env (start chans) before ≡ done w₁)
      × (run env (start chans) (before ++ subscribes url c drains ∷ rest) ≡ done w)
      × (history (w.chans c)
          ≡ history (chans c)
            ++ (list_of (lookup url w₁.broker.retained_msgs) ++ events_of env url rest))
unfolding lookup
subscriber-events_of env chans before rest url c drains clones others others' h room =
    let after = subscribes url c drains ∷ rest in
    let (h₁, h₂) = AdmissibleRun-append env before after (start chans) h in
    let split = total_cost-append before after in
    let (w₁, first, ex₁, v₁, room₁) =
      run-Exactly env before (total_cost after + 0) (start chans) clones (start-Inv chans) h₁
        (λ d. omega (arith, split, room d)) in
    let (w, last, ex₂, _, _) = run-Exactly env after 0 w₁ clones v₁ (h₂ w₁ first) room₁ in
    let (nothing, silent) =
      Exactly-silent env before (view (start chans)) (view w₁) c others ex₁ (λ u. refl) in
    (
      w₁,
      w,
      first,
      run-after env before after (start chans) w₁ w first last,
      Exactly-subscriber env url c drains rest (view w₁) (view w) others' nothing ex₂
          ∙ ap (λ l. l ++ (list_of (lookup url w₁.broker.retained_msgs) ++ events_of env url rest))
              silent,
    )
