-- ===== src/Examples/Running.antt =====
-- Whole runs at concrete inputs.
use events_service.Chan.{history}
use events_service.Broker.{Event}
use events_service.Broker.System.Bounds.{run-bounds}
use events_service.Broker.{make_topic}
use events_service.Broker.Contract.{Changes, Exactly, quiet}
use events_service.Broker.Contract.{list_of}
use events_service.Broker.Contract.Subscriber.{events_of}
use events_service.Broker.Contract.Subscriptions.{subscriber-events_of}
use events_service.Broker.Contract.Lossless.{run-lossless}
use events_service.Broker.Contract.Steps.{run-refines}
use events_service.Broker.Contract.Views.{view}
use events_service.Broker.System.Reconnect.{is_subscribed}
use events_service.Broker.System.Idle.{run-is_subscribed}
use events_service.Base.{
  some, length, ◌≤◌, ◌++◌, false, arith, List, [], ◌∷◌, true, done, blocked, ◌≡◌, refl, ◌⊎◌, nat_eq,
  lookup, String, count, Bool-cases, ◌==◌, string_eq, inl, inr, ℕ,
}
use events_service.Broker.{World, handle_on_connect, subscribed}
use events_service.Text.{option_or}
use events_service.Broker.System.{
  Action, step, run, subscribes, unsubscribes, closes, receives, connects, runs, publishes, reads,
}
use events_service.Broker.System.Runs.{
  start, AdmissibleRun, AdmissibleRun-cons, AdmissibleRun-nil, Waits,
}
use events_service.Examples.Fixtures.{order, order_event, env, chans, live, kept}

-- A client subscribes, gets an event, and leaves.
abbrev visit : List Action
visit =
    connects 0
    ∷ subscribes order 7 true
    ∷ runs 0 []
    ∷ receives live []
    ∷ reads 7
    ∷ unsubscribes 7
    ∷ closes 7
    ∷ publishes order_event
    ∷ []

visit_ends : (w : World) × (run env (start chans) visit ≡ done w)
unfolding run
visit_ends = (_, refl)

abbrev connected : World
connected = handle_on_connect env (start chans) 0

unregistered : (url : String) → count {A = ℕ} 7 (option_or (lookup url ((order, []) ∷ [])) []) ≡ 0
unfolding lookup
unregistered url = elim (Bool-cases (order == url)) [
  | inl same ↦ rw same refl
  | inr other ↦ rw other refl
]

visit-AdmissibleRun : AdmissibleRun env (start chans) visit
unfolding step lookup
visit-AdmissibleRun = AdmissibleRun-cons env (start chans) connected (connects 0) _ tt refl (
    AdmissibleRun-cons env connected _ (subscribes order 7 true) _ (refl, refl) refl
      (AdmissibleRun-cons env (subscribed connected order 7 connected.chans) _ (runs 0 []) _
        (λ e. cc) refl
        (AdmissibleRun-cons env _ _ (receives live []) _ (λ pb dec e. cc) refl
          (AdmissibleRun-cons env _ _ (reads 7) _ tt refl (
            AdmissibleRun-cons env _ _ (unsubscribes 7) _ tt refl (
              AdmissibleRun-cons env _ _ (closes 7) _ (refl, unregistered) refl
                (AdmissibleRun-cons env _ _ (publishes order_event) _ (λ e. cc) refl
                  (AdmissibleRun-nil env _))))))))

run-refines_example :
    ((run env (start chans) visit ≡ blocked) × Waits env (start chans) visit)
    ⊎ ((w : World) × (run env (start chans) visit ≡ done w)
        × Changes env visit (quiet (λ c. [])) (view w))
run-refines_example = run-refines env chans visit (λ e. refl) visit-AdmissibleRun

run-lossless_example :
    (w : World) × (run env (start chans) visit ≡ done w)
    × Exactly env visit (quiet (λ c. [])) (view w)
run-lossless_example =
    run-lossless env chans visit (λ e. refl) visit-AdmissibleRun (λ c. omega arith)

-- A client that subscribes once and stays.
abbrev stay : List Action
stay = runs 0 [] ∷ receives live [] ∷ reads 7 ∷ receives kept [] ∷ []

stay-AdmissibleRun : AdmissibleRun env (start chans) (connects 0 ∷ subscribes order 7 true ∷ stay)
unfolding step lookup
stay-AdmissibleRun = AdmissibleRun-cons env (start chans) connected (connects 0) _ tt refl (
    AdmissibleRun-cons env connected _ (subscribes order 7 true) _ (refl, refl) refl
      (AdmissibleRun-cons env (subscribed connected order 7 connected.chans) _ (runs 0 []) _
        (λ e. cc) refl
        (AdmissibleRun-cons env _ _ (receives live []) _ (λ pb dec e. cc) refl
          (AdmissibleRun-cons env _ _ (reads 7) _ tt refl (
            AdmissibleRun-cons env _ _ (receives kept []) _ (λ pb dec e. cc) refl
              (AdmissibleRun-nil env _))))))

subscriber-events_of_example :
    (w₁ w : World) × (run env (start chans) (connects 0 ∷ []) ≡ done w₁)
    × (run env (start chans) (connects 0 ∷ subscribes order 7 true ∷ stay) ≡ done w)
    × (history (w.chans 7)
        ≡ [] ++ (list_of (lookup order w₁.broker.retained_msgs) ++ events_of env order stay))
subscriber-events_of_example =
    subscriber-events_of env chans (connects 0 ∷ []) stay order 7 true (λ e. refl) (tt, tt)
      (tt, (tt, (tt, (tt, tt)))) stay-AdmissibleRun (λ d. omega arith)

run-bounds_example :
    (length (visit_ends.0.chans 7).buffer ≤ 4)
    × ((visit_ends.0.chans 7).capacity ≡ 4)
    × ((false ≡ false) ⊎ ((visit_ends.0.chans 7).closed ≡ true))
    × ((more : List Event) × (history (visit_ends.0.chans 7) ≡ [] ++ more))
    × ((more : List Event) × ((visit_ends.0.chans 7).received ≡ [] ++ more))
run-bounds_example = run-bounds env (start chans) visit_ends.0 visit 7 (omega arith) visit_ends.1

-- A client subscribes before another connection, and stays.
stay_ends :
    (w : World) × (run env
        (start chans)
        (connects 0 ∷ subscribes order 7 true ∷ connects 1 ∷ runs 0 [] ∷ receives live [] ∷ [])
      ≡ done w)
    × (w.tasks ≡ [])
    × (w.broker.conn ≡ some 1)
unfolding run
stay_ends = (_, refl, refl, refl)

run-is_subscribed_example : is_subscribed 1 (make_topic order) stay_ends.0.calls ≡ true
run-is_subscribed_example =
    run-is_subscribed env chans (connects 0 ∷ []) (connects 1 ∷ runs 0 [] ∷ receives live [] ∷ [])
      order 7 true stay_ends.0 1 (λ es cl call. refl) (tt, tt) (tt, (tt, (tt, tt))) stay_ends.1
      stay_ends.2 stay_ends.3
