-- ===== src/Examples/Leaving.antt =====
-- Departures, reconnections and the order of goroutines at concrete inputs.
use events_service.Base.{
  ◌≤◌, [], ◌∷◌, true, false, none, some, done, panic, send_on_closed_channel, ◌≡◌, refl, ◌↔◌, count,
  without, nat_eq, lookup, string_eq,
}
use events_service.Text.{trim_prefix}
use events_service.Broker.{World, make_topic, receivers_of, subscribing, unsubscribing}
use events_service.Broker.Removal.{unsubscribe_all}
use events_service.Broker.Removal.Registered.{unsubscribe_all-without, unsubscribe_all-cleanup}
use events_service.Broker.System.{run, run_task, subscribes, unsubscribes, closes, receives}
use events_service.Broker.System.Duplicate.{subscribe_twice_panics}
use events_service.Broker.System.Late.{subscribe_late_panics}
use events_service.Broker.System.Reconnect.{is_subscribed}
use events_service.Broker.System.Topics.{goroutine_order}
use events_service.Examples.Fixtures.{order, order_any, order_event, env, one, two, nobody, live}

unsubscribe_all-without_example :
    (receivers_of (unsubscribe_all two 7).broker order ≡ without 7 (receivers_of two.broker order))
    ↔ (count 7 (receivers_of two.broker order) ≤ 1)
unsubscribe_all-without_example = unsubscribe_all-without two 7 order

unsubscribe_all-cleanup_example :
    (lookup order (unsubscribe_all one 7).broker.topics ≡ none)
    × (lookup order (unsubscribe_all one 7).broker.retained_msgs ≡ none)
unfolding lookup
unsubscribe_all-cleanup_example = unsubscribe_all-cleanup one 7 order (refl, tt)

subscribe_twice_panics_example :
    run env nobody (
      subscribes order 7 true
      ∷ subscribes order 7 true
      ∷ unsubscribes 7
      ∷ closes 7
      ∷ receives live []
      ∷ [])
    ≡ panic send_on_closed_channel
unfolding lookup trim_prefix
subscribe_twice_panics_example =
    subscribe_twice_panics env nobody order 7 true true refl refl refl live [] order_event order_any
      refl refl refl

goroutine_order_example :
    ((w₁ : World) × (w₂ : World) × (run_task env one (subscribing order) ≡ done w₁)
      × (run_task env w₁ (unsubscribing (order ∷ [])) ≡ done w₂)
      × (lookup order w₂.broker.topics ≡ some tt)
      × (is_subscribed 0 (make_topic order) w₂.calls ≡ false))
    × ((w₁ : World) × (w₂ : World) × (run_task env one (unsubscribing (order ∷ [])) ≡ done w₁)
        × (run_task env w₁ (subscribing order) ≡ done w₂)
        × (lookup order w₂.broker.topics ≡ some tt)
        × (is_subscribed 0 (make_topic order) w₂.calls ≡ true))
goroutine_order_example = goroutine_order env 0 order (λ es call. refl) one (order ∷ []) refl refl

subscribe_late_panics_example :
    (run env nobody (unsubscribes 7 ∷ closes 7 ∷ subscribes order 7 true ∷ receives live [] ∷ [])
      ≡ panic send_on_closed_channel)
    × (run env nobody (unsubscribes 7 ∷ subscribes order 7 true ∷ closes 7 ∷ receives live [] ∷ [])
        ≡ panic send_on_closed_channel)
unfolding lookup trim_prefix
subscribe_late_panics_example =
    subscribe_late_panics nobody order 7 true refl refl refl tt env live [] order_event order_any
      refl refl refl
