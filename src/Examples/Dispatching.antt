-- ===== src/Examples/Dispatching.antt =====
-- Subscriptions, messages and publications at concrete inputs.
use Prim.Native.String.{◌++◌ as append_text}
use events_service.Base.{
  ℕ, ◌≤◌, [], ◌∷◌, ◌++◌, true, false, String, done, ◌≡◌, refl, arith, count, nat_eq, replicate,
  lookup, string_eq,
}
use events_service.Text.{trim_prefix}
use events_service.Chan.{history}
use events_service.Broker.{
  World, google_prefix, topic_root, make_topic, receivers_of, subscribe, subscribed, publish_call,
}
use events_service.Broker.Dispatch.{handle_message, mark_retained}
use events_service.Broker.Dispatch.Laws.{AllOpen, AllRoom}
use events_service.Broker.Delivery.{handle_message_delivers, handle_message_isolates}
use events_service.Broker.Prefixed.{prefixed_subscription_silent}
use events_service.Broker.System.{publish}
use events_service.Broker.System.Publishing.{publish-handle_message}
use events_service.Examples.Fixtures.{
  order, order_any, order_event, env, env_for, chans, two, nobody, live, kept,
}

receivers_of_two : receivers_of two.broker order ≡ 7 ∷ 8 ∷ []
unfolding lookup
receivers_of_two = refl

two-AllOpen : (key : String) → AllOpen two.chans (receivers_of two.broker key)
two-AllOpen key c h = refl

two-AllRoom : AllRoom two.chans (receivers_of two.broker order)
two-AllRoom c h = rw receivers_of_two (ground arith)

handle_message_delivers_example :
    (w' : World) × (handle_message env two live [] ≡ done w')
    × ((c : ℕ)
        → history (w'.chans c)
          ≡ [] ++ replicate (count c (receivers_of two.broker order)) order_event)
    × (w'.broker.receivers ≡ two.broker.receivers)
    × (lookup order w'.broker.retained_msgs ≡ lookup order two.broker.retained_msgs)
unfolding trim_prefix
handle_message_delivers_example =
    handle_message_delivers env two live [] order_event order_any refl refl (λ e. refl)
      (two-AllOpen order) two-AllRoom

handle_message_isolates_example :
    (w' : World) × (handle_message env two kept [] ≡ done w')
    × ((c : ℕ)
        → (n : ℕ) × (n ≤ count c (receivers_of two.broker order))
          × (history (w'.chans c) ≡ [] ++ replicate n (mark_retained true order_event)))
    × ((c : ℕ) → (w'.chans c).closed ≡ false)
    × (w'.broker.receivers ≡ two.broker.receivers)
unfolding trim_prefix
handle_message_isolates_example =
    handle_message_isolates env two kept [] order_event order_any refl refl (λ e. refl)
      (two-AllOpen order)

abbrev prefixed_url : String
prefixed_url = append_text google_prefix order

prefixed_subscription_silent_example :
    (make_topic prefixed_url ≡ append_text topic_root order)
    × ((w : World) × (handle_message
            (env_for prefixed_url)
            (subscribed nobody prefixed_url 7 chans)
            live
            []
          ≡ done w)
        × (history (w.chans 7) ≡ []))
unfolding subscribe lookup
prefixed_subscription_silent_example =
    prefixed_subscription_silent (env_for prefixed_url) nobody
      (subscribed nobody prefixed_url 7 chans) order 7 true live [] false (5 ∷ 6 ∷ []) (λ e. refl)
      refl refl (λ c h. refl) refl

abbrev announced : World
announced = record two {
  calls =
      record {
        client = 0;
        call = publish_call (make_topic order) false (5 ∷ 6 ∷ []);
        accepted = true;
      }
      ∷ [];
}

publish-handle_message_example :
    ((client : ℕ) × (announced.calls
        ≡ []
          ++ record {
            client = client;
            call = publish_call (make_topic order) false (5 ∷ 6 ∷ []);
            accepted = true;
          }
            ∷ []))
    × ((w : World) × (handle_message env announced live [] ≡ done w)
        × ((c : ℕ)
            → history (w.chans c)
              ≡ [] ++ replicate (count c (receivers_of two.broker order)) order_event))
unfolding publish trim_prefix
publish-handle_message_example =
    publish-handle_message env two announced order_event order_any (5 ∷ 6 ∷ []) [] (λ e. refl) refl
      refl refl refl (two-AllOpen order) two-AllRoom
