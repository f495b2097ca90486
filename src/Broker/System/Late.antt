-- ===== src/Broker/System/Late.antt =====
-- internal/broker/subscriber.go: the goroutine that ends a subscriber and the one that receives its
-- requests are not ordered, so a request may be handled between UnsubscribeAll and close, or later.
use events_service.Base.{
  ℕ, List, [], ◌∷◌, String, Bool, false, none, some, done, panic, send_on_closed_channel, ◌≡◌, refl,
  ◌∙◌, ap, arith, lookup, eq_refl, nat_eq, string_eq, ◌>>=◌, Unique,
}
use events_service.Broker.{World, Env, Event, AnyMessage, receivers_of, subscribed}
use events_service.Broker.Delivery.{dispatch_key}
use events_service.Broker.Dispatch.{Message}
use events_service.Broker.Registration.{receivers_of-subscribe}
use events_service.Broker.Removal.{sweep_key, unsubscribe_all}
use events_service.Broker.Removal.Registered.{receivers_of-unsubscribe_all, unsubscribe_all-cleanup}
use events_service.Broker.System.{subscribes, unsubscribes, closes, receives, step, run}
use events_service.Broker.System.Safety.{closed_off, close_channel-open}
use events_service.Broker.System.Duplicate.{
  subscribe_plain, chans-closed_off, handle_message_closed,
}

sweep_key_nobody : (c : ℕ) → (sweep_key c []).0 ≡ []
unfolding sweep_key
sweep_key_nobody c = ground arith

module _ (w : World) (url : String) (c : ℕ) (drains : Bool) (open_ : (w.chans c).closed ≡ false)
    (nobody : receivers_of w.broker url ≡ []) (nothing : lookup url w.broker.retained_msgs ≡ none)
    (unique : Unique w.broker.receivers) where
  abbrev gone : World
  gone = unsubscribe_all w c

  gone-open : (gone.chans c).closed ≡ false
  unfolding unsubscribe_all
  gone-open = open_

  receivers_of-gone : receivers_of gone.broker url ≡ []
  receivers_of-gone =
      receivers_of-unsubscribe_all w c url
      ∙ ap (λ rs. (sweep_key c rs).0) nobody
      ∙ sweep_key_nobody c

  retained-gone : lookup url gone.broker.retained_msgs ≡ none
  retained-gone = ground (arith, (unsubscribe_all-cleanup w c url unique).1)

  -- Whether the channel is closed before or after, a subscription that comes behind UnsubscribeAll
  -- registers it.
  receivers_of-late :
      (v : World)
      → v.broker ≡ gone.broker
      → receivers_of (subscribed v url c v.chans).broker url ≡ c ∷ []
  receivers_of-late v same = ground (
    arith,
    receivers_of-subscribe v (subscribed v url c v.chans) url url c drains
        (subscribe_plain v url c drains (rw same retained-gone)),
    receivers_of-gone,
    eq_refl url,
  )

  -- A subscription that is handled after UnsubscribeAll of its subscriber, before or after its channel
  -- is closed, to a type URL that nobody else has asked for, brings the process down with the next
  -- event of that type: the channel is registered and closed. (The channel is open at first, the map
  -- of receivers has one entry for each key, and no message is retained.)
  pub subscribe_late_panics :
      (env : Env) (m : Message) (ds : List Bool) (pb : Event) (any : AnyMessage)
      → env.unmarshal m.payload ≡ some pb
      → pb.event ≡ some any
      → dispatch_key any ≡ url
      → (run env w (unsubscribes c ∷ closes c ∷ subscribes url c drains ∷ receives m ds ∷ [])
          ≡ panic send_on_closed_channel)
        × (run env w (unsubscribes c ∷ subscribes url c drains ∷ closes c ∷ receives m ds ∷ [])
            ≡ panic send_on_closed_channel)
  unfolding run step
  subscribe_late_panics env m ds pb any dec has key =
      let off = closed_off gone c in
      let joined = subscribed gone url c gone.chans in
      (
        rw (close_channel-open gone c gone-open) (
            rw (subscribe_plain off url c drains retained-gone) (
              ap (λ r. r >>= λ w'. done w')
                (handle_message_closed env (subscribed off url c off.chans) m ds pb any c dec has
                  (rw key (receivers_of-late off refl)) (chans-closed_off gone c)))),
        rw (subscribe_plain gone url c drains retained-gone) (
            rw (close_channel-open joined c gone-open) (
              ap (λ r. r >>= λ w'. done w')
                (handle_message_closed env (closed_off joined c) m ds pb any c dec has
                  (rw key (receivers_of-late gone refl)) (chans-closed_off joined c)))),
      )
