-- ===== src/Broker/System/Duplicate.antt =====
-- internal/broker: a channel that is registered twice under one type URL stays registered when
-- its subscriber leaves, and is closed then.
use events_service.Base.{
  ℕ, List, [], ◌∷◌, String, Bool, true, false, none, some, done, panic, send_on_closed_channel, ◌≡◌,
  refl, ◌∙◌, ap, arith, lookup, eq_refl, nat_eq, string_eq, nat_eqb_iff, ◌>>=◌,
}
use events_service.Chan.{send_or_timeout}
use events_service.Broker.{World, Env, Event, AnyMessage, receivers_of, subscribe, subscribed}
use events_service.Broker.Delivery.{dispatch_key}
use events_service.Broker.Dispatch.{Message, handle_message, dispatch, fan_out}
use events_service.Broker.Registration.{receivers_of-subscribe}
use events_service.Broker.Removal.{sweep_key, unsubscribe_all}
use events_service.Broker.Removal.Registered.{receivers_of-unsubscribe_all}
use events_service.Broker.System.{subscribes, unsubscribes, closes, receives, step, run}
use events_service.Broker.System.Safety.{closed_off, close_channel-open}

-- With nothing retained Subscribe sends nothing.
pub subscribe_plain :
    (w : World) (url : String) (c : ℕ) (drains : Bool)
    → lookup url w.broker.retained_msgs ≡ none
    → subscribe w url c drains ≡ done (subscribed w url c w.chans)
unfolding subscribe
subscribe_plain w url c drains h = rw h

sweep_key_twice : (c : ℕ) → (sweep_key c (c ∷ c ∷ [])).0 ≡ c ∷ []
unfolding sweep_key
sweep_key_twice c = ground arith

pub chans-closed_off : (w : World) (c : ℕ) → ((closed_off w c).chans c).closed ≡ true
chans-closed_off w c = rw ((nat_eqb_iff c c).1 refl)

pub handle_message_closed :
    (env : Env) (w : World) (m : Message) (ds : List Bool) (pb : Event) (any : AnyMessage) (c : ℕ)
    → env.unmarshal m.payload ≡ some pb
    → pb.event ≡ some any
    → receivers_of w.broker (dispatch_key any) ≡ c ∷ []
    → (w.chans c).closed ≡ true
    → handle_message env w m ds ≡ panic send_on_closed_channel
unfolding handle_message dispatch fan_out send_or_timeout
handle_message_closed env w m ds pb any c dec has only shut = ground arith

module _ (env : Env) (w : World) (url : String) (c : ℕ) (d₁ d₂ : Bool)
    (open_ : (w.chans c).closed ≡ false) (nobody : receivers_of w.broker url ≡ [])
    (nothing : lookup url w.broker.retained_msgs ≡ none) where
  abbrev once : World
  once = subscribed w url c w.chans

  abbrev twice : World
  twice = subscribed once url c w.chans

  receivers_of-twice : receivers_of twice.broker url ≡ c ∷ c ∷ []
  receivers_of-twice = ground (
    arith,
    receivers_of-subscribe w once url url c d₁ (subscribe_plain w url c d₁ nothing),
    receivers_of-subscribe once twice url url c d₂ (subscribe_plain once url c d₂ nothing),
    eq_refl url,
  )

  receivers_of-left : receivers_of (unsubscribe_all twice c).broker url ≡ c ∷ []
  receivers_of-left =
      receivers_of-unsubscribe_all twice c url
      ∙ ap (λ rs. (sweep_key c rs).0) receivers_of-twice
      ∙ sweep_key_twice c

  -- A client that asks twice for a type URL that nobody else has asked for, and then leaves
  -- (UnsubscribeAll, then close), brings the process down with the next event of that type: the
  -- handler sends on the closed channel. (The channel is open before, and nothing is retained.)
  pub subscribe_twice_panics :
      (m : Message) (ds : List Bool) (pb : Event) (any : AnyMessage)
      → env.unmarshal m.payload ≡ some pb
      → pb.event ≡ some any
      → dispatch_key any ≡ url
      → run env w (
          subscribes url c d₁
          ∷ subscribes url c d₂
          ∷ unsubscribes c
          ∷ closes c
          ∷ receives m ds
          ∷ [])
        ≡ panic send_on_closed_channel
  unfolding run step
  subscribe_twice_panics m ds pb any dec has key = rw (subscribe_plain w url c d₁ nothing) (
      rw (subscribe_plain once url c d₂ nothing) (
        rw (close_channel-open (unsubscribe_all twice c) c (unfold unsubscribe_all in open_)) (
          ap (λ r. r >>= λ w'. done w')
            (handle_message_closed env (closed_off (unsubscribe_all twice c) c) m ds pb any c dec
              has (rw key receivers_of-left) (chans-closed_off (unsubscribe_all twice c) c)))))
