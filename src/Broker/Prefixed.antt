-- ===== src/Broker/Prefixed.antt =====
-- internal/broker/broker.go: Subscribe files a channel under the type URL as it was given, while
-- handleMessage looks under the type URL without "type.googleapis.com/".
use Prim.Native.String.{◌++◌ as append_text}
use mathlib.Core.List.{append-nil}
use events_service.Base.{
  ℕ, List, String, Bool, some, done, ◌≡◌, refl, ap, ◌∙◌, inl, inr, arith, count, ◌==◌, string_eq,
  nat_eq, eq_iff, Bool-cases,
}
use events_service.Text.Laws.{trim_prefix-append}
use events_service.Chan.{history}
use events_service.Broker.{
  Env, Event, World, google_prefix, topic_root, receivers_of, make_topic, subscribe,
}
use events_service.Broker.Delivery.{handle_message_isolates}
use events_service.Broker.Dispatch.{Message, handle_message}
use events_service.Broker.Dispatch.Laws.{AllOpen}
use events_service.Broker.Registration.{receivers_of-subscribe}
use events_service.Broker.Topic.{make_topic-prefixed, prefixed-ne}

-- A subscription under the prefixed URL leaves the receivers under the plain one alone.
receivers_of-prefixed :
    (w w₁ : World) (u : String) (c : ℕ) (drains : Bool)
    → subscribe w (append_text google_prefix u) c drains ≡ done w₁
    → receivers_of w₁.broker u ≡ receivers_of w.broker u
receivers_of-prefixed w w₁ u c drains sub =
    let e = receivers_of-subscribe w w₁ (append_text google_prefix u) u c drains sub in
    elim (Bool-cases (append_text google_prefix u == u)) [
      | inl same ↦ absurd (prefixed-ne u ((eq_iff _ u).0 same))
      | inr other ↦ rw other at e
    ]

-- A channel that subscribes under a type URL with the prefix asks MQTT for the topic of the URL
-- without it, and yet gets nothing from a message with that very type URL, unless it is also
-- registered under the URL without the prefix. (The receivers under that URL are open, and
-- proto.Clone gives an equal event.)
pub prefixed_subscription_silent :
    (env : Env) (w w₁ : World) (u : String) (c : ℕ) (drains : Bool) (m : Message) (ds : List Bool)
    (r : Bool) (payload : List ℕ)
    → ((e : Event) → env.clone e ≡ e)
    → subscribe w (append_text google_prefix u) c drains ≡ done w₁
    → env.unmarshal m.payload
      ≡ some (record {
        event = some (record { type_url = append_text google_prefix u; value = payload });
        retained = r;
      })
    → AllOpen w₁.chans (receivers_of w₁.broker u)
    → count c (receivers_of w.broker u) ≡ 0
    → (make_topic (append_text google_prefix u) ≡ append_text topic_root u)
      × ((w₂ : World) × (handle_message env w₁ m ds ≡ done w₂)
          × (history (w₂.chans c) ≡ history (w₁.chans c)))
prefixed_subscription_silent env w w₁ u c drains m ds r payload clones sub dec o absent =
    let key = trim_prefix-append google_prefix u in
    let (w₂, e, grow, _, _) = handle_message_isolates env w₁ m ds _ _ dec refl clones (rw key o) in
    let (n, le, h) = grow c in
    let none_sent : n ≡ 0 =
      omega (arith, rw key at le, ap (count c) (receivers_of-prefixed w w₁ u c drains sub)) in
    (make_topic-prefixed u, (w₂, e, h ∙ rw none_sent (append-nil (history (w₁.chans c)))))
