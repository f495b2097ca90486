-- ===== src/Core/Events.antt =====
-- internal/automation/core.go, onEvent, with the broker of internal/broker/broker.go.
use events_service.Base.{
  ℕ, List, [], ◌∷◌, ◌++◌, false, String, Option, none, some, done, ◌≡◌, refl, ap, lookup, eq_refl,
  nat_eq, string_eq, nat_eqb_iff, Option-cases, inl, inr, ◌∙◌,
}
use events_service.Chan.{Channel, make, update, send}
use events_service.Broker.{World, Event, receivers_of, subscribe, subscribed}
use events_service.Broker.Registration.{receivers_of-subscribe}
use events_service.Core.{on_event}

-- The retained message, if there is one.
abbrev pub retained_of : Option Event → List Event
retained_of none = []
retained_of (some msg) = msg ∷ []

abbrev fresh : World → ℕ → World
fresh w ch = record w { chans = update w.chans ch (make 100) }

-- The new channel, once Subscribe has sent the retained message.
abbrev holding : Option Event → Channel Event
holding msg = record { buffer = retained_of msg; capacity = 100; closed = false; received = [] }

abbrev listening : World → String → ℕ → Option Event → World
listening w event ch msg = subscribed (fresh w ch) event ch (elim msg [
  | none ↦ (fresh w ch).chans
  | some m ↦ update (fresh w ch).chans ch (holding (some m))
])

on_event-eq-done :
    (w : World) (event : String) (ch : ℕ)
    → on_event w event ch ≡ done (listening w event ch (lookup event w.broker.retained_msgs))
unfolding on_event subscribe send
on_event-eq-done w event ch = elim (Option-cases (lookup event w.broker.retained_msgs)) [
  | inl nothing ↦ rw nothing
  | inr (msg, e) ↦ rw (e, (nat_eqb_iff ch ch).1 refl)
]

chans-listening :
    (w : World) (event : String) (ch : ℕ) (msg : Option Event)
    → (listening w event ch msg).chans ch ≡ holding msg
chans-listening w event ch none = rw ((nat_eqb_iff ch ch).1 refl)
chans-listening w event ch (some m) = rw ((nat_eqb_iff ch ch).1 refl)

-- on() never panics and never waits, though nobody reads from the new channel yet: it ends with the
-- channel as the last receiver of the type URL, open, and holding the retained message of that URL,
-- if there is one, and nothing else.
pub on_event-subscribes :
    (w : World) (event : String) (ch : ℕ)
    → (w' : World) × (on_event w event ch ≡ done w')
      × (receivers_of w'.broker event ≡ receivers_of w.broker event ++ ch ∷ [])
      × ((w'.chans ch).buffer ≡ retained_of (lookup event w.broker.retained_msgs))
      × ((w'.chans ch).closed ≡ false)
on_event-subscribes w event ch =
    let msg = lookup event w.broker.retained_msgs in
    let w' = listening w event ch msg in
    let ends = on_event-eq-done w event ch in
    (
      w',
      ends,
      receivers_of-subscribe (fresh w ch) w' event event ch false (unfold on_event in ends)
          ∙ rw (eq_refl event),
      ap (λ (c : Channel Event). c.buffer) (chans-listening w event ch msg),
      ap (λ (c : Channel Event). c.closed) (chans-listening w event ch msg),
    )
