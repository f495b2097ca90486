-- ===== src/Broker/Registration.antt =====
-- internal/broker/broker.go, Subscribe: what a subscription changes.
use events_service.Base.{
  insert, Option-cases, blocked, false, ◌⊎◌, inl, inr, refl, nat_eqb_iff, nat_eq, Bool, lookup, ℕ,
  [], ◌∷◌, ◌++◌, String, done, ◌≡◌, arith, lookup-insert, eq_iff, ◌==◌, string_eq, if◌then◌else◌,
}
use events_service.Chan.Laws.{send_open}
use events_service.Chan.{update, has_room}
use events_service.Base.{Bool-cases, some}
use events_service.Broker.{Event, subscribed, World, receivers_of, subscribe}

-- A successful subscription adds the channel at the end of the receivers under its own key, and
-- leaves the receivers under every other key alone.
pub receivers_of-subscribe :
    (w w' : World) (url key : String) (c : ℕ) (drains : Bool)
    → subscribe w url c drains ≡ done w'
    → receivers_of w'.broker key
      ≡ (if url == key then receivers_of w.broker url ++ c ∷ [] else receivers_of w.broker key)
unfolding subscribe
receivers_of-subscribe w w' url key c drains h = ground (
  arith,
  eq_iff url key,
  lookup-insert url key (receivers_of w.broker url ++ c ∷ []) w.broker.receivers,
)

pub receivers-subscribe :
    (w w' : World) (url : String) (c : ℕ) (drains : Bool)
    → subscribe w url c drains ≡ done w'
    → w'.broker.receivers ≡ insert url (receivers_of w.broker url ++ c ∷ []) w.broker.receivers
unfolding subscribe
receivers-subscribe w w' url c drains h = ground arith

-- A subscription of an open channel never panics: it ends with every channel as open as before,
-- or it waits for room for the retained message.
pub subscribe_open :
    (w : World) (url : String) (a : ℕ) (drains : Bool)
    → (w.chans a).closed ≡ false
    → (subscribe w url a drains ≡ blocked)
      ⊎ ((w' : World) × (subscribe w url a drains ≡ done w')
          × ((c : ℕ) → (w'.chans c).closed ≡ (w.chans c).closed))
unfolding subscribe
subscribe_open w url a drains o = elim (Option-cases (lookup url w.broker.retained_msgs)) [
  | inl none_kept ↦ inr (subscribed w url a w.chans, rw none_kept, λ c. refl)
  | inr (msg, kept) ↦ elim (send_open (w.chans a) msg drains o) [
    | inl waits ↦ inl (rw (kept, waits))
    | inr (ch, sent, k) ↦ inr (
      subscribed w url a (update w.chans a ch),
      rw (kept, sent),
      λ c. ground (arith, nat_eqb_iff a c),
    )
  ]
]

pub subscribe-closed :
    (w w' : World) (url : String) (a c : ℕ) (drains : Bool)
    → (w.chans a).closed ≡ false
    → subscribe w url a drains ≡ done w'
    → (w'.chans c).closed ≡ (w.chans c).closed
subscribe-closed w w' url a c drains o e = elim (subscribe_open w url a drains o) [
  | inl waits ↦ cc
  | inr (w'', e', same) ↦ ground (arith, same c)
]

-- Subscribe waits only for room for a retained message.
pub subscribe_blocked :
    (w : World) (url : String) (a : ℕ) (drains : Bool)
    → subscribe w url a drains ≡ blocked
    → (msg : Event) × (lookup url w.broker.retained_msgs ≡ some msg)
      × (has_room (w.chans a) ≡ false)
unfolding subscribe
subscribe_blocked w url a drains h = elim (Option-cases (lookup url w.broker.retained_msgs)) [
  | inl nothing ↦ absurd (ground arith)
  | inr (msg, kept) ↦ (msg, kept, full msg kept)
]
  where
    full :
        (msg : Event) → lookup url w.broker.retained_msgs ≡ some msg → has_room (w.chans a) ≡ false
    full msg kept = elim (Bool-cases (has_room (w.chans a))) [
      | inr no_room ↦ no_room
      | inl room ↦ absurd (ground arith)
    ]
