-- ===== src/Broker/Contract/Subscriber.antt =====
-- internal/broker: what one subscriber is sent from its subscription on.
use events_service.Base.{
  ℕ, List, [], ◌∷◌, ◌++◌, String, Bool, false, Option, none, some, ◌≡◌, sym, ◌∙◌, arith, inl, inr,
  Option-cases, ◌==◌, nat_eq, string_eq, if◌then◌else◌,
}
use mathlib.Core.List.{append-nil}
use events_service.Broker.{Env, Event}
use events_service.Broker.Contract.{Board, Spread, Heard, ReachesAll, Change, Complete, list_of}
use events_service.Broker.Delivery.{dispatch_key}
use events_service.Broker.Dispatch.{mark_retained}
use events_service.Broker.System.{
  Action, subscribes, unsubscribes, closes, receives, connects, runs, publishes, reads,
}

-- An action of others: the subscriber does not subscribe, unsubscribe or close by it.
abbrev pub ByOthers : ℕ → Action → Type 0
ByOthers c (subscribes url d drains) = (d == c) ≡ false
ByOthers c (unsubscribes d) = (d == c) ≡ false
ByOthers c (closes d) = (d == c) ≡ false
ByOthers c (receives m ds) = Unit
ByOthers c (connects client) = Unit
ByOthers c (runs k joined) = Unit
ByOthers c (publishes evt) = Unit
ByOthers c (reads d) = Unit

-- The event of a message, if it decodes and is of the type.
abbrev pub event_for : String → Bool → Option Event → List Event
event_for url r none = []
event_for url r (some pb) = elim pb.event [
  | none ↦ []
  | some any ↦ if url == dispatch_key any then mark_retained r pb ∷ [] else []
]

abbrev pub event_in : Env → String → Action → List Event
event_in env url (receives m ds) = event_for url m.retained (env.unmarshal m.payload)
event_in env url (subscribes u d drains) = []
event_in env url (unsubscribes d) = []
event_in env url (closes d) = []
event_in env url (connects client) = []
event_in env url (runs k joined) = []
event_in env url (publishes evt) = []
event_in env url (reads d) = []

-- The events of a type in a sequence of actions, in their order.
abbrev pub events_of : Env → String → List Action → List Event
events_of env url [] = []
events_of env url (a ∷ rest) = event_in env url a ++ events_of env url rest

-- What a message may leave, by whether it decodes to an event with its event field.
Heard-interested :
    (r : Bool) (o : Option Event) (b b' : Board)
    → Heard r o b b'
    → (u : String) (d : ℕ) → b'.interested u d ≡ b.interested u d
Heard-interested r none b b' h u d = h.interested_same u d
Heard-interested r (some pb) b b' h u d = elim (Option-cases pb.event) [
  | inl missing ↦ absurd (rw missing at h)
  | inr (any, has) ↦
      let s : Spread (dispatch_key any) r (mark_retained r pb) b b' = rw has at h in
      s.interested_kept u d
]

Heard-silent :
    (r : Bool) (o : Option Event) (b b' : Board) (c : ℕ)
    → Heard r o b b'
    → ((u : String) → b.interested u c ≡ false)
    → b'.sent c ≡ b.sent c
Heard-silent r none b b' c h nothing = h.sent_same c
Heard-silent r (some pb) b b' c h nothing = elim (Option-cases pb.event) [
  | inl missing ↦ absurd (rw missing at h)
  | inr (any, has) ↦
      let s : Spread (dispatch_key any) r (mark_retained r pb) b b' = rw has at h in
      elim (s.sent_once c) [
        | inl same ↦ same
        | inr (wanted, _) ↦ absurd (ground (arith, nothing (dispatch_key any)))
      ]
]

reaches-sent :
    (url : String) (r : Bool) (o : Option Event) (b b' : Board) (c : ℕ)
    → Heard r o b b'
    → ReachesAll r o b b'
    → ((u : String) → b.interested u c ≡ (url == u))
    → b'.sent c ≡ b.sent c ++ event_for url r o
reaches-sent url r none b b' c h all only = h.sent_same c ∙ sym (append-nil (b.sent c))
reaches-sent url r (some pb) b b' c h all only = elim (Option-cases pb.event) [
  | inl missing ↦ absurd (rw missing at h)
  | inr (any, has) ↦
      let to_all : (d : ℕ)
          → b'.sent d
            ≡ b.sent d
              ++ (if b.interested (dispatch_key any) d then mark_retained r pb ∷ [] else []) =
        rw has at all in
      rw (has, ← only (dispatch_key any)) (to_all c)
]

-- The interest of a subscriber changes by its own actions only.
pub step-interested :
    (env : Env) (a : Action) (b b' : Board) (c : ℕ)
    → ByOthers c a
    → Change env a b b'
    → (u : String) → b'.interested u c ≡ b.interested u c
step-interested env (subscribes url d drains) b b' c other h u =
    ground (arith, h.interested_joined u c)
step-interested env (unsubscribes d) b b' c other h u = ground (arith, h.interested_left u c)
step-interested env (closes d) b b' c other h u = h.interested_same u c
step-interested env (receives m ds) b b' c other h u =
    Heard-interested m.retained (env.unmarshal m.payload) b b' h u c
step-interested env (connects client) b b' c other h u = h.interested_same u c
step-interested env (runs k joined) b b' c other h u = h.interested_same u c
step-interested env (publishes evt) b b' c other h u = h.interested_same u c
step-interested env (reads d) b b' c other h u = h.interested_same u c

joined-sent :
    (o : Option Event) (sent sent' : List Event) (d c : ℕ)
    → (d == c) ≡ false
    → sent' ≡ sent ++ (if d == c then list_of o else [])
    → sent' ≡ sent
joined-sent o sent sent' d c other h = (rw other at h) ∙ append-nil sent

-- Who is interested in nothing is sent nothing.
pub step-silent :
    (env : Env) (a : Action) (b b' : Board) (c : ℕ)
    → ByOthers c a
    → Change env a b b'
    → ((u : String) → b.interested u c ≡ false)
    → b'.sent c ≡ b.sent c
step-silent env (subscribes url d drains) b b' c other h nothing =
    joined-sent (b.retained url) (b.sent c) (b'.sent c) d c other (h.sent_retained c)
step-silent env (unsubscribes d) b b' c other h nothing = h.sent_kept c
step-silent env (closes d) b b' c other h nothing = h.sent_same c
step-silent env (receives m ds) b b' c other h nothing =
    Heard-silent m.retained (env.unmarshal m.payload) b b' c h nothing
step-silent env (connects client) b b' c other h nothing = h.sent_same c
step-silent env (runs k joined) b b' c other h nothing = h.sent_same c
step-silent env (publishes evt) b b' c other h nothing = h.sent_same c
step-silent env (reads d) b b' c other h nothing = h.sent_same c

-- Who is interested in one type is sent the events of that type.
pub step-sent :
    (env : Env) (url : String) (a : Action) (b b' : Board) (c : ℕ)
    → ByOthers c a
    → Change env a b b'
    → Complete env a b b'
    → ((u : String) → b.interested u c ≡ (url == u))
    → b'.sent c ≡ b.sent c ++ event_in env url a
step-sent env url (subscribes u d drains) b b' c other h all only =
    joined-sent (b.retained u) (b.sent c) (b'.sent c) d c other (h.sent_retained c)
    ∙ sym (append-nil (b.sent c))
step-sent env url (unsubscribes d) b b' c other h all only =
    h.sent_kept c ∙ sym (append-nil (b.sent c))
step-sent env url (closes d) b b' c other h all only = h.sent_same c ∙ sym (append-nil (b.sent c))
step-sent env url (receives m ds) b b' c other h all only =
    reaches-sent url m.retained (env.unmarshal m.payload) b b' c h all only
step-sent env url (connects client) b b' c other h all only =
    h.sent_same c ∙ sym (append-nil (b.sent c))
step-sent env url (runs k joined) b b' c other h all only =
    h.sent_same c ∙ sym (append-nil (b.sent c))
step-sent env url (publishes evt) b b' c other h all only =
    h.sent_same c ∙ sym (append-nil (b.sent c))
step-sent env url (reads d) b b' c other h all only = h.sent_same c ∙ sym (append-nil (b.sent c))
