-- ===== src/Broker/System/Safety.antt =====
-- internal/broker: no handler panics as long as a channel is registered at most once under a type
-- URL and is not registered after its subscriber has left.
use events_service.Base.{
  ℕ, ◌≤◌, List, [], ◌∷◌, String, Bool, false, none, some, done, ◌≡◌, refl, ◌∙◌, ap, ◌≢◌, arith,
  count, without, ◌==◌, nat_eq, string_eq, nat_eqb_iff, if◌then◌else◌, Unique, insert-Unique,
  count-append, Bool-cases, inl, inr,
}
use events_service.Chan.{close, shut, update}
use events_service.Chan.Laws.{closed-hand_off}
use events_service.Broker.{World, Env, Event, receivers_of, subscribe}
use events_service.Broker.Registration.{
  receivers-subscribe, subscribe-closed, receivers_of-subscribe,
}
use events_service.Broker.Removal.{unsubscribe_all}
use events_service.Broker.Removal.Laws.{sweep_key-without}
use events_service.Broker.Removal.Registered.{receivers_of-unsubscribe_all, sweep_all-Unique}
use events_service.Broker.System.{
  Action, subscribes, unsubscribes, closes, receives, connects, runs, publishes, reads,
  close_channel, read,
}

pub record Inv (w : World) : Type 0 where
  pub registered_open :
      (url : String) (c : ℕ) → 1 ≤ count c (receivers_of w.broker url) → (w.chans c).closed ≡ false
  pub registered_once : (url : String) (c : ℕ) → count c (receivers_of w.broker url) ≤ 1
  pub keys_unique : Unique w.broker.receivers

-- What the environment has to keep to: a subscription is for an open channel that is not yet
-- registered under that URL; a channel is closed once, and while it is not registered, so that no
-- subscription for it was handled between UnsubscribeAll and close; a payload that decodes, and a published event, have their `event`
-- field; and goroutines run once the broker is connected.
abbrev pub Admissible : Env → World → Action → Type 0
Admissible env w (subscribes url c drains) =
    ((w.chans c).closed ≡ false) × (count c (receivers_of w.broker url) ≡ 0)
Admissible env w (unsubscribes c) = Unit
Admissible env w (closes c) =
    ((w.chans c).closed ≡ false) × ((url : String) → count c (receivers_of w.broker url) ≡ 0)
Admissible env w (receives m ds) =
    (pb : Event) → env.unmarshal m.payload ≡ some pb → pb.event ≢ none
Admissible env w (connects client) = Unit
Admissible env w (runs k joined) = w.broker.conn ≢ none
Admissible env w (publishes evt) = evt.event ≢ none
Admissible env w (reads c) = Unit

-- A step that leaves the registrations and the closed flags alone keeps the invariant.
pub Inv-same :
    (w w' : World)
    → w'.broker.receivers ≡ w.broker.receivers
    → ((c : ℕ) → (w'.chans c).closed ≡ (w.chans c).closed)
    → Inv w
    → Inv w'
Inv-same w w' r o v = record {
  registered_open = λ url c h. o c ∙ v.registered_open url c (ground arith);
  registered_once = λ url c. rw r (v.registered_once url c);
  keys_unique = rw r v.keys_unique;
}

count-without :
    (a c : ℕ) (xs : List ℕ) → count c (without a xs) ≡ (if a == c then 0 else count c xs)
count-without a c [] = ground arith
count-without a c (x ∷ xs) = ground (arith, count-without a c xs)

count-unsubscribe_all :
    (w : World) (a c : ℕ) (url : String)
    → Inv w
    → count c (receivers_of (unsubscribe_all w a).broker url)
      ≡ (if a == c then 0 else count c (receivers_of w.broker url))
count-unsubscribe_all w a c url v =
    ap (count c) (
      receivers_of-unsubscribe_all w a url
      ∙ (sweep_key-without a (receivers_of w.broker url)).1 (v.registered_once url a))
    ∙ count-without a c (receivers_of w.broker url)

pub unsubscribe_all-Inv : (w : World) (a : ℕ) → Inv w → Inv (unsubscribe_all w a)
unsubscribe_all-Inv w a v = record {
  registered_open = λ url c h.
      unfold unsubscribe_all in
      v.registered_open url c (ground (arith, count-unsubscribe_all w a c url v));
  registered_once =
      λ url c. ground (arith, count-unsubscribe_all w a c url v, v.registered_once url c);
  keys_unique = unfold unsubscribe_all in sweep_all-Unique a w.broker.receivers v.keys_unique;
}

-- What closing a channel leaves.
abbrev pub closed_off : World → ℕ → World
closed_off w c = record w { chans = update w.chans c (shut (w.chans c)) }

pub close_channel-open :
    (w : World) (c : ℕ) → (w.chans c).closed ≡ false → close_channel w c ≡ done (closed_off w c)
unfolding close_channel close
close_channel-open w c open_ = rw open_ refl

pub close_channel-done : (w w' : World) (c : ℕ) → close_channel w c ≡ done w' → closed_off w c ≡ w'
unfolding close_channel close
close_channel-done w w' c h = elim (Bool-cases (w.chans c).closed) [
  | inl twice ↦ absurd (ground arith)
  | inr open_ ↦ let run = close_channel-open w c open_ in cc (run, h)
]

pub closed_off-Inv :
    (w : World) (a : ℕ)
    → ((url : String) → count a (receivers_of w.broker url) ≡ 0)
    → Inv w
    → Inv (closed_off w a)
closed_off-Inv w a gone v = record {
  registered_open = λ url c h. ground (arith, gone url, v.registered_open url c, nat_eqb_iff a c);
  registered_once = v.registered_once;
  keys_unique = v.keys_unique;
}

pub read-Inv : (w : World) (a : ℕ) → Inv w → Inv (read w a)
unfolding read
read-Inv w a v =
    Inv-same w _ refl
      (λ c. ground (arith, closed-hand_off (w.chans a).buffer (w.chans a), nat_eqb_iff a c)) v

-- Subscribe keeps the invariant when the channel is open and new under the URL.
pub subscribe-Inv :
    (w w' : World) (url : String) (a : ℕ) (drains : Bool)
    → (w.chans a).closed ≡ false
    → count a (receivers_of w.broker url) ≡ 0
    → Inv w
    → subscribe w url a drains ≡ done w'
    → Inv w'
subscribe-Inv w w' url a drains o z v e = record {
  registered_open = λ key c h. ground (
    arith,
    subscribe-closed w w' url a c drains o e,
    receivers_of-subscribe w w' url key a drains e,
    count-append c (receivers_of w.broker url) (a ∷ []),
    v.registered_open url c,
    v.registered_open key c,
    nat_eqb_iff a c,
  );
  registered_once = λ key c. ground (
    arith,
    receivers_of-subscribe w w' url key a drains e,
    count-append c (receivers_of w.broker url) (a ∷ []),
    v.registered_once url c,
    v.registered_once key c,
    nat_eqb_iff a c,
  );
  keys_unique = rw (receivers-subscribe w w' url a drains e) (insert-Unique url _ _ v.keys_unique);
}
