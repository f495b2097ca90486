-- ===== src/Broker/Contract/Room.antt =====
-- internal/broker: how much the buffers of the channels fill up with each step.
use events_service.Base.{
  ℕ, ◌+◌, ◌≤◌, List, [], ◌∷◌, Bool, String, Option, none, some, done, >>=-eq-done, ◌≡◌, ◌≢◌, refl,
  arith, inl, inr, Bool-cases, Option-cases, length, count, nat_eq, nat_eqb_iff, lookup, ◌==◌,
}
use events_service.Chan.{Channel, Chans, update, send, send_or_timeout, hand_off, shut}
use events_service.Chan.Filling.{Fills, send_or_timeout-Fills, send-Fills, taken-Fills}
use events_service.Broker.{World, Env, Event, subscribe, send_retained, subscribed, receivers_of}
use events_service.Broker.Dispatch.{
  Message, handle_message, fan_out, next_drain, later_drains, mark_retained, store_retained,
}
use events_service.Broker.{handle_on_connect}
use events_service.Broker.Delivery.{dispatch_key, handle_message_lem}
use events_service.Broker.Dispatch.Laws.{fan_out_open}
use events_service.Broker.Removal.{unsubscribe_all}
use events_service.Broker.System.{
  Action, subscribes, unsubscribes, closes, receives, connects, runs, publishes, reads, step, read,
  publish,
}
use events_service.Broker.System.Bounds.{done-injective, run_picked-chans, publish-chans}
use events_service.Broker.System.Safety.{Inv, Admissible, close_channel-done}
use events_service.Broker.System.Steps.{resubscribe_same}

-- Every channel has room for n more entries.
abbrev pub Room : ℕ → Chans Event → Type 0
Room n cs = (c : ℕ) → length (cs c).buffer + n ≤ (cs c).capacity

-- A handler sends to each channel as often as it is registered.
pub fan_out-Fills :
    (env : Env) (pb : Event) (rs : List ℕ) (ds : List Bool) (cs cs' : Chans Event)
    → fan_out env pb rs ds cs ≡ done cs'
    → (c : ℕ) → Fills (count c rs) (cs c) (cs' c)
unfolding fan_out
fan_out-Fills env pb [] ds cs cs' h c =
    let same : cs ≡ cs' = cc h in
    rw (← same) (record { filled = omega arith; capacity_same = refl })
fan_out-Fills env pb (r ∷ rs) ds cs cs' h c =
    let (ch, sent, rest) =
      >>=-eq-done (send_or_timeout (cs r) (env.clone pb) (next_drain ds)) _ h in
    let more = fan_out-Fills env pb rs (later_drains ds) (update cs r ch) cs' rest c in
    let one = send_or_timeout-Fills (cs r) ch (env.clone pb) (next_drain ds) sent in
    elim (Bool-cases (r == c)) [
      | inl hit ↦ ground (arith, nat_eqb_iff r c)
      | inr miss ↦ ground (arith, nat_eqb_iff r c)
    ]

abbrev pub AllFill : ℕ → World → World → Type 0
AllFill n w w' = (c : ℕ) → Fills n (w.chans c) (w'.chans c)

Fills-refl : {E : Type 0} (n : ℕ) (a : Channel E) → Fills n a a
Fills-refl n a = record { filled = omega arith; capacity_same = refl }

-- Steps that leave the channels alone.
Fills-same : (n : ℕ) (w w' : World) → w'.chans ≡ w.chans → AllFill n w w'
Fills-same n w w' e c = rw e (Fills-refl n (w.chans c))

message-Fills :
    (env : Env) (w w' : World) (m : Message) (ds : List Bool)
    → ((e : Event) → env.clone e ≡ e)
    → ((pb : Event) → env.unmarshal m.payload ≡ some pb → pb.event ≢ none)
    → Inv w
    → handle_message env w m ds ≡ done w'
    → AllFill 1 w w'
unfolding handle_message
message-Fills env w w' m ds clones named v h = elim (Option-cases (env.unmarshal m.payload)) [
  | inl dropped ↦
      let run : handle_message env w m ds ≡ done w = rw (handle_message, dropped) refl in
      let same : w ≡ w' = cc (run, h) in rw (← same) (Fills-same 1 w w refl)
  | inr (pb, decodes) ↦ elim (Option-cases pb.event) [
    | inl missing ↦ absurd (named pb decodes missing)
    | inr (any, has) ↦
        let key = dispatch_key any in
        let pb' = mark_retained m.retained pb in
        let rs = receivers_of w.broker key in
        let (cs, e, _, _) = fan_out_open env pb' (clones _) rs ds w.chans (v.registered_open key) in
        let run = handle_message_lem env w m ds pb any decodes has clones cs e in
        let w₁ : World = record w {
          broker = store_retained m.retained key pb' w.broker;
          chans = cs;
        } in
        let same : w₁ ≡ w' = cc (run, h) in
        rw (← same) (λ c.
          let f = fan_out-Fills env pb' rs ds w.chans cs e c in
          record {
            filled = omega (arith, f.filled, v.registered_once key c);
            capacity_same = f.capacity_same;
          })
  ]
]

retained-Fills :
    (o : Option Event) (cs cs' : Chans Event) (a c : ℕ) (drains : Bool)
    → send_retained o cs a drains ≡ done cs'
    → Fills 1 (cs c) (cs' c)
unfolding send_retained
retained-Fills none cs cs' a c drains h =
    let same : cs ≡ cs' = cc h in rw (← same) (Fills-refl 1 (cs c))
retained-Fills (some msg) cs cs' a c drains h =
    let (ch, goes, ends) = >>=-eq-done (send (cs a) msg drains) _ h in
    let same : update cs a ch ≡ cs' = cc ends in
    rw (← same) (elim (Bool-cases (a == c)) [
      | inl hit ↦ rw (hit, ← (nat_eqb_iff a c).0 hit) (send-Fills (cs a) ch msg drains goes)
      | inr miss ↦ rw miss (Fills-refl 1 (cs c))
    ])

pub subscribe-Fills :
    (w w' : World) (url : String) (a : ℕ) (drains : Bool)
    → subscribe w url a drains ≡ done w'
    → AllFill 1 w w'
unfolding subscribe
subscribe-Fills w w' url a drains h c =
    let kept = lookup url w.broker.retained_msgs in
    let (cs, goes, ends) =
      >>=-eq-done (send_retained kept w.chans a drains)
        (λ (cs₁ : Chans Event). done (subscribed w url a cs₁)) h in
    let same : subscribed w url a cs ≡ w' = cc ends in
    rw (← same) (retained-Fills kept w.chans cs a c drains goes)

-- How many entries an action may add to a channel.
abbrev pub cost : Action → ℕ
cost (subscribes url c drains) = 1
cost (receives m ds) = 1
cost (unsubscribes c) = 0
cost (closes c) = 0
cost (connects client) = 0
cost (runs k joined) = 0
cost (publishes evt) = 0
cost (reads c) = 0

update-Fills :
    (cs : Chans Event) (a c : ℕ) (b : Channel Event)
    → Fills 0 (cs a) b
    → Fills 0 (cs c) (update cs a b c)
update-Fills cs a c b f = elim (Bool-cases (a == c)) [
  | inl hit ↦ rw (hit, ← (nat_eqb_iff a c).0 hit) f
  | inr miss ↦ rw miss (Fills-refl 0 (cs c))
]

pub step-Fills :
    (env : Env) (w w' : World) (a : Action)
    → ((e : Event) → env.clone e ≡ e)
    → Inv w
    → Admissible env w a
    → step env w a ≡ done w'
    → AllFill (cost a) w w'
unfolding step unsubscribe_all read handle_on_connect
step-Fills env w w' (subscribes url c drains) clones v h e = subscribe-Fills w w' url c drains e
step-Fills env w w' (unsubscribes c) clones v h e =
    let same : unsubscribe_all w c ≡ w' = done-injective e in
    rw (← same) (Fills-same 0 w (unsubscribe_all w c) refl)
step-Fills env w w' (closes c) clones v h e = rw (← close_channel-done w w' c e) (λ d.
    update-Fills w.chans c d (shut (w.chans c))
      (record { filled = omega arith; capacity_same = refl }))
step-Fills env w w' (receives m ds) clones v h e = message-Fills env w w' m ds clones h v e
step-Fills env w w' (connects client) clones v h e =
    let same : handle_on_connect env w client ≡ w' = done-injective e in
    rw (← same) (
      Fills-same 0 w (handle_on_connect env w client)
        (resubscribe_same env (record w { broker = record w.broker { conn = some client } }) client
          w.broker.topics).1)
step-Fills env w w' (runs k joined) clones v h e =
    Fills-same 0 w w' (run_picked-chans env w w' k joined e)
step-Fills env w w' (publishes evt) clones v h e =
    let (r, sends, ends) = >>=-eq-done (publish env w evt) _ e in
    let same : r.0 ≡ w' = done-injective ends in
    rw (← same) (Fills-same 0 w r.0 (publish-chans env w evt r sends))
step-Fills env w w' (reads c) clones v h e =
    let same : read w c ≡ w' = done-injective e in
    rw (← same) (λ d.
      update-Fills w.chans c d (hand_off (w.chans c).buffer (w.chans c)) (taken-Fills (w.chans c)))

pub Room-step :
    (a : Action) (n : ℕ) (w w' : World)
    → AllFill (cost a) w w'
    → Room (cost a + n) w.chans
    → Room n w'.chans
Room-step a n w w' fills room c =
    let f = fills c in omega (arith, f.filled, f.capacity_same, room c)
