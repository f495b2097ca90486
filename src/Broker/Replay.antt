-- ===== src/Broker/Replay.antt =====
-- internal/broker/broker.go: retained messages, from handleMessage to a later Subscribe.
use events_service.Base.{
  ℕ, List, [], ◌∷◌, ◌++◌, String, Bool, true, false, some, done, ◌≡◌, refl, ◌∙◌, ap, arith, lookup,
  lookup-insert, eq_refl, nat_eq, string_eq, nat_eqb_iff, length, ◌<◌,
}
use events_service.Chan.{update, history}
use events_service.Chan.Laws.{send_room}
use events_service.Broker.{Env, World, Event, AnyMessage, subscribe, subscribed}
use events_service.Broker.Delivery.{dispatch_key}
use events_service.Broker.Dispatch.{Message, mark_retained, dispatch, handle_message}

subscribe-replays :
    (w : World) (url : String) (c : ℕ) (drains : Bool) (msg : Event)
    → lookup url w.broker.retained_msgs ≡ some msg
    → (w.chans c).closed ≡ false
    → length (w.chans c).buffer < (w.chans c).capacity
    → (w' : World) × (subscribe w url c drains ≡ done w')
      × (history (w'.chans c) ≡ history (w.chans c) ++ msg ∷ [])
unfolding subscribe
subscribe-replays w url c drains msg kept o room =
    let (ch, sent, h) = send_room (w.chans c) msg drains o room in
    (
      subscribed w url c (update w.chans c ch),
      rw (kept, sent),
      ap history {x = update w.chans c ch c} {y = ch} (rw ((nat_eqb_iff c c).1 refl)) ∙ h,
    )

handle_message-retained :
    (env : Env) (w w' : World) (m : Message) (ds : List Bool) (pb : Event) (any : AnyMessage)
    → env.unmarshal m.payload ≡ some pb
    → pb.event ≡ some any
    → m.retained ≡ true
    → handle_message env w m ds ≡ done w'
    → lookup (dispatch_key any) w'.broker.retained_msgs ≡ some (mark_retained true pb)
unfolding handle_message dispatch
handle_message-retained env w w' m ds pb any dec has r e = ground (
  arith,
  lookup-insert (dispatch_key any) (dispatch_key any) (mark_retained true pb)
      w.broker.retained_msgs,
  eq_refl (dispatch_key any),
)

-- Once a retained message has been handled, the next subscription to its type URL, by an open
-- channel with room, sends that event, marked retained, to the new channel at once.
pub retained_replayed :
    (env : Env) (w w' : World) (m : Message) (ds : List Bool) (pb : Event) (any : AnyMessage)
    (c : ℕ) (drains : Bool)
    → env.unmarshal m.payload ≡ some pb
    → pb.event ≡ some any
    → m.retained ≡ true
    → handle_message env w m ds ≡ done w'
    → (w'.chans c).closed ≡ false
    → length (w'.chans c).buffer < (w'.chans c).capacity
    → (w'' : World) × (subscribe w' (dispatch_key any) c drains ≡ done w'')
      × (history (w''.chans c) ≡ history (w'.chans c) ++ mark_retained true pb ∷ [])
retained_replayed env w w' m ds pb any c drains dec has r e o room =
    subscribe-replays w' (dispatch_key any) c drains (mark_retained true pb)
      (handle_message-retained env w w' m ds pb any dec has r e) o room
